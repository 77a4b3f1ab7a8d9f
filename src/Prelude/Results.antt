-- ===== src/Prelude/Results.antt =====
-- The outcome of code that returns a value or an error code, and may step out of a buffer.
use mathlib.Core.Path.{◌≡◌, refl, subst}
use mathlib.Core.Bool.{Bool, true, false}

-- `std::expected<A, E>`, and `fault` for an access outside a span or container: undefined behaviour.
pub data Result {ℓ} (E : Type 0) (A : Type ℓ) : Type ℓ where
  ok : A → Result E A
  err : E → Result E A
  fault : Result E A

infixl 5 ◌>>=◌ ◌>>◌
abbrev pub ◌>>=◌ {ℓ κ} :
    {E : Type 0} {A : Type ℓ} {B : Type κ} → Result E A → (A → Result E B) → Result E B
ok a >>= f = f a
err e >>= f = err e
fault >>= f = fault

abbrev pub ◌>>◌ {ℓ} : {E : Type 0} {B : Type ℓ} → Result E (Unit {0}) → Result E B → Result E B
m >> k = m >>= λ _. k

-- An early return: `if (bad) { return e; }`.
abbrev pub fail_if : {E : Type 0} → Bool → E → Result E (Unit {0})
fail_if true e = err e
fail_if false e = ok tt

-- What holds of a result whose every error is allowed: no fault, and `P` of the value.
abbrev pub Safe {ℓ} : {E : Type 0} {A : Type ℓ} → (A → Type 0) → Result E A → Type 0
Safe P (ok a) = P a
Safe P (err e) = Unit {0}
Safe P fault = ⊥

pub Safe-bind {ℓ κ} :
    {E : Type 0} {A : Type ℓ} {B : Type κ} (P : A → Type 0) (Q : B → Type 0) (m : Result E A)
    (f : A → Result E B)
    → Safe P m
    → ((a : A) → P a → Safe Q (f a))
    → Safe Q (m >>= f)
Safe-bind P Q (ok a) f h k = k a h
Safe-bind P Q (err e) f h k = tt
Safe-bind P Q fault f h k = elim h [ ]

abbrev pub is_ok {ℓ} : {E : Type 0} {A : Type ℓ} → Result E A → Bool
is_ok (ok a) = true
is_ok _ = false

pub is_ok_value {ℓ} :
    {E : Type 0} {A : Type ℓ} (r : Result E A) → is_ok r ≡ true → (a : A) × (r ≡ ok a)
is_ok_value (ok a) h = (a, refl)
is_ok_value (err e) h = cc
is_ok_value fault h = cc

-- What `Safe` says of a result that is known.
pub Safe_ok {ℓ} :
    {E : Type 0} {A : Type ℓ} (P : A → Type 0) {r : Result E A} {a : A} → Safe P r → r ≡ ok a → P a
Safe_ok P s e = subst (Safe P) e s

pub Safe-map {ℓ} :
    {E : Type 0} {A : Type ℓ} (P Q : A → Type 0) (r : Result E A)
    → ((a : A) → P a → Q a)
    → Safe P r
    → Safe Q r
Safe-map P Q (ok a) f s = f a s
Safe-map P Q (err e) f s = tt
Safe-map P Q fault f s = s
