-- ===== src/Prelude/Fields.antt =====
-- `bit_xor` and the fields of a number: shifts, low bits, and a number as the xor of two fields.
use Prim.Native.Nat.{ℕ, zero, suc, ◌+◌, ◌*◌, ◌/◌, ◌%◌, ◌^◌, ◌<◌, bit_xor}
use mathlib.Core.Path.{◌≡◌, sym, ap, ap₂, ◌∙◌}
use native.Mathlib.Omega.{arith}
use native.Mathlib.Nat.{pow-suc, mod-add-div, div-div-eq-div-mul}
use livox_mid360_core.Prelude.Bits.{
  bit_xor_step, bit_xor_half, bit_xor_low, eq_of_half, bit_xor-zero,
}

-- One place more to the left.
pub shift_suc : (v k : ℕ) → v * 2 ^ suc k ≡ v * 2 ^ k * 2
shift_suc v k =
    let doubled : v * 2 ^ suc k ≡ v * (2 ^ k * 2) = rw (pow-suc 2 k) in omega (arith, doubled)

pub bit_xor_double : (a b : ℕ) → bit_xor (a * 2) (b * 2) ≡ bit_xor a b * 2
bit_xor_double a b =
    let p : a * 2 / 2 ≡ a = omega arith in
    let q : b * 2 / 2 ≡ b = omega arith in
    eq_of_half _ _ (bit_xor_half (a * 2) (b * 2) ∙ rw (p, q) (omega arith))
      (omega (arith, bit_xor_low (a * 2) (b * 2)))

pub bit_xor_shift : (k a b : ℕ) → bit_xor (a * 2 ^ k) (b * 2 ^ k) ≡ bit_xor a b * 2 ^ k
bit_xor_shift zero a b =
    let p : a * 2 ^ 0 ≡ a = omega arith in
    let q : b * 2 ^ 0 ≡ b = omega arith in rw (p, q) (omega arith)
bit_xor_shift (suc k) a b =
    let p : a * 2 ^ suc k ≡ a * 2 ^ k * 2 = omega (arith, shift_suc a k) in
    let q : b * 2 ^ suc k ≡ b * 2 ^ k * 2 = omega (arith, shift_suc b k) in
    rw (p, q, bit_xor_double (a * 2 ^ k) (b * 2 ^ k), bit_xor_shift k a b)
      (omega (arith, shift_suc (bit_xor a b) k))

-- `(q << k) ^ r` is a sum when `r` fits `k` bits.
pub bit_xor_fields : (k q r : ℕ) → r < 2 ^ k → bit_xor (q * 2 ^ k) r ≡ q * 2 ^ k + r
bit_xor_fields zero q r fits = ground (arith, bit_xor-zero q)
bit_xor_fields (suc k) q r fits =
    ground (
      arith,
      bit_xor_step (q * 2 ^ suc k) r,
      shift_suc q k,
      pow-suc 2 k,
      bit_xor_fields k q (r / 2),
    )

div-two-pow-suc : (k x : ℕ) → x / 2 ^ suc k ≡ x / 2 / 2 ^ k
div-two-pow-suc k x =
    let e : 2 * 2 ^ k ≡ 2 ^ suc k = omega (arith, pow-suc 2 k) in
    rw (div-div-eq-div-mul x 2 (2 ^ k)) (ap (λ p. x / p) (sym e))

mod-two-pow-suc : (k x : ℕ) → x % 2 ^ suc k ≡ x / 2 % 2 ^ k * 2 + x % 2
mod-two-pow-suc k x = omega (
  arith,
  mod-add-div x (2 ^ suc k),
  mod-add-div (x / 2) (2 ^ k),
  ap₂ (λ (p q : ℕ). p * q) (pow-suc 2 k) (div-two-pow-suc k x),
)

pub bit_xor_div : (k a b : ℕ) → bit_xor a b / 2 ^ k ≡ bit_xor (a / 2 ^ k) (b / 2 ^ k)
bit_xor_div zero a b =
    let p : (n : ℕ) → n / 2 ^ 0 ≡ n = λ n. omega arith in rw (p (bit_xor a b), p a, p b)
bit_xor_div (suc k) a b =
    rw (div-two-pow-suc k (bit_xor a b), div-two-pow-suc k a, div-two-pow-suc k b, bit_xor_half a b)
      (bit_xor_div k (a / 2) (b / 2))

pub bit_xor_mod : (k a b : ℕ) → bit_xor a b % 2 ^ k ≡ bit_xor (a % 2 ^ k) (b % 2 ^ k)
bit_xor_mod zero a b =
    let p : (n : ℕ) → n % 2 ^ 0 ≡ 0 = λ n. omega arith in rw (p (bit_xor a b), p a, p b)
bit_xor_mod (suc k) a b =
    eq_of_half _ _
      (rw
        (
          mod_half (bit_xor a b),
          bit_xor_half a b,
          bit_xor_half (a % 2 ^ suc k) (b % 2 ^ suc k),
          mod_half a,
          mod_half b,
        )
        (bit_xor_mod k (a / 2) (b / 2)))
      (omega (
        arith,
        mod_low (bit_xor a b),
        mod_low a,
        mod_low b,
        bit_xor_low a b,
        bit_xor_low (a % 2 ^ suc k) (b % 2 ^ suc k),
      ))
  where
    mod_half : (x : ℕ) → x % 2 ^ suc k / 2 ≡ x / 2 % 2 ^ k
    mod_half x = omega (arith, mod-two-pow-suc k x)

    mod_low : (x : ℕ) → x % 2 ^ suc k % 2 ≡ x % 2
    mod_low x = omega (arith, mod-two-pow-suc k x)
