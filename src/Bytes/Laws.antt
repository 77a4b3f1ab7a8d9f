-- ===== src/Bytes/Laws.antt =====
-- Reads and writes inside the span, and what they leave alone.
use livox_mid360_core.Prelude.{
  ℕ, zero, suc, ◌+◌, ◌*◌, ◌/◌, ◌%◌, ◌^◌, ◌≤◌, ◌<◌, ◌≡◌, refl, sym, ap, subst, ◌∙◌, true, List, [],
  ◌∷◌, ◌++◌, length, take, drop, leb, ok, arith, length-append, length-take, length-drop,
  take-append, drop-append, drop-drop, take-append-drop,
}
use mathlib.Core.List.{append_assoc}
use native.Mathlib.Nat.{pow-suc}
use livox_mid360_core.Bytes.{IsByte, All, le_bytes, le_value, subspan, copy_to, read_le}

pub length-le_bytes : (w v : ℕ) → length (le_bytes w v) ≡ w
length-le_bytes zero v = refl
length-le_bytes (suc w) v = ap suc (length-le_bytes w (v / 256))

pub le_bytes-All : (w v : ℕ) → All IsByte (le_bytes w v)
le_bytes-All zero v = tt
le_bytes-All (suc w) v = (omega arith, le_bytes-All w (v / 256))

-- Decoding what was encoded gives the number cut to its width.
pub le_value-le_bytes : (w v : ℕ) → v < 256 ^ w → le_value (le_bytes w v) ≡ v
le_value-le_bytes zero v h = omega arith
le_value-le_bytes (suc w) v h =
    omega (arith, le_value-le_bytes w (v / 256) (omega (arith, pow-suc 256 w)))

pub le_value-lt : (bs : List ℕ) → All IsByte bs → le_value bs < 256 ^ length bs
le_value-lt [] h = omega arith
le_value-lt (b ∷ bs) h = omega (arith, pow-suc 256 (length bs), le_value-lt bs h.1)

-- Encoding what was decoded gives the bytes back.
pub le_bytes-le_value : (bs : List ℕ) → All IsByte bs → le_bytes (length bs) (le_value bs) ≡ bs
le_bytes-le_value [] h = refl
le_bytes-le_value (b ∷ bs) h =
    let low : (b + 256 * le_value bs) % 256 ≡ b = omega arith in
    let high : (b + 256 * le_value bs) / 256 ≡ le_value bs = omega arith in
    rw (low, high) (ap (◌∷◌ b) (le_bytes-le_value bs h.1))

module _ {E : Type 0} where
  pub subspan_ok :
      (xs : List ℕ) (off n : ℕ)
      → off + n ≤ length xs
      → subspan {E = E} xs off n ≡ ok (take n (drop off xs))
  unfolding subspan
  subspan_ok xs off n h = ground arith

  pub read_le_ok :
      (w : ℕ) (xs : List ℕ) (off : ℕ)
      → off + w ≤ length xs
      → read_le {E = E} w xs off ≡ ok (le_value (take w (drop off xs)))
  unfolding read_le
  read_le_ok w xs off h = rw (subspan_ok xs off w h)

  -- A write just behind a prefix keeps the prefix, and replaces as many bytes as it writes.
  pub copy_to-append :
      (p bs rest : List ℕ) (off : ℕ)
      → off ≡ length p
      → length bs ≤ length rest
      → copy_to {E = E} (p ++ rest) off bs ≡ ok (p ++ (bs ++ drop (length bs) rest))
  unfolding copy_to
  copy_to-append p bs rest off e h =
      let fits : leb (off + length bs) (length (p ++ rest)) ≡ true =
        ground (arith, length-append p rest) in
      rw fits (
        rw e (
          rw (
            take-append p rest,
            ← drop-drop (length bs) (length p) (p ++ rest),
            drop-append p rest,
          )))

take-drop-append {ℓ} :
    {A : Type ℓ} (n k : ℕ) (xs ys : List A)
    → k + n ≤ length xs
    → take n (drop k (xs ++ ys)) ≡ take n (drop k xs)
take-drop-append zero k xs ys h = refl
take-drop-append (suc n) zero [] ys h = absurd (omega arith)
take-drop-append (suc n) (suc k) [] ys h = absurd (omega arith)
take-drop-append (suc n) zero (x ∷ xs) ys h = ap (◌∷◌ x) (take-drop-append n 0 xs ys (omega arith))
take-drop-append (suc n) (suc k) (x ∷ xs) ys h = take-drop-append (suc n) k xs ys (omega arith)

-- The buffer after a write of `bs` at `off`.
abbrev pub splice : List ℕ → ℕ → List ℕ → List ℕ
splice out off bs = take off out ++ (bs ++ drop (off + length bs) out)

pub copy_to_ok :
    {E : Type 0} (out : List ℕ) (off : ℕ) (bs : List ℕ)
    → off + length bs ≤ length out
    → copy_to {E = E} out off bs ≡ ok (splice out off bs)
unfolding copy_to
copy_to_ok out off bs h = ground arith

module _ (out : List ℕ) (off : ℕ) (bs : List ℕ) (fits : off + length bs ≤ length out) where
  length_front : length (take off out) ≡ off
  length_front = omega (arith, length-take off out)

  pub length-splice : length (splice out off bs) ≡ length out
  length-splice = omega (
    arith,
    length_front,
    length-append (take off out) (bs ++ drop (off + length bs) out),
    length-append bs (drop (off + length bs) out),
    length-drop (off + length bs) out,
  )

  -- What was written is read back.
  pub read_written : take (length bs) (drop off (splice out off bs)) ≡ bs
  read_written =
      let back = bs ++ drop (off + length bs) out in
      let behind : drop off (splice out off bs) ≡ back =
        ap (λ n. drop n (splice out off bs)) (sym length_front) ∙ drop-append (take off out) back in
      rw behind (take-append bs (drop (off + length bs) out))

  -- Bytes before and behind the write are as they were.
  pub read_before :
      (n k : ℕ) → k + n ≤ off → take n (drop k (splice out off bs)) ≡ take n (drop k out)
  read_before n k h =
      take-drop-append n k (take off out) _ (omega (arith, length_front))
      ∙ sym (take-drop-append n k (take off out) (drop off out) (omega (arith, length_front)))
      ∙ ap (λ xs. take n (drop k xs)) (take-append-drop off out)

  pub read_behind :
      (k : ℕ) → drop (off + length bs + k) (splice out off bs) ≡ drop (off + length bs + k) out
  read_behind k =
      let back = drop (off + length bs) out in
      let front : off + length bs ≡ length (take off out ++ bs) =
        omega (arith, length_front, length-append (take off out) bs) in
      let whole : splice out off bs ≡ (take off out ++ bs) ++ back =
        sym (append_assoc (take off out) bs back) in
      let behind : drop (off + length bs) (splice out off bs) ≡ back =
        ap (λ n. drop n (splice out off bs)) front
        ∙ ap (drop (length (take off out ++ bs))) whole
        ∙ drop-append (take off out ++ bs) back in
      sym (drop-drop k (off + length bs) (splice out off bs))
      ∙ ap (drop k) behind
      ∙ drop-drop k (off + length bs) out

pub All-take {ℓ} :
    {A : Type ℓ} (P : A → Type 0) (n : ℕ) (xs : List A) → All P xs → All P (take n xs)
All-take P zero xs h = tt
All-take P (suc n) [] h = tt
All-take P (suc n) (x ∷ xs) h = (h.0, All-take P n xs h.1)

pub All-drop {ℓ} :
    {A : Type ℓ} (P : A → Type 0) (n : ℕ) (xs : List A) → All P xs → All P (drop n xs)
All-drop P zero xs h = h
All-drop P (suc n) [] h = tt
All-drop P (suc n) (x ∷ xs) h = All-drop P n xs h.1

-- `w` bytes, decoded and encoded again.
pub le_bytes_back :
    (w : ℕ) (bs : List ℕ) → length bs ≡ w → All IsByte bs → le_bytes w (le_value bs) ≡ bs
le_bytes_back w bs e h = subst (λ k. le_bytes k (le_value bs) ≡ bs) e (le_bytes-le_value bs h)
