-- ===== src/Crc/Bitwise.antt =====
-- The table-driven loops against the bit-by-bit definition of the two checksums.
use livox_mid360_core.Prelude.{
  ℕ, zero, suc, ◌*◌, ◌/◌, ◌%◌, ◌^◌, ◌<◌, ◌≡◌, refl, sym, ap, ap₂, ◌∙◌, bit_xor, List, [], ◌∷◌,
  get_or, inl, inr, Bool-cases, arith, ◌==◌, ◌+◌, if◌then◌else◌, subst,
}
use livox_mid360_core.Prelude.Bits.{
  bit_xor_half, bit_xor_low, bit_xor_assoc, bit_xor_comm, bit_xor-zero, bit_xor-lt,
}
use livox_mid360_core.Prelude.Fields.{
  shift_suc, bit_xor_double, bit_xor_fields, bit_xor_div, bit_xor_mod,
}
use native.Mathlib.Nat.{one-le-pow, mod-eq_of_lt}
use livox_mid360_core.Bytes.{IsByte, All}
use livox_mid360_core.Crc.{
  crc16_round, crc16_rounds, crc32_round, crc32_rounds, make_crc16_table, crc16_byte,
  crc16_ccitt_false, crc32_byte, crc32_loop, crc32,
}
use livox_mid360_core.Crc.Bounds.{get_or-make_crc16_table, get_or-make_crc32_table}

-- `n` divisions of the register by a polynomial, by the one that `step` makes.
abbrev pub repeat : (ℕ → ℕ) → ℕ → ℕ → ℕ
repeat step zero c = c
repeat step (suc n) c = repeat step n (step c)

-- The bit that leaves at the low end takes the reflected polynomial of CRC-32 away.
abbrev pub crc32_bit : ℕ → ℕ
crc32_bit c = if c % 2 == 1 then bit_xor 0xEDB88320 (c / 2) else c / 2

-- The bit that leaves 16 bits at the high end takes the polynomial x^16 + x^12 + x^5 + 1 away.
abbrev pub crc16_bit : ℕ → ℕ
crc16_bit c =
    if c / 2 ^ 15 % 2 == 1 then bit_xor (c * 2) (2 ^ 12 + 2 ^ 5 + 1) % 2 ^ 16 else c * 2 % 2 ^ 16

-- One bit at a time: the byte is added to the register, then eight divisions by the polynomial.
abbrev pub crc32_bitwise_loop : List ℕ → ℕ → ℕ
crc32_bitwise_loop [] c = c
crc32_bitwise_loop (b ∷ bytes) c = crc32_bitwise_loop bytes (repeat crc32_bit 8 (bit_xor c b))

abbrev pub crc32_bitwise : List ℕ → ℕ → ℕ
crc32_bitwise bytes state = bit_xor (crc32_bitwise_loop bytes (bit_xor state 0xFFFFFFFF)) 0xFFFFFFFF

abbrev pub crc16_bitwise : List ℕ → ℕ → ℕ
crc16_bitwise [] state = state
crc16_bitwise (b ∷ bytes) state =
    crc16_bitwise bytes (repeat crc16_bit 8 (bit_xor state (b * 2 ^ 8)))

-- The rounds of the code are these.
crc32_rounds-repeat : (n c : ℕ) → crc32_rounds n c ≡ repeat crc32_bit n c
unfolding crc32_rounds crc32_round
crc32_rounds-repeat zero c = refl
crc32_rounds-repeat (suc n) c = crc32_rounds-repeat n (crc32_bit c)

crc16_round-crc16_bit : (c : ℕ) → crc16_round c ≡ crc16_bit c
unfolding crc16_round
crc16_round-crc16_bit c = ground arith

crc16_rounds-repeat : (n c : ℕ) → crc16_rounds n c ≡ repeat crc16_bit n c
unfolding crc16_rounds
crc16_rounds-repeat zero c = refl
crc16_rounds-repeat (suc n) c =
    ap (crc16_rounds n) (crc16_round-crc16_bit c) ∙ crc16_rounds-repeat n (crc16_bit c)

crc32_round_even : (x y : ℕ) → crc32_round (bit_xor x (y * 2)) ≡ bit_xor (crc32_round x) y
unfolding crc32_round
crc32_round_even x y =
    let low : bit_xor x (y * 2) % 2 ≡ x % 2 = omega (arith, bit_xor_low x (y * 2)) in
    let shifted : y * 2 / 2 ≡ y = omega arith in
    rw (low, bit_xor_half x (y * 2), shifted)
      (elim (Bool-cases (x % 2 == 1)) [
        | inl odd ↦ rw odd (sym (bit_xor_assoc 0xEDB88320 (x / 2) y))
        | inr even ↦ rw even refl
      ])

crc32_rounds_high :
    (k x h : ℕ) → crc32_rounds k (bit_xor x (h * 2 ^ k)) ≡ bit_xor (crc32_rounds k x) h
unfolding crc32_rounds
crc32_rounds_high zero x h = ap (bit_xor x) (omega arith)
crc32_rounds_high (suc k) x h =
    let e : h * 2 ^ suc k ≡ h * 2 ^ k * 2 = omega (arith, shift_suc h k) in
    rw (e, crc32_round_even x (h * 2 ^ k)) (crc32_rounds_high k (crc32_round x) h)

crc32_byte-rounds : (c b : ℕ) → IsByte b → crc32_byte c b ≡ crc32_rounds 8 (bit_xor c b)
unfolding crc32_byte
crc32_byte-rounds c b h =
    let x = bit_xor c b in
    let high : c / 2 ^ 8 ≡ x / 2 ^ 8 =
      sym (bit_xor_div 8 c b ∙ ap (bit_xor (c / 2 ^ 8)) (omega arith) ∙ bit_xor-zero (c / 2 ^ 8)) in
    let whole : bit_xor (x % 2 ^ 8) (x / 2 ^ 8 * 2 ^ 8) ≡ x =
      bit_xor_comm (x % 2 ^ 8) (x / 2 ^ 8 * 2 ^ 8)
      ∙ bit_xor_fields 8 (x / 2 ^ 8) (x % 2 ^ 8) (omega arith)
      ∙ omega arith in
    ap (λ t. bit_xor t (c / 2 ^ 8)) (get_or-make_crc32_table (x % 2 ^ 8) (omega arith))
    ∙ ap (bit_xor (crc32_rounds 8 (x % 2 ^ 8))) high
    ∙ sym (crc32_rounds_high 8 (x % 2 ^ 8) (x / 2 ^ 8))
    ∙ ap (crc32_rounds 8) whole

crc32_loop-bitwise :
    (bytes : List ℕ) (c : ℕ) → All IsByte bytes → crc32_loop bytes c ≡ crc32_bitwise_loop bytes c
unfolding crc32_loop
crc32_loop-bitwise [] c h = refl
crc32_loop-bitwise (b ∷ bytes) c h =
    rw (crc32_byte-rounds c b h.0, crc32_rounds-repeat 8 (bit_xor c b))
      (crc32_loop-bitwise bytes (repeat crc32_bit 8 (bit_xor c b)) h.1)

-- On bytes, the table-driven CRC-32 is the bit-by-bit CRC-32 with the reflected polynomial.
pub crc32-crc32_bitwise :
    (bytes : List ℕ) (state : ℕ) → All IsByte bytes → crc32 bytes state ≡ crc32_bitwise bytes state
unfolding crc32
crc32-crc32_bitwise bytes state h =
    ap (λ c. bit_xor c 0xFFFFFFFF) (crc32_loop-bitwise bytes (bit_xor state 0xFFFFFFFF) h)

-- Bits below the top one only shift.
crc16_round_low :
    (x y : ℕ) → y < 2 ^ 15 → crc16_round (bit_xor x y) ≡ bit_xor (crc16_round x) (y * 2)
unfolding crc16_round
crc16_round_low x y h =
    let gone : y / 2 ^ 15 ≡ 0 = omega arith in
    let top : bit_xor x y / 2 ^ 15 ≡ x / 2 ^ 15 =
      bit_xor_div 15 x y ∙ ap (bit_xor (x / 2 ^ 15)) gone ∙ bit_xor-zero (x / 2 ^ 15) in
    let kept : y * 2 % 2 ^ 16 ≡ y * 2 = omega arith in
    let cut : (z : ℕ) → bit_xor z (y * 2) % 2 ^ 16 ≡ bit_xor (z % 2 ^ 16) (y * 2) =
      λ z. bit_xor_mod 16 z (y * 2) ∙ ap (bit_xor (z % 2 ^ 16)) kept in
    rw (top, sym (bit_xor_double x y))
      (elim (Bool-cases (x / 2 ^ 15 % 2 == 1)) [
        | inl set ↦
            rw
              (
                set,
                bit_xor_assoc (x * 2) (y * 2) 0x1021,
                bit_xor_comm (y * 2) 0x1021,
                sym (bit_xor_assoc (x * 2) 0x1021 (y * 2)),
              )
              (cut (bit_xor (x * 2) 0x1021))
        | inr clear ↦ rw clear (cut (x * 2))
      ])

crc16_rounds_low :
    (k x y : ℕ)
    → y * 2 ^ k < 2 ^ 16
    → crc16_rounds k (bit_xor x y) ≡ bit_xor (crc16_rounds k x) (y * 2 ^ k)
unfolding crc16_rounds
crc16_rounds_low zero x y h = ap (bit_xor x) (omega arith)
crc16_rounds_low (suc k) x y h =
    let e : y * 2 ^ suc k ≡ y * 2 * 2 ^ k = omega (arith, shift_suc y k) in
    let below : y < 2 ^ 15 = grind (arith, one-le-pow k 2) in
    rw (e, crc16_round_low x y below)
      (crc16_rounds_low k (crc16_round x) (y * 2) (omega (arith, e)))

crc16_rounds-lt : (k x : ℕ) → crc16_rounds (suc k) x < 2 ^ 16
unfolding crc16_rounds crc16_round
crc16_rounds-lt zero x = omega arith
crc16_rounds-lt (suc k) x = crc16_rounds-lt k (crc16_round x)

crc16_byte-rounds :
    (state b : ℕ)
    → state < 2 ^ 16
    → IsByte b
    → crc16_byte state b ≡ crc16_rounds 8 (bit_xor state (b * 2 ^ 8))
unfolding crc16_byte
crc16_byte-rounds state b hs hb =
    let idx = bit_xor (state / 2 ^ 8) b in
    let x = bit_xor state (b * 2 ^ 8) in
    let T = crc16_rounds 8 (idx * 2 ^ 8) in
    let below : idx < 2 ^ 8 = bit_xor-lt 8 (state / 2 ^ 8) b (omega arith) hb in
    let inside : idx % 2 ^ 8 ≡ idx = omega arith in
    let high : x / 2 ^ 8 ≡ idx =
      bit_xor_div 8 state (b * 2 ^ 8) ∙ ap (bit_xor (state / 2 ^ 8)) (omega arith) in
    let low : x % 2 ^ 8 ≡ state % 2 ^ 8 =
      bit_xor_mod 8 state (b * 2 ^ 8)
      ∙ ap (bit_xor (state % 2 ^ 8)) (omega arith)
      ∙ bit_xor-zero (state % 2 ^ 8) in
    let whole : bit_xor (idx * 2 ^ 8) (state % 2 ^ 8) ≡ x =
      bit_xor_fields 8 idx (state % 2 ^ 8) (omega arith) ∙ omega (arith, high, low) in
    let entry : get_or make_crc16_table (idx % 2 ^ 8) 0 ≡ T =
      ap (λ k. get_or make_crc16_table k 0) inside ∙ get_or-make_crc16_table idx below in
    let shifted : state * 2 ^ 8 % 2 ^ 16 ≡ state % 2 ^ 8 * 2 ^ 8 = omega arith in
    let fits : T % 2 ^ 16 ≡ T = mod-eq_of_lt (crc16_rounds-lt 7 (idx * 2 ^ 8)) in
    ap (λ t. bit_xor (state * 2 ^ 8) t % 2 ^ 16) entry
    ∙ bit_xor_mod 16 (state * 2 ^ 8) T
    ∙ ap₂ bit_xor shifted fits
    ∙ bit_xor_comm (state % 2 ^ 8 * 2 ^ 8) T
    ∙ sym (crc16_rounds_low 8 (idx * 2 ^ 8) (state % 2 ^ 8) (omega arith))
    ∙ ap (crc16_rounds 8) whole

-- On bytes, the table-driven CRC-16 is the bit-by-bit CRC-16 with the polynomial 0x1021.
pub crc16-crc16_bitwise :
    (bytes : List ℕ) (state : ℕ)
    → All IsByte bytes
    → state < 2 ^ 16
    → crc16_ccitt_false bytes state ≡ crc16_bitwise bytes state
unfolding crc16_ccitt_false
crc16-crc16_bitwise [] state h hs = refl
crc16-crc16_bitwise (b ∷ bytes) state h hs =
    let e = crc16_rounds-repeat 8 (bit_xor state (b * 2 ^ 8)) in
    let fits = crc16_rounds-lt 7 (bit_xor state (b * 2 ^ 8)) in
    rw (crc16_byte-rounds state b hs h.0, e)
      (crc16-crc16_bitwise bytes (repeat crc16_bit 8 (bit_xor state (b * 2 ^ 8))) h.1
        (subst (λ c. c < 2 ^ 16) e fits))
