-- ===== src/Crc/Bounds.antt =====
-- Results fit their types, and table entries are what the table's loop computes.
use livox_mid360_core.Prelude.{
  ℕ, zero, suc, ◌+◌, ◌*◌, ◌/◌, ◌%◌, ◌^◌, ◌<◌, ◌≡◌, ap, ◌∙◌, bit_xor, List, [], ◌∷◌, get_or, arith,
}
use livox_mid360_core.Prelude.Bits.{bit_xor-lt}
use livox_mid360_core.Crc.{
  crc16_rounds, crc32_round, crc32_rounds, table_from, make_crc16_table, make_crc32_table,
  crc16_byte, crc16_ccitt_false, crc32_byte, crc32_loop, crc32,
}

get_or-table_from :
    (entry : ℕ → ℕ) (n i k : ℕ) → k < n → get_or (table_from entry n i) k 0 ≡ entry (i + k)
unfolding table_from
get_or-table_from entry zero i k h = absurd (omega arith)
get_or-table_from entry (suc n) i zero h = ap entry (omega arith)
get_or-table_from entry (suc n) i (suc k) h =
    get_or-table_from entry n (i + 1) k (omega arith) ∙ ap entry (omega arith)

pub get_or-make_crc16_table :
    (k : ℕ) → k < 256 → get_or make_crc16_table k 0 ≡ crc16_rounds 8 (k * 2 ^ 8)
unfolding make_crc16_table
get_or-make_crc16_table k h =
    let cut : (0 + k) * 2 ^ 8 % 2 ^ 16 ≡ k * 2 ^ 8 = omega arith in
    get_or-table_from (λ i. crc16_rounds 8 (i * 2 ^ 8 % 2 ^ 16)) 256 0 k h ∙ ap (crc16_rounds 8) cut

pub get_or-make_crc32_table : (k : ℕ) → k < 256 → get_or make_crc32_table k 0 ≡ crc32_rounds 8 k
unfolding make_crc32_table
get_or-make_crc32_table k h =
    let same : 0 + k ≡ k = omega arith in
    get_or-table_from (crc32_rounds 8) 256 0 k h ∙ ap (crc32_rounds 8) same

crc32_round-lt : (c : ℕ) → c < 2 ^ 32 → crc32_round c < 2 ^ 32
unfolding crc32_round
crc32_round-lt c h = ground (arith, bit_xor-lt 32 0xEDB88320 (c / 2))

crc32_rounds-lt : (k c : ℕ) → c < 2 ^ 32 → crc32_rounds k c < 2 ^ 32
unfolding crc32_rounds
crc32_rounds-lt zero c h = h
crc32_rounds-lt (suc k) c h = crc32_rounds-lt k (crc32_round c) (crc32_round-lt c h)

crc32_byte-lt : (c b : ℕ) → c < 2 ^ 32 → crc32_byte c b < 2 ^ 32
unfolding crc32_byte
crc32_byte-lt c b h =
    let idx = bit_xor c b % 2 ^ 8 in
    bit_xor-lt 32 (get_or make_crc32_table idx 0) (c / 2 ^ 8)
      (rw (get_or-make_crc32_table idx (omega arith)) (crc32_rounds-lt 8 idx (omega arith)))
      (omega arith)

pub crc32_loop-lt : (bytes : List ℕ) (c : ℕ) → c < 2 ^ 32 → crc32_loop bytes c < 2 ^ 32
unfolding crc32_loop
crc32_loop-lt [] c h = h
crc32_loop-lt (b ∷ bytes) c h = crc32_loop-lt bytes (crc32_byte c b) (crc32_byte-lt c b h)

pub crc32-lt : (bytes : List ℕ) (state : ℕ) → state < 2 ^ 32 → crc32 bytes state < 2 ^ 32
unfolding crc32
crc32-lt bytes state h =
    bit_xor-lt 32 _ 0xFFFFFFFF
      (crc32_loop-lt bytes _ (bit_xor-lt 32 state 0xFFFFFFFF h (omega arith))) (omega arith)

pub crc16_ccitt_false-lt :
    (bytes : List ℕ) (state : ℕ) → state < 2 ^ 16 → crc16_ccitt_false bytes state < 2 ^ 16
unfolding crc16_ccitt_false
crc16_ccitt_false-lt [] state h = h
crc16_ccitt_false-lt (b ∷ bytes) state h =
    crc16_ccitt_false-lt bytes (crc16_byte state b) (cut state b)
  where
    cut : (state b : ℕ) → crc16_byte state b < 2 ^ 16
    cut state b = unfold crc16_byte in omega arith
