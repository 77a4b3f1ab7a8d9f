-- ===== src/Crc.antt =====
-- include/livox/mid360/crc.hpp: the two checksums, with the tables that the compiler builds.
-- `static_cast<std::uint16_t>` is `% 2 ^ 16`, `<< k` is `* 2 ^ k`, `>> k` is `/ 2 ^ k`.
pub mod Bounds
pub mod Bitwise
pub mod Continue
use livox_mid360_core.Prelude.{
  ℕ, zero, suc, ◌+◌, ◌*◌, ◌/◌, ◌%◌, ◌^◌, bit_xor, List, [], ◌∷◌, get_or, ◌==◌, if◌then◌else◌,
}

-- The inner loop of `make_crc16_table`, with the rounds that are left.
unfoldable pub crc16_round : ℕ → ℕ
crc16_round c =
    let shifted = c * 2 in
    (if c / 2 ^ 15 % 2 == 1 then bit_xor shifted 0x1021 else shifted) % 2 ^ 16

unfoldable pub crc16_rounds : ℕ → ℕ → ℕ
crc16_rounds zero c = c
crc16_rounds (suc k) c = crc16_rounds k (crc16_round c)

unfoldable pub crc32_round : ℕ → ℕ
crc32_round c = if c % 2 == 1 then bit_xor 0xEDB88320 (c / 2) else c / 2

unfoldable pub crc32_rounds : ℕ → ℕ → ℕ
crc32_rounds zero c = c
crc32_rounds (suc k) c = crc32_rounds k (crc32_round c)

-- The outer loop: the entries from `i` on, `n` of them.
unfoldable pub table_from : (ℕ → ℕ) → ℕ → ℕ → List ℕ
table_from entry zero i = []
table_from entry (suc n) i = entry i ∷ table_from entry n (i + 1)

unfoldable pub make_crc16_table : List ℕ
make_crc16_table = table_from (λ i. crc16_rounds 8 (i * 2 ^ 8 % 2 ^ 16)) 256 0

unfoldable pub make_crc32_table : List ℕ
make_crc32_table = table_from (crc32_rounds 8) 256 0

-- One byte of the loop of `crc16_ccitt_false`.
unfoldable pub crc16_byte : ℕ → ℕ → ℕ
crc16_byte state b =
    let idx = bit_xor (state / 2 ^ 8) b % 2 ^ 8 in
    bit_xor (state * 2 ^ 8) (get_or make_crc16_table idx 0) % 2 ^ 16

unfoldable pub crc16_ccitt_false : List ℕ → ℕ → ℕ
crc16_ccitt_false [] state = state
crc16_ccitt_false (b ∷ bytes) state = crc16_ccitt_false bytes (crc16_byte state b)

-- One byte of the loop of `crc32`.
unfoldable pub crc32_byte : ℕ → ℕ → ℕ
crc32_byte c b = bit_xor (get_or make_crc32_table (bit_xor c b % 2 ^ 8) 0) (c / 2 ^ 8)

unfoldable pub crc32_loop : List ℕ → ℕ → ℕ
crc32_loop [] c = c
crc32_loop (b ∷ bytes) c = crc32_loop bytes (crc32_byte c b)

unfoldable pub crc32 : List ℕ → ℕ → ℕ
crc32 bytes state = bit_xor (crc32_loop bytes (bit_xor state 0xFFFFFFFF)) 0xFFFFFFFF

-- The defaults of the second arguments.
abbrev pub crc16_init : ℕ
crc16_init = 0xFFFF

abbrev pub crc32_init : ℕ
crc32_init = 0
