-- ===== src/Crc/Continue.antt =====
-- A checksum continued from the result of an earlier part.
use livox_mid360_core.Prelude.{ℕ, ◌≡◌, refl, ap, ◌∙◌, sym, bit_xor, List, [], ◌∷◌, ◌++◌}
use livox_mid360_core.Prelude.Bits.{bit_xor_cancel}
use livox_mid360_core.Crc.{crc16_byte, crc16_ccitt_false, crc32_byte, crc32_loop, crc32}

crc32_loop-append :
    (xs ys : List ℕ) (c : ℕ) → crc32_loop (xs ++ ys) c ≡ crc32_loop ys (crc32_loop xs c)
unfolding crc32_loop
crc32_loop-append [] ys c = refl
crc32_loop-append (x ∷ xs) ys c = crc32_loop-append xs ys (crc32_byte c x)

crc32-append : (xs ys : List ℕ) (s : ℕ) → crc32 (xs ++ ys) s ≡ crc32 ys (crc32 xs s)
unfolding crc32
crc32-append xs ys s =
    let mask : ℕ = 0xFFFFFFFF in
    let first = crc32_loop xs (bit_xor s mask) in
    ap (λ c. bit_xor c mask)
      (crc32_loop-append xs ys (bit_xor s mask)
        ∙ ap (crc32_loop ys) (sym (bit_xor_cancel first mask)))

crc16-append :
    (xs ys : List ℕ) (t : ℕ)
    → crc16_ccitt_false (xs ++ ys) t ≡ crc16_ccitt_false ys (crc16_ccitt_false xs t)
unfolding crc16_ccitt_false
crc16-append [] ys t = refl
crc16-append (x ∷ xs) ys t = crc16-append xs ys (crc16_byte t x)

-- The CRC-32 of two parts is the CRC-32 of the second, continued from the final result of the
-- first; so is the CRC-16.
pub crc-append :
    (xs ys : List ℕ) (s t : ℕ)
    → (crc32 (xs ++ ys) s ≡ crc32 ys (crc32 xs s))
      × (crc16_ccitt_false (xs ++ ys) t ≡ crc16_ccitt_false ys (crc16_ccitt_false xs t))
crc-append xs ys s t = (crc32-append xs ys s, crc16-append xs ys t)
