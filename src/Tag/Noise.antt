-- ===== src/Tag/Noise.antt =====
-- The fields of a tag byte, and which points are noise.
use livox_mid360_core.Prelude.{ℕ, ◌+◌, ◌*◌, ◌%◌, ◌^◌, ◌≤◌, ◌<◌, ◌≡◌, ◌↔◌, ◌⊎◌, true, false, arith}
use livox_mid360_core.Tag.{TagInfo, decode_tag, is_noise, confidence_high, confidence_reserved}

-- The byte of four fields.
abbrev pub tag_byte : TagInfo → ℕ
tag_byte t = t.adjacent_glue + 4 * t.particles + 16 * t.other + 64 * t.reserved

-- A tag byte is its four fields of two bits each. A point that is noise under one acceptance is
-- noise under every stricter one; nothing is noise when even `kReserved` is accepted; and by default
-- exactly the points whose lower four bits are all 0 are not noise.
pub decode_tag-is_noise :
    (tag strict loose : ℕ)
    → tag < 2 ^ 8
    → strict ≤ loose
    → (tag_byte (decode_tag tag) ≡ tag)
      × ((is_noise tag loose ≡ false) ⊎ (is_noise tag strict ≡ true))
      × (is_noise tag confidence_reserved ≡ false)
      × ((is_noise tag confidence_high ≡ false) ↔ (tag % 16 ≡ 0))
unfolding decode_tag is_noise
decode_tag-is_noise tag strict loose byte le =
    (omega arith, ground arith, ground arith, (ground arith, ground arith))
