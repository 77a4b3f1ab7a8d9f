-- ===== src/Tag.antt =====
-- include/livox/mid360/tag.hpp: the tag byte of a point. A `TagConfidence` is its number.
pub mod Noise
use livox_mid360_core.Prelude.{ℕ, ◌/◌, ◌%◌, ◌^◌, ltb, ◌||◌, Bool}

abbrev pub confidence_high : ℕ
confidence_high = 0

abbrev pub confidence_reserved : ℕ
confidence_reserved = 3

pub record TagInfo : Type 0 where
  pub adjacent_glue : ℕ
  pub particles : ℕ
  pub other : ℕ
  pub reserved : ℕ

unfoldable pub decode_tag : ℕ → TagInfo
decode_tag tag = record {
  adjacent_glue = tag % 4;
  particles = tag / 2 ^ 2 % 4;
  other = tag / 2 ^ 4 % 4;
  reserved = tag / 2 ^ 6 % 4;
}

unfoldable pub is_noise : ℕ → ℕ → Bool
is_noise tag worst_accepted =
    ltb worst_accepted (decode_tag tag).adjacent_glue
    || ltb worst_accepted (decode_tag tag).particles
