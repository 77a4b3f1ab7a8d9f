-- ===== src/Hms.antt =====
-- include/livox/mid360/hms.hpp: the fields of a health code. The texts of src/hms.cpp are left out.
use livox_mid360_core.Prelude.{ℕ, ◌/◌, ◌%◌, ◌^◌, ◌==◌, not, Bool}

-- `HmsLevel` is its byte.
pub record HmsCode : Type 0 where
  pub abnormal_id : ℕ
  pub level : ℕ
  pub reserved : ℕ
  pub raw : ℕ

abbrev pub is_active : HmsCode → Bool
is_active c = not (c.raw == 0)

unfoldable pub decode_hms : ℕ → HmsCode
decode_hms raw = record {
  abnormal_id = raw / 2 ^ 16 % 2 ^ 16;
  level = raw % 256;
  reserved = raw / 256 % 256;
  raw = raw;
}
