-- ===== src/Keys/Scalars.antt =====
-- Values of one number: `decode_scalar` and what stands on it.
use livox_mid360_core.Prelude.{
  ℕ, ◌/◌, ◌%◌, ◌^◌, ◌==◌, ltb, not, Bool, if◌then◌else◌, List, [], ◌∷◌, length, Result, ok, ◌>>=◌,
  ◌>>◌, fail_if, bit_or,
}
use livox_mid360_core.Prelude.Int.{ℤ}
use livox_mid360_core.Bytes.{read_le}
use livox_mid360_core.Protocol.Types.{DataType, imu}
use livox_mid360_core.Protocol.DataPacket.{to_signed, to_data_type, same_type}
use livox_mid360_core.Protocol.Acks.{until_nul}
use livox_mid360_core.Keys.{KeyError, wrong_length, out_of_range, one_of}

-- `decode_scalar<T>` for an unsigned `T` of `w` bytes.
unfoldable pub decode_scalar : ℕ → List ℕ → Result KeyError ℕ
decode_scalar w v = do fail_if (not (length v == w)) wrong_length; read_le w v 0

abbrev pub decode_u8 : List ℕ → Result KeyError ℕ
decode_u8 v = decode_scalar 1 v

abbrev pub decode_u16 : List ℕ → Result KeyError ℕ
decode_u16 v = decode_scalar 2 v

abbrev pub decode_u32 : List ℕ → Result KeyError ℕ
decode_u32 v = decode_scalar 4 v

abbrev pub decode_u64 : List ℕ → Result KeyError ℕ
decode_u64 v = decode_scalar 8 v

unfoldable pub decode_i32 : List ℕ → Result KeyError ℤ
decode_i32 v = do n ← decode_scalar 4 v; ok (to_signed 4 n)

unfoldable pub decode_i64 : List ℕ → Result KeyError ℤ
decode_i64 v = do n ← decode_scalar 8 v; ok (to_signed 8 n)

unfoldable pub encode_u8 : ℕ → List ℕ
encode_u8 v = v ∷ []

unfoldable pub encode_bool : Bool → List ℕ
encode_bool v = encode_u8 (if v then 1 else 0)

-- An enumeration is its byte.
unfoldable pub decode_enum_u8 : List ℕ → ℕ → Result KeyError ℕ
decode_enum_u8 v most = do u ← decode_u8 v; fail_if (ltb most u) out_of_range; ok u

unfoldable pub decode_bool : List ℕ → Result KeyError Bool
decode_bool v = do u ← decode_enum_u8 v 1; ok (not (u == 0))

unfoldable pub decode_data_type : List ℕ → Result KeyError DataType
decode_data_type v = do
  d ← decode_enum_u8 v 3
  fail_if (same_type (to_data_type d) imu) out_of_range
  ok (to_data_type d)

abbrev pub decode_scan_pattern : List ℕ → Result KeyError ℕ
decode_scan_pattern v = decode_enum_u8 v 2

abbrev pub decode_detect_mode : List ℕ → Result KeyError ℕ
decode_detect_mode v = decode_enum_u8 v 1

abbrev pub decode_time_sync_type : List ℕ → Result KeyError ℕ
decode_time_sync_type v = decode_enum_u8 v 2

abbrev pub decode_fw_type : List ℕ → Result KeyError ℕ
decode_fw_type v = decode_enum_u8 v 1

unfoldable pub decode_work_state : List ℕ → Result KeyError ℕ
decode_work_state v = do
  u ← decode_u8 v
  fail_if (not (one_of u (0x01 ∷ 0x02 ∷ 0x04 ∷ 0x05 ∷ 0x06 ∷ 0x08 ∷ 0x09 ∷ []))) out_of_range
  ok u

pub record FovEnable : Type 0 where
  pub fov0 : Bool
  pub fov1 : Bool

unfoldable pub encode_fov_enable : FovEnable → List ℕ
encode_fov_enable e = encode_u8 (bit_or (if e.fov0 then 1 else 0) (if e.fov1 then 2 else 0))

unfoldable pub decode_fov_enable : List ℕ → Result KeyError FovEnable
decode_fov_enable v = do
  u ← decode_u8 v
  fail_if (not (u / 4 == 0)) out_of_range
  ok (record { fov0 = not (u % 2 == 0); fov1 = not (u / 2 % 2 == 0) })

-- A `DiagLevel` is its number.
pub record DiagStatus : Type 0 where
  pub system : ℕ
  pub scan : ℕ
  pub ranging : ℕ
  pub communication : ℕ

abbrev pub nibble : ℕ → ℕ → ℕ
nibble raw shift = raw / 2 ^ shift % 16

unfoldable pub decode_diag_status : List ℕ → Result KeyError DiagStatus
decode_diag_status v = do
  raw ← decode_u16 v
  fail_if (ltb 3 (nibble raw 0)) out_of_range
  fail_if (ltb 3 (nibble raw 4)) out_of_range
  fail_if (ltb 3 (nibble raw 8)) out_of_range
  fail_if (ltb 3 (nibble raw 12)) out_of_range
  ok (record {
    system = nibble raw 0;
    scan = nibble raw 4;
    ranging = nibble raw 8;
    communication = nibble raw 12;
  })

-- `decode_string`: up to the first NUL.
unfoldable pub decode_string : List ℕ → List ℕ
decode_string v = until_nul v
