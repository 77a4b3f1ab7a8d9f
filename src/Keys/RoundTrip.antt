-- ===== src/Keys/RoundTrip.antt =====
-- Values that are encoded decode to themselves, and have the length that the key has.
use livox_mid360_core.Prelude.{
  true, ltb, ℕ, ◌-◌, ◌^◌, ◌<◌, ◌≡◌, refl, ap, ◌∙◌, ltb, false, if◌then◌else◌, some, List, ◌++◌,
  length, Result, ok, arith,
}
use livox_mid360_core.Prelude.Int.{ℤ, pos, negsuc}
use livox_mid360_core.Bytes.{read_le, write_le, copy_to, subspan, le_bytes, le_value}
use livox_mid360_core.Bytes.Laws.{le_value-le_bytes}
use livox_mid360_core.Protocol.DataPacket.{to_signed}
use livox_mid360_core.Keys.{
  KeyError, key_value_length, key_fov_cfg0, key_fov_cfg1, key_install_attitude, key_func_io_cfg,
}
use livox_mid360_core.Keys.Scalars.{
  FovEnable, encode_fov_enable, decode_fov_enable, decode_scalar, encode_u8,
}
use livox_mid360_core.Keys.Values.{
  InstallAttitude, FovConfig, FuncIoConfig, of_signed, func_io_config_valid, fov_in_range, within,
  encode_install_attitude, encode_fov_config, encode_func_io_config, decode_install_attitude,
  decode_fov_config, decode_func_io_config,
}

-- The range of an `int32_t`.
abbrev pub IsInt32 : ℤ → Type 0
IsInt32 (pos n) = n < 2 ^ 31
IsInt32 (negsuc n) = n < 2 ^ 31

of_signed-lt : (v : ℤ) → IsInt32 v → of_signed v < 256 ^ 4
of_signed-lt (pos n) h = omega arith
of_signed-lt (negsuc n) h = omega arith

to_signed-of_signed : (v : ℤ) → IsInt32 v → to_signed 4 (of_signed v) ≡ v
to_signed-of_signed (pos n) h = ground arith
to_signed-of_signed (negsuc n) h =
    let e : 2 ^ 32 - (2 ^ 32 - n - 1) - 1 ≡ n = omega arith in
    let high : ltb (2 ^ 32 - n - 1) (2 ^ 31) ≡ false = ground arith in rw (high, e)

-- A signed number through its bytes.
through : (v : ℤ) → IsInt32 v → to_signed 4 (le_value (le_bytes 4 (of_signed v))) ≡ v
through v h =
    ap (to_signed 4) (le_value-le_bytes 4 (of_signed v) (of_signed-lt v h))
    ∙ to_signed-of_signed v h

abbrev pub IsFov : FovConfig → Type 0
IsFov f =
    IsInt32 f.yaw_start_deg
    × IsInt32 f.yaw_stop_deg
    × IsInt32 f.pitch_start_deg
    × IsInt32 f.pitch_stop_deg
    × (f.rsvd < 2 ^ 32)

-- A field-of-view window whose fields fit their types is written without a fault, in the length that
-- both window keys have, and decodes to itself, negative angles included.
pub decode_fov_config-encode_fov_config :
    (f : FovConfig)
    → IsFov f
    → (out : List ℕ) × (encode_fov_config {E = KeyError} f ≡ ok out)
      × (key_value_length key_fov_cfg0 ≡ some (length out))
      × (key_value_length key_fov_cfg1 ≡ some (length out))
      × (decode_fov_config out ≡ ok f)
unfolding encode_fov_config decode_fov_config write_le copy_to read_le subspan key_value_length
decode_fov_config-encode_fov_config f (a, b, c, d, e) = (
  le_bytes 4 (of_signed f.yaw_start_deg)
      ++ (le_bytes 4 (of_signed f.yaw_stop_deg)
          ++ (le_bytes 4 (of_signed f.pitch_start_deg)
              ++ (le_bytes 4 (of_signed f.pitch_stop_deg) ++ le_bytes 4 f.rsvd))),
  refl,
  refl,
  refl,
  rw (
    through f.yaw_start_deg a,
    through f.yaw_stop_deg b,
    through f.pitch_start_deg c,
    through f.pitch_stop_deg d,
    le_value-le_bytes 4 f.rsvd e,
  ),
)

within-IsInt32 :
    (low high : ℕ) (v : ℤ)
    → low < 2 ^ 31
    → high < 2 ^ 31
    → within (negsuc low) (pos high) v ≡ true
    → IsInt32 v
within-IsInt32 low high (pos n) l h e = ground arith
within-IsInt32 low high (negsuc n) l h e = ground arith

from_zero-IsInt32 :
    (high : ℕ) (v : ℤ) → high < 2 ^ 31 → within (pos 0) (pos high) v ≡ true → IsInt32 v
from_zero-IsInt32 high (pos n) h e = ground arith
from_zero-IsInt32 high (negsuc n) h e = ground arith

-- Every window that `fov_in_range` accepts, with a reserved field of 32 bits, survives the wire.
pub decode_fov_config-fov_in_range :
    (f : FovConfig)
    → fov_in_range f ≡ true
    → f.rsvd < 2 ^ 32
    → (out : List ℕ) × (encode_fov_config {E = KeyError} f ≡ ok out)
      × (decode_fov_config out ≡ ok f)
unfolding fov_in_range
decode_fov_config-fov_in_range f range small =
    let fits : IsFov f = (
      from_zero-IsInt32 360 f.yaw_start_deg (omega arith) (ground arith),
      from_zero-IsInt32 360 f.yaw_stop_deg (omega arith) (ground arith),
      within-IsInt32 9 60 f.pitch_start_deg (omega arith) (omega arith) (ground arith),
      within-IsInt32 9 60 f.pitch_stop_deg (omega arith) (omega arith) (ground arith),
      small,
    ) in
    let (out, e, first, second, back) = decode_fov_config-encode_fov_config f fits in (out, e, back)

abbrev pub IsAttitude : InstallAttitude → Type 0
IsAttitude a =
    (a.roll_deg < 2 ^ 32)
    × (a.pitch_deg < 2 ^ 32)
    × (a.yaw_deg < 2 ^ 32)
    × IsInt32 a.x_mm
    × IsInt32 a.y_mm
    × IsInt32 a.z_mm

-- An install attitude whose fields fit their types is written without a fault, in the length of its
-- key, and decodes to itself, the bits of its angles included.
pub decode_install_attitude-encode_install_attitude :
    (a : InstallAttitude)
    → IsAttitude a
    → (out : List ℕ) × (encode_install_attitude {E = KeyError} a ≡ ok out)
      × (key_value_length key_install_attitude ≡ some (length out))
      × (decode_install_attitude out ≡ ok a)
unfolding encode_install_attitude decode_install_attitude write_le copy_to read_le subspan
    key_value_length
decode_install_attitude-encode_install_attitude a (r, p, y, x', y', z') = (
  le_bytes 4 a.roll_deg
      ++ (le_bytes 4 a.pitch_deg
          ++ (le_bytes 4 a.yaw_deg
              ++ (le_bytes 4 (of_signed a.x_mm)
                  ++ (le_bytes 4 (of_signed a.y_mm) ++ le_bytes 4 (of_signed a.z_mm))))),
  refl,
  refl,
  rw (
    le_value-le_bytes 4 a.roll_deg r,
    le_value-le_bytes 4 a.pitch_deg p,
    le_value-le_bytes 4 a.yaw_deg y,
    through a.x_mm x',
    through a.y_mm y',
    through a.z_mm z',
  ),
)

-- Every configuration of the function pins that `func_io_config_valid` allows is encoded in the
-- length of its key and decodes to itself; every other one is refused as out of range.
pub decode_func_io_config-encode_func_io_config :
    (c : FuncIoConfig)
    → (key_value_length key_func_io_cfg ≡ some (length (encode_func_io_config c)))
      × (decode_func_io_config (encode_func_io_config c)
          ≡ (if func_io_config_valid c then ok c else Result.err KeyError.out_of_range))
unfolding encode_func_io_config decode_func_io_config read_le subspan key_value_length
    func_io_config_valid
decode_func_io_config-encode_func_io_config c = (refl, ground arith)

-- The window enables are encoded in one byte that decodes to them.
pub decode_fov_enable-encode_fov_enable :
    (e : FovEnable) → decode_fov_enable (encode_fov_enable e) ≡ ok e
unfolding encode_fov_enable decode_fov_enable decode_scalar encode_u8 read_le subspan
decode_fov_enable-encode_fov_enable e = ground arith
