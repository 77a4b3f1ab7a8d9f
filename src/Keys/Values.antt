-- ===== src/Keys/Values.antt =====
-- Values of several fields. An array of bytes is the list of its bytes.
use livox_mid360_core.Prelude.{
  ℕ, zero, suc, ◌+◌, ◌-◌, ◌*◌, ◌^◌, ◌==◌, ◌||◌, ◌&&◌, ltb, leb, not, Bool, List, [], ◌∷◌, length,
  replicate, Result, ok, ◌>>=◌, ◌>>◌, fail_if,
}
use livox_mid360_core.Prelude.Int.{ℤ, pos, negsuc, ltb_ℤ}
use livox_mid360_core.Bytes.{read_le, write_le, copy_to, subspan}
use livox_mid360_core.Protocol.DataPacket.{to_signed}
use livox_mid360_core.Keys.{KeyError, wrong_length, out_of_range}

pub record HostIpConfig : Type 0 where
  pub ip : List ℕ
  pub dst_port : ℕ
  pub src_port : ℕ

pub record LidarIpConfig : Type 0 where
  pub ip : List ℕ
  pub netmask : List ℕ
  pub gateway : List ℕ

-- Each `float` is its 32 bits.
pub record InstallAttitude : Type 0 where
  pub roll_deg : ℕ
  pub pitch_deg : ℕ
  pub yaw_deg : ℕ
  pub x_mm : ℤ
  pub y_mm : ℤ
  pub z_mm : ℤ

pub record FovConfig : Type 0 where
  pub yaw_start_deg : ℤ
  pub yaw_stop_deg : ℤ
  pub pitch_start_deg : ℤ
  pub pitch_stop_deg : ℤ
  pub rsvd : ℕ

pub record FuncIoConfig : Type 0 where
  pub in0 : ℕ
  pub in1 : ℕ
  pub out0 : ℕ
  pub out1 : ℕ

pub record ImuSensorConfig : Type 0 where
  pub output_rate : ℕ
  pub accel_range : ℕ
  pub gyro_range : ℕ

-- The bits of an `int32_t`.
abbrev pub of_signed : ℤ → ℕ
of_signed (pos n) = n
of_signed (negsuc n) = 2 ^ 32 - n - 1

unfoldable pub func_io_config_valid : FuncIoConfig → Bool
func_io_config_valid c = c.in0 == 0 && c.in1 == 0 && leb c.out0 2 && leb c.out1 2

-- `v >= low && v <= high`.
abbrev pub within : ℤ → ℤ → ℤ → Bool
within low high v = not (ltb_ℤ v low) && not (ltb_ℤ high v)

unfoldable pub fov_in_range : FovConfig → Bool
fov_in_range f =
    within (pos 0) (pos 360) f.yaw_start_deg
    && within (pos 0) (pos 360) f.yaw_stop_deg
    && within (negsuc 9) (pos 60) f.pitch_start_deg
    && within (negsuc 9) (pos 60) f.pitch_stop_deg
    && not (ltb_ℤ f.yaw_stop_deg f.yaw_start_deg)
    && not (ltb_ℤ f.pitch_stop_deg f.pitch_start_deg)

unfoldable pub encode_host_ip_config : {E : Type 0} → HostIpConfig → Result E (List ℕ)
encode_host_ip_config c = do
  o ← copy_to (replicate 8 0) 0 c.ip
  o ← write_le 2 o 4 c.dst_port
  write_le 2 o 6 c.src_port

unfoldable pub encode_lidar_ip_config : {E : Type 0} → LidarIpConfig → Result E (List ℕ)
encode_lidar_ip_config c = do
  o ← copy_to (replicate 12 0) 0 c.ip
  o ← copy_to o 4 c.netmask
  copy_to o 8 c.gateway

unfoldable pub encode_install_attitude : {E : Type 0} → InstallAttitude → Result E (List ℕ)
encode_install_attitude a = do
  o ← write_le 4 (replicate 24 0) 0 a.roll_deg
  o ← write_le 4 o 4 a.pitch_deg
  o ← write_le 4 o 8 a.yaw_deg
  o ← write_le 4 o 12 (of_signed a.x_mm)
  o ← write_le 4 o 16 (of_signed a.y_mm)
  write_le 4 o 20 (of_signed a.z_mm)

unfoldable pub encode_fov_config : {E : Type 0} → FovConfig → Result E (List ℕ)
encode_fov_config f = do
  o ← write_le 4 (replicate 20 0) 0 (of_signed f.yaw_start_deg)
  o ← write_le 4 o 4 (of_signed f.yaw_stop_deg)
  o ← write_le 4 o 8 (of_signed f.pitch_start_deg)
  o ← write_le 4 o 12 (of_signed f.pitch_stop_deg)
  write_le 4 o 16 f.rsvd

unfoldable pub encode_func_io_config : FuncIoConfig → List ℕ
encode_func_io_config c = c.in0 ∷ c.in1 ∷ c.out0 ∷ c.out1 ∷ []

unfoldable pub encode_imu_sensor_config : ImuSensorConfig → List ℕ
encode_imu_sensor_config c = c.output_rate ∷ c.accel_range ∷ c.gyro_range ∷ []

unfoldable pub decode_host_ip_config : List ℕ → Result KeyError HostIpConfig
decode_host_ip_config v = do
  fail_if (not (length v == 8)) wrong_length
  ip ← subspan v 0 4
  dst_port ← read_le 2 v 4
  src_port ← read_le 2 v 6
  ok (record { ip = ip; dst_port = dst_port; src_port = src_port })

unfoldable pub decode_lidar_ip_config : List ℕ → Result KeyError LidarIpConfig
decode_lidar_ip_config v = do
  fail_if (not (length v == 12)) wrong_length
  ip ← subspan v 0 4
  netmask ← subspan v 4 4
  gateway ← subspan v 8 4
  ok (record { ip = ip; netmask = netmask; gateway = gateway })

unfoldable pub decode_install_attitude : List ℕ → Result KeyError InstallAttitude
decode_install_attitude v = do
  fail_if (not (length v == 24)) wrong_length
  roll_deg ← read_le 4 v 0
  pitch_deg ← read_le 4 v 4
  yaw_deg ← read_le 4 v 8
  x_mm ← read_le 4 v 12
  y_mm ← read_le 4 v 16
  z_mm ← read_le 4 v 20
  ok (record {
    roll_deg = roll_deg;
    pitch_deg = pitch_deg;
    yaw_deg = yaw_deg;
    x_mm = to_signed 4 x_mm;
    y_mm = to_signed 4 y_mm;
    z_mm = to_signed 4 z_mm;
  })

unfoldable pub decode_fov_config : List ℕ → Result KeyError FovConfig
decode_fov_config v = do
  fail_if (not (length v == 20)) wrong_length
  yaw_start_deg ← read_le 4 v 0
  yaw_stop_deg ← read_le 4 v 4
  pitch_start_deg ← read_le 4 v 8
  pitch_stop_deg ← read_le 4 v 12
  rsvd ← read_le 4 v 16
  ok (record {
    yaw_start_deg = to_signed 4 yaw_start_deg;
    yaw_stop_deg = to_signed 4 yaw_stop_deg;
    pitch_start_deg = to_signed 4 pitch_start_deg;
    pitch_stop_deg = to_signed 4 pitch_stop_deg;
    rsvd = rsvd;
  })

unfoldable pub decode_func_io_config : List ℕ → Result KeyError FuncIoConfig
decode_func_io_config v = do
  fail_if (not (length v == 4)) wrong_length
  in0 ← read_le 1 v 0
  in1 ← read_le 1 v 1
  out0 ← read_le 1 v 2
  out1 ← read_le 1 v 3
  let c : FuncIoConfig = record { in0 = in0; in1 = in1; out0 = out0; out1 = out1 }
  fail_if (not (func_io_config_valid c)) out_of_range
  ok c

unfoldable pub decode_imu_sensor_config : List ℕ → Result KeyError ImuSensorConfig
decode_imu_sensor_config v = do
  fail_if (not (length v == 3)) wrong_length
  r ← read_le 1 v 0
  a ← read_le 1 v 1
  g ← read_le 1 v 2
  fail_if (ltb 3 r || ltb 3 a || ltb 7 g) out_of_range
  ok (record { output_rate = r; accel_range = a; gyro_range = g })

-- `decode_version`, and `decode_mac`.
unfoldable pub decode_version : List ℕ → Result KeyError (List ℕ)
decode_version v = do fail_if (not (length v == 4)) wrong_length; subspan v 0 4

unfoldable pub decode_mac : List ℕ → Result KeyError (List ℕ)
decode_mac v = do fail_if (not (length v == 6)) wrong_length; subspan v 0 6

-- The loop of `decode_hms_codes` from slot `i` on, with the slots left.
unfoldable pub read_codes : ℕ → List ℕ → ℕ → Result KeyError (List ℕ)
read_codes zero v i = ok []
read_codes (suc n) v i = do
  code ← read_le 4 v (4 * i)
  codes ← read_codes n v (i + 1)
  ok (code ∷ codes)

unfoldable pub decode_hms_codes : List ℕ → Result KeyError (List ℕ)
decode_hms_codes v = do fail_if (not (length v == 32)) wrong_length; read_codes 8 v 0
