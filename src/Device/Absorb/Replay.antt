-- ===== src/Device/Absorb/Replay.antt =====
-- What the entries of a host setup leave in the setup that is replayed.
use livox_mid360_core.Prelude.{
  ℕ, ◌≡◌, ◌≤◌, refl, Bool, true, false, List, [], ◌∷◌, length, Option, none, some, ok, arith,
}
use livox_mid360_core.Bytes.{read_le, write_le, subspan, copy_to}
use livox_mid360_core.Protocol.Types.{DataType, imu, cartesian32, cartesian16, spherical, KeyValue}
use livox_mid360_core.Protocol.DataPacket.{same_type}
use livox_mid360_core.Keys.{
  KeyError, key_pcl_data_type, key_pattern_mode, key_state_info_host_ip_cfg,
  key_point_cloud_host_ip_cfg, key_imu_host_ip_cfg, key_fov_cfg0, key_fov_cfg1, key_fov_cfg_en,
  key_detect_mode, key_imu_data_en, key_time_filter, key_imu_sensor_cfg,
}
use livox_mid360_core.Keys.Scalars.{
  FovEnable, decode_bool, decode_data_type, decode_enum_u8, decode_scalar, encode_u8, encode_bool,
  encode_fov_enable,
}
use livox_mid360_core.Keys.Values.{
  FovConfig, ImuSensorConfig, encode_fov_config, encode_host_ip_config, encode_imu_sensor_config,
  decode_imu_sensor_config,
}
use livox_mid360_core.Keys.RoundTrip.{
  IsFov, decode_fov_config-encode_fov_config, decode_fov_enable-encode_fov_enable,
}
use livox_mid360_core.Info.{or_default}
use livox_mid360_core.Config.{
  FovSettings, HostSetup, data_type_byte, put_opt, put, fov_key_values, host_setup_key_values,
}
use livox_mid360_core.Device.Absorb.{no_fov, absorb_entry, absorb}
use livox_mid360_core.Device.Absorb.Writes.{Writes, both, wrote, nothing}

abbrev pub Given {ℓ} : {A : Type ℓ} → (A → Type 0) → Option A → Type 0
Given P none = Unit {0}
Given P (some a) = P a

-- The fields of a setup fit what the keys can hold.
pub record IsSetup (s : HostSetup) : Type 0 where
  pub point_format : same_type s.pcl_data_type imu ≡ false
  pub pattern_fits : Given (λ p. p ≤ 2) s.scan_pattern
  pub fov_fits : Given (λ (f : FovSettings). Given IsFov f.fov0 × Given IsFov f.fov1) s.fov
  pub detect_fits : Given (λ m. m ≤ 1) s.detect_mode
  pub imu_fits :
      Given
        (λ (c : ImuSensorConfig). (c.output_rate ≤ 3) × (c.accel_range ≤ 3) × (c.gyro_range ≤ 7))
        s.imu_sensor_config

abbrev pub newer {ℓ} : {A : Type ℓ} → Option A → Option A → Option A
newer old none = old
newer old (some a) = some a

abbrev pub with_fov0 : Option FovSettings → Option FovConfig → Option FovSettings
with_fov0 f none = f
with_fov0 f (some w) = some (record (or_default no_fov f) { fov0 = some w })

abbrev pub with_fov1 : Option FovSettings → Option FovConfig → Option FovSettings
with_fov1 f none = f
with_fov1 f (some w) = some (record (or_default no_fov f) { fov1 = some w })

abbrev pub with_enable : Option FovSettings → Option FovEnable → Option FovSettings
with_enable f none = f
with_enable f (some e) = some (record (or_default no_fov f) { enable = some e })

abbrev pub newer_fov : Option FovSettings → Option FovSettings → Option FovSettings
newer_fov old none = old
newer_fov old (some f) = with_enable (with_fov1 (with_fov0 old f.fov0) f.fov1) f.enable

-- The old setup, with what the new one gives; address, ports, mode and timeout are not keys of it.
abbrev pub overlay : HostSetup → HostSetup → HostSetup
overlay old s = record old {
  pcl_data_type = s.pcl_data_type;
  imu_enable = s.imu_enable;
  scan_pattern = newer old.scan_pattern s.scan_pattern;
  fov = newer_fov old.fov s.fov;
  detect_mode = newer old.detect_mode s.detect_mode;
  time_filter = newer old.time_filter s.time_filter;
  imu_sensor_config = newer old.imu_sensor_config s.imu_sensor_config;
}

host_entry :
    (ip : List ℕ) (dst src : ℕ)
    → length ip ≡ 4
    → (out : List ℕ) × (encode_host_ip_config {E = KeyError}
          (record { ip = ip; dst_port = dst; src_port = src })
        ≡ ok out)
unfolding encode_host_ip_config write_le copy_to
host_entry (a ∷ b ∷ c ∷ d ∷ []) dst src h = (_, refl)
host_entry [] dst src h = absurd (omega arith)
host_entry (a ∷ []) dst src h = absurd (omega arith)
host_entry (a ∷ b ∷ []) dst src h = absurd (omega arith)
host_entry (a ∷ b ∷ c ∷ []) dst src h = absurd (omega arith)
host_entry (a ∷ b ∷ c ∷ d ∷ e ∷ r) dst src h = absurd (omega arith)

-- One stage for each key.
module _ (old : HostSetup) where
  host_stage :
      (k : ℕ) (ip : List ℕ) (dst src : ℕ)
      → length ip ≡ 4
      → ((out : List ℕ) → absorb_entry old k out ≡ ok old)
      → Writes
          (put k encode_host_ip_config (record { ip = ip; dst_port = dst; src_port = src }))
          old
          old
  host_stage k ip dst src h other =
      let (out, e) = host_entry ip dst src h in wrote k encode_host_ip_config _ out e (other out)

  format_stage :
      (t : DataType)
      → same_type t imu ≡ false
      → Writes
          (put key_pcl_data_type (λ t. ok (encode_u8 (data_type_byte t))) t)
          old
          (record old { pcl_data_type = t })
  unfolding absorb_entry decode_data_type decode_enum_u8 decode_scalar encode_u8 read_le subspan
  format_stage imu h = cc
  format_stage cartesian32 h =
      wrote key_pcl_data_type (λ t. ok (encode_u8 (data_type_byte t))) cartesian32 (1 ∷ []) refl
        refl
  format_stage cartesian16 h =
      wrote key_pcl_data_type (λ t. ok (encode_u8 (data_type_byte t))) cartesian16 (2 ∷ []) refl
        refl
  format_stage spherical h =
      wrote key_pcl_data_type (λ t. ok (encode_u8 (data_type_byte t))) spherical (3 ∷ []) refl refl

  imu_stage :
      (b : Bool)
      → Writes (put key_imu_data_en (λ b. ok (encode_bool b)) b) old (record old { imu_enable = b })
  unfolding absorb_entry decode_bool decode_enum_u8 decode_scalar encode_bool encode_u8 read_le
      subspan
  imu_stage true = wrote key_imu_data_en (λ b. ok (encode_bool b)) true (1 ∷ []) refl refl
  imu_stage false = wrote key_imu_data_en (λ b. ok (encode_bool b)) false (0 ∷ []) refl refl

  filter_stage :
      (b : Option Bool)
      → Writes
          (put_opt key_time_filter (λ b. ok (encode_bool b)) b)
          old
          (record old { time_filter = newer old.time_filter b })
  unfolding absorb_entry decode_bool decode_enum_u8 decode_scalar encode_bool encode_u8 read_le
      subspan
  filter_stage none = nothing old
  filter_stage (some true) = wrote key_time_filter (λ b. ok (encode_bool b)) true (1 ∷ []) refl refl
  filter_stage (some false) =
      wrote key_time_filter (λ b. ok (encode_bool b)) false (0 ∷ []) refl refl

  pattern_stage :
      (p : Option ℕ)
      → Given (λ p. p ≤ 2) p
      → Writes
          (put_opt key_pattern_mode (λ p. ok (encode_u8 p)) p)
          old
          (record old { scan_pattern = newer old.scan_pattern p })
  unfolding absorb_entry decode_enum_u8 decode_scalar encode_u8 read_le subspan
  pattern_stage none h = nothing old
  pattern_stage (some p) h =
      wrote key_pattern_mode (λ p. ok (encode_u8 p)) p (p ∷ []) refl (ground arith)

  detect_stage :
      (m : Option ℕ)
      → Given (λ m. m ≤ 1) m
      → Writes
          (put_opt key_detect_mode (λ m. ok (encode_u8 m)) m)
          old
          (record old { detect_mode = newer old.detect_mode m })
  unfolding absorb_entry decode_enum_u8 decode_scalar encode_u8 read_le subspan
  detect_stage none h = nothing old
  detect_stage (some m) h =
      wrote key_detect_mode (λ m. ok (encode_u8 m)) m (m ∷ []) refl (ground arith)

  sensor_stage :
      (c : Option ImuSensorConfig)
      → Given
          (λ (c : ImuSensorConfig). (c.output_rate ≤ 3) × (c.accel_range ≤ 3) × (c.gyro_range ≤ 7))
          c
      → Writes
          (put_opt key_imu_sensor_cfg (λ c. ok (encode_imu_sensor_config c)) c)
          old
          (record old { imu_sensor_config = newer old.imu_sensor_config c })
  unfolding absorb_entry decode_imu_sensor_config encode_imu_sensor_config read_le subspan
  sensor_stage none h = nothing old
  sensor_stage (some c) h =
      wrote key_imu_sensor_cfg (λ c. ok (encode_imu_sensor_config c)) c _ refl (ground arith)

  fov0_stage :
      (f : Option FovConfig)
      → Given IsFov f
      → Writes
          (put_opt key_fov_cfg0 encode_fov_config f)
          old
          (record old { fov = with_fov0 old.fov f })
  unfolding absorb_entry
  fov0_stage none h = nothing old
  fov0_stage (some w) h =
      let (out, e, x, y, back) = decode_fov_config-encode_fov_config w h in
      wrote key_fov_cfg0 encode_fov_config w out e (rw back)

  fov1_stage :
      (f : Option FovConfig)
      → Given IsFov f
      → Writes
          (put_opt key_fov_cfg1 encode_fov_config f)
          old
          (record old { fov = with_fov1 old.fov f })
  unfolding absorb_entry
  fov1_stage none h = nothing old
  fov1_stage (some w) h =
      let (out, e, x, y, back) = decode_fov_config-encode_fov_config w h in
      wrote key_fov_cfg1 encode_fov_config w out e (rw back)

  enable_stage :
      (e : Option FovEnable)
      → Writes
          (put_opt key_fov_cfg_en (λ e. ok (encode_fov_enable e)) e)
          old
          (record old { fov = with_enable old.fov e })
  unfolding absorb_entry
  enable_stage none = nothing old
  enable_stage (some e) =
      wrote key_fov_cfg_en (λ e. ok (encode_fov_enable e)) e (encode_fov_enable e) refl
        (rw (decode_fov_enable-encode_fov_enable e))

fov_stage :
    (old : HostSetup) (f : Option FovSettings)
    → Given (λ (f : FovSettings). Given IsFov f.fov0 × Given IsFov f.fov1) f
    → Writes (fov_key_values f) old (record old { fov = newer_fov old.fov f })
unfolding fov_key_values
fov_stage old none h = nothing old
fov_stage old (some f) (h, k) =
    both _ _ (fov0_stage old f.fov0 h) (both _ _ (fov1_stage _ f.fov1 k) (enable_stage _ f.enable))

-- The entries of a setup whose fields fit are written without a fault to any four-byte address; when
-- they are absorbed, the setup to replay has all that they give, a window or enable on its own
-- included, and keeps the rest.
pub absorb-host_setup_key_values :
    (old s : HostSetup) (ip : List ℕ)
    → length ip ≡ 4
    → IsSetup s
    → (kvs : List KeyValue) × (host_setup_key_values {E = KeyError} s ip ≡ ok kvs)
      × (absorb old kvs ≡ ok (overlay old s))
unfolding host_setup_key_values absorb_entry
absorb-host_setup_key_values old s ip h v =
    let w = both _ _ (host_stage old key_state_info_host_ip_cfg ip s.push_port _ h (λ out. refl)) (
      both _ _ (host_stage old key_point_cloud_host_ip_cfg ip s.point_port _ h (λ out. refl)) (
        both _ _ (host_stage old key_imu_host_ip_cfg ip s.imu_port _ h (λ out. refl)) (
          both _ _ (format_stage old s.pcl_data_type v.point_format) (
            both _ _ (imu_stage _ s.imu_enable) (
              both _ _ (pattern_stage _ s.scan_pattern v.pattern_fits) (
                both _ _ (fov_stage _ s.fov v.fov_fits) (
                  both _ _ (detect_stage _ s.detect_mode v.detect_fits) (
                    both _ _ (filter_stage _ s.time_filter)
                      (sensor_stage _ s.imu_sensor_config v.imu_fits))))))))) in
    (w.entries, w.written, w.absorbed)
