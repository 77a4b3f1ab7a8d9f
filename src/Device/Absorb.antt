-- ===== src/Device/Absorb.antt =====
-- src/device.cpp, `absorb`: the keys that a write changed, folded into the setup that is replayed.
pub mod Replay
pub mod Writes
use livox_mid360_core.Prelude.{
  ℕ, ◌==◌, if◌then◌else◌, List, [], ◌∷◌, Option, none, some, Result, ok, err, fault, ◌>>=◌,
}
use livox_mid360_core.Protocol.Types.{KeyValue}
use livox_mid360_core.Keys.{
  KeyError, key_pcl_data_type, key_pattern_mode, key_fov_cfg0, key_fov_cfg1, key_fov_cfg_en,
  key_detect_mode, key_imu_data_en, key_time_filter, key_imu_sensor_cfg,
}
use livox_mid360_core.Keys.Scalars.{
  decode_bool, decode_data_type, decode_scan_pattern, decode_detect_mode, decode_fov_enable,
}
use livox_mid360_core.Keys.Values.{decode_fov_config, decode_imu_sensor_config}
use livox_mid360_core.Info.{or_default}
use livox_mid360_core.Config.{FovSettings, HostSetup}

abbrev pub no_fov : FovSettings
no_fov = record { fov0 = none; fov1 = none; enable = none }

-- `if (const auto v = decode(...)) { ... }`.
abbrev pub keep_if {ℓ} :
    {A : Type ℓ} → HostSetup → Result KeyError A → (A → HostSetup) → Result KeyError HostSetup
keep_if setup (ok v) f = ok (f v)
keep_if setup (err e) f = ok setup
keep_if setup fault f = fault

-- One round of the loop.
unfoldable pub absorb_entry : HostSetup → ℕ → List ℕ → Result KeyError HostSetup
absorb_entry setup key value =
    if key == key_pcl_data_type
    then keep_if setup (decode_data_type value) (λ v. record setup { pcl_data_type = v })
    else if key == key_pattern_mode
    then keep_if setup (decode_scan_pattern value) (λ v. record setup { scan_pattern = some v })
    else if key == key_fov_cfg0
    then keep_if setup (decode_fov_config value)
        (λ v. record setup { fov = some (record (or_default no_fov setup.fov) { fov0 = some v }) })
    else if key == key_fov_cfg1
    then keep_if setup (decode_fov_config value)
        (λ v. record setup { fov = some (record (or_default no_fov setup.fov) { fov1 = some v }) })
    else if key == key_fov_cfg_en
    then keep_if setup (decode_fov_enable value) (λ v. record setup {
      fov = some (record (or_default no_fov setup.fov) { enable = some v });
    })
    else if key == key_imu_data_en
    then keep_if setup (decode_bool value) (λ v. record setup { imu_enable = v })
    else if key == key_detect_mode
    then keep_if setup (decode_detect_mode value) (λ v. record setup { detect_mode = some v })
    else if key == key_time_filter
    then keep_if setup (decode_bool value) (λ v. record setup { time_filter = some v })
    else if key == key_imu_sensor_cfg
    then keep_if setup (decode_imu_sensor_config value)
        (λ v. record setup { imu_sensor_config = some v })
    else ok setup

unfoldable pub absorb : HostSetup → List KeyValue → Result KeyError HostSetup
unfolding absorb_entry
absorb setup [] = ok setup
absorb setup (kv ∷ kvs) = do setup' ← absorb_entry setup kv.key kv.value; absorb setup' kvs
