-- ===== src/Info/Total.antt =====
-- The decoders of src/lidar_info.cpp on any list of keys and values, field by field.
use livox_mid360_core.Prelude.{
  [], ℕ, ◌≡◌, refl, List, Option, none, some, Result, ok, err, fault, Safe, replicate,
}
use livox_mid360_core.Protocol.Types.{KeyValue}
use livox_mid360_core.Protocol.Acks.NoFault.{Anything}
use livox_mid360_core.Keys.{
  KeyError, find_key, key_core_temp, key_cur_work_state, key_detect_mode, key_fov_cfg0,
  key_fov_cfg1, key_fov_cfg_en, key_func_io_cfg, key_fw_type, key_hms_code, key_imu_data_en,
  key_imu_host_ip_cfg, key_imu_sensor_cfg, key_install_attitude, key_last_sync_time,
  key_lidar_diag_status, key_lidar_ip_cfg, key_local_time_now, key_mac, key_pattern_mode,
  key_pcl_data_type, key_point_cloud_host_ip_cfg, key_powerup_cnt, key_product_info, key_sn,
  key_state_info_host_ip_cfg, key_time_filter, key_time_offset, key_time_sync_type, key_version_app,
  key_version_hardware, key_version_loader, key_work_tgt_mode,
}
use livox_mid360_core.Keys.Scalars.{
  decode_u32, decode_u64, decode_detect_mode, decode_scan_pattern, decode_time_sync_type,
  decode_fw_type, decode_i32, decode_i64, decode_bool, decode_data_type, decode_work_state,
  decode_fov_enable, decode_diag_status,
}
use livox_mid360_core.Keys.Values.{
  decode_host_ip_config, decode_lidar_ip_config, decode_install_attitude, decode_fov_config,
  decode_func_io_config, decode_imu_sensor_config, decode_version, decode_mac,
}
use livox_mid360_core.Info.Values.{
  IsTotal, decode_scalar-IsTotal, decode_work_state-IsTotal, decode_enum_u8-IsTotal,
  decode_bool-IsTotal, decode_data_type-IsTotal, decode_i32-IsTotal, decode_i64-IsTotal,
  decode_fov_enable-IsTotal, decode_diag_status-IsTotal, decode_host_ip_config-IsTotal,
  decode_lidar_ip_config-IsTotal, decode_install_attitude-IsTotal, decode_fov_config-IsTotal,
  decode_func_io_config-IsTotal, decode_imu_sensor_config-IsTotal, decode_version-IsTotal,
  decode_mac-IsTotal, decode_slots-IsTotal,
}
use livox_mid360_core.Info.{
  text, decoded, decode_raw, or_default, decode_opt, decode_into, decode_slots, decode_identity,
  decode_settings, decode_status, DeviceIdentity, LidarSettings, LidarStatus,
}

-- What a decoder accepts; an error is no value.
abbrev pub accepted : {A : Type 0} → Result KeyError A → Option A
accepted (ok a) = some a
accepted (err e) = none
accepted fault = none

-- A field on its own: the value of its key, if the key is there and its decoder accepts the value.
abbrev pub field_value : {A : Type 0} → (List ℕ → Result KeyError A) → Option (List ℕ) → Option A
field_value decode none = none
field_value decode (some raw) = accepted (decode raw)

abbrev pub field_at : {A : Type 0} → (List ℕ → Result KeyError A) → ℕ → List KeyValue → Option A
field_at decode k kvs = field_value decode (find_key kvs k)

decoded-accepted :
    {A : Type 0} (m : Result KeyError A) → Safe Anything m → decoded m ≡ ok (accepted m)
decoded-accepted (ok a) h = refl
decoded-accepted (err e) h = refl
decoded-accepted fault h = elim h [ ]

decode_opt-field_at :
    {A : Type 0} (decode : List ℕ → Result KeyError A) (k : ℕ) (kvs : List KeyValue)
    → IsTotal decode
    → decode_opt decode k kvs ≡ ok (field_at decode k kvs)
unfolding decode_opt
decode_opt-field_at decode k kvs total = raw (find_key kvs k)
  where
    raw : (o : Option (List ℕ)) → decode_raw decode o ≡ ok (field_value decode o)
    raw none = refl
    raw (some v) = decoded-accepted (decode v) (total v)

decode_into-field_at :
    {A : Type 0} (decode : List ℕ → Result KeyError A) (k : ℕ) (d : A) (kvs : List KeyValue)
    → IsTotal decode
    → decode_into decode k d kvs ≡ ok (or_default d (field_at decode k kvs))
unfolding decode_into
decode_into-field_at decode k d kvs total = rw (decode_opt-field_at decode k kvs total) refl

module _ (kvs : List KeyValue) where
  -- Each struct from its fields on their own.
  abbrev pub identity_of : DeviceIdentity
  identity_of = record {
    serial_number = or_default [] (field_at text key_sn kvs);
    product_info = or_default [] (field_at text key_product_info kvs);
    version_app = or_default (replicate 4 0) (field_at decode_version key_version_app kvs);
    version_loader = or_default (replicate 4 0) (field_at decode_version key_version_loader kvs);
    version_hardware =
        or_default (replicate 4 0) (field_at decode_version key_version_hardware kvs);
    mac = or_default (replicate 6 0) (field_at decode_mac key_mac kvs);
  }

  abbrev pub settings_of : LidarSettings
  settings_of = record {
    pcl_data_type = field_at decode_data_type key_pcl_data_type kvs;
    pattern_mode = field_at decode_scan_pattern key_pattern_mode kvs;
    lidar_ipcfg = field_at decode_lidar_ip_config key_lidar_ip_cfg kvs;
    state_info_host_ipcfg = field_at decode_host_ip_config key_state_info_host_ip_cfg kvs;
    pointcloud_host_ipcfg = field_at decode_host_ip_config key_point_cloud_host_ip_cfg kvs;
    imu_host_ipcfg = field_at decode_host_ip_config key_imu_host_ip_cfg kvs;
    install_attitude = field_at decode_install_attitude key_install_attitude kvs;
    fov_cfg0 = field_at decode_fov_config key_fov_cfg0 kvs;
    fov_cfg1 = field_at decode_fov_config key_fov_cfg1 kvs;
    fov_cfg_en = field_at decode_fov_enable key_fov_cfg_en kvs;
    detect_mode = field_at decode_detect_mode key_detect_mode kvs;
    func_io_cfg = field_at decode_func_io_config key_func_io_cfg kvs;
    work_tgt_mode = field_at decode_work_state key_work_tgt_mode kvs;
    imu_data_en = field_at decode_bool key_imu_data_en kvs;
    time_filter = field_at decode_bool key_time_filter kvs;
    imu_sensor_cfg = field_at decode_imu_sensor_config key_imu_sensor_cfg kvs;
  }

  abbrev pub status_of : LidarStatus
  status_of = record {
    time_ns = 0;
    cur_work_state = field_at decode_work_state key_cur_work_state kvs;
    core_temp = field_at decode_i32 key_core_temp kvs;
    powerup_cnt = field_at decode_u32 key_powerup_cnt kvs;
    local_time_now = field_at decode_u64 key_local_time_now kvs;
    last_sync_time = field_at decode_u64 key_last_sync_time kvs;
    time_offset = field_at decode_i64 key_time_offset kvs;
    time_sync_type = field_at decode_time_sync_type key_time_sync_type kvs;
    lidar_diag_status = field_at decode_diag_status key_lidar_diag_status kvs;
    fw_type = field_at decode_fw_type key_fw_type kvs;
    hms_code = field_at decode_slots key_hms_code kvs;
  }

  decode_identity-identity_of : decode_identity kvs ≡ ok identity_of
  unfolding decode_identity
  decode_identity-identity_of =
      rw
        (
          decode_into-field_at text key_sn [] kvs (λ v. tt),
          decode_into-field_at text key_product_info [] kvs (λ v. tt),
          decode_into-field_at decode_version key_version_app (replicate 4 0) kvs
              decode_version-IsTotal,
          decode_into-field_at decode_version key_version_loader (replicate 4 0) kvs
              decode_version-IsTotal,
          decode_into-field_at decode_version key_version_hardware (replicate 4 0) kvs
              decode_version-IsTotal,
          decode_into-field_at decode_mac key_mac (replicate 6 0) kvs decode_mac-IsTotal,
        )
        refl

  decode_settings-settings_of : decode_settings kvs ≡ ok settings_of
  unfolding decode_settings
  decode_settings-settings_of =
      rw
        (
          decode_opt-field_at decode_data_type key_pcl_data_type kvs decode_data_type-IsTotal,
          decode_opt-field_at decode_scan_pattern key_pattern_mode kvs (decode_enum_u8-IsTotal 2),
          decode_opt-field_at decode_lidar_ip_config key_lidar_ip_cfg kvs
              decode_lidar_ip_config-IsTotal,
          decode_opt-field_at decode_host_ip_config key_state_info_host_ip_cfg kvs
              decode_host_ip_config-IsTotal,
          decode_opt-field_at decode_host_ip_config key_point_cloud_host_ip_cfg kvs
              decode_host_ip_config-IsTotal,
          decode_opt-field_at decode_host_ip_config key_imu_host_ip_cfg kvs
              decode_host_ip_config-IsTotal,
          decode_opt-field_at decode_install_attitude key_install_attitude kvs
              decode_install_attitude-IsTotal,
          decode_opt-field_at decode_fov_config key_fov_cfg0 kvs decode_fov_config-IsTotal,
          decode_opt-field_at decode_fov_config key_fov_cfg1 kvs decode_fov_config-IsTotal,
          decode_opt-field_at decode_fov_enable key_fov_cfg_en kvs decode_fov_enable-IsTotal,
          decode_opt-field_at decode_detect_mode key_detect_mode kvs (decode_enum_u8-IsTotal 1),
          decode_opt-field_at decode_func_io_config key_func_io_cfg kvs
              decode_func_io_config-IsTotal,
          decode_opt-field_at decode_work_state key_work_tgt_mode kvs decode_work_state-IsTotal,
          decode_opt-field_at decode_bool key_imu_data_en kvs decode_bool-IsTotal,
          decode_opt-field_at decode_bool key_time_filter kvs decode_bool-IsTotal,
          decode_opt-field_at decode_imu_sensor_config key_imu_sensor_cfg kvs
              decode_imu_sensor_config-IsTotal,
        )
        refl

  decode_status-status_of : decode_status kvs ≡ ok status_of
  unfolding decode_status
  decode_status-status_of =
      rw
        (
          decode_opt-field_at decode_work_state key_cur_work_state kvs decode_work_state-IsTotal,
          decode_opt-field_at decode_i32 key_core_temp kvs decode_i32-IsTotal,
          decode_opt-field_at decode_u32 key_powerup_cnt kvs (decode_scalar-IsTotal 4),
          decode_opt-field_at decode_u64 key_local_time_now kvs (decode_scalar-IsTotal 8),
          decode_opt-field_at decode_u64 key_last_sync_time kvs (decode_scalar-IsTotal 8),
          decode_opt-field_at decode_i64 key_time_offset kvs decode_i64-IsTotal,
          decode_opt-field_at decode_time_sync_type key_time_sync_type kvs
              (decode_enum_u8-IsTotal 2),
          decode_opt-field_at decode_diag_status key_lidar_diag_status kvs
              decode_diag_status-IsTotal,
          decode_opt-field_at decode_fw_type key_fw_type kvs (decode_enum_u8-IsTotal 1),
          decode_opt-field_at decode_slots key_hms_code kvs decode_slots-IsTotal,
        )
        refl

-- Whatever keys and values an acknowledgement or a push carries, also twice, of a wrong length or with
-- values out of range, identity, settings and status are decoded, and nothing outside a value is read:
-- each field has what its decoder makes of the first value of its key, and is empty, or its default in
-- an identity, only when the key is missing or this value is refused.
pub decode_info_total :
    (kvs : List KeyValue)
    → (decode_identity kvs ≡ ok (identity_of kvs))
      × (decode_settings kvs ≡ ok (settings_of kvs))
      × (decode_status kvs ≡ ok (status_of kvs))
decode_info_total kvs =
    (decode_identity-identity_of kvs, decode_settings-settings_of kvs, decode_status-status_of kvs)
