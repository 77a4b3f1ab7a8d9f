-- ===== src/Info.antt =====
-- src/lidar_info.cpp with include/livox/mid360/lidar_info.hpp: what the parameter keys say of a LiDAR.
-- The text forms are left out.
pub mod Total
pub mod Values
use livox_mid360_core.Prelude.{
  ℕ, List, [], ◌∷◌, map, replicate, Bool, Option, none, some, Result, ok, err, fault, ◌>>=◌,
}
use livox_mid360_core.Prelude.Int.{ℤ}
use livox_mid360_core.Protocol.Types.{DataType, KeyValue}
use livox_mid360_core.Keys.{
  KeyError, find_key, key_core_temp, key_cur_work_state, key_detect_mode, key_fov_cfg0,
  key_fov_cfg1, key_fov_cfg_en, key_func_io_cfg, key_fw_type, key_hms_code, key_imu_data_en,
  key_imu_host_ip_cfg, key_imu_sensor_cfg, key_install_attitude, key_last_sync_time,
  key_lidar_diag_status, key_lidar_ip_cfg, key_local_time_now, key_mac, key_pattern_mode,
  key_pcl_data_type, key_point_cloud_host_ip_cfg, key_powerup_cnt, key_product_info, key_sn,
  key_state_info_host_ip_cfg, key_time_filter, key_time_offset, key_time_sync_type, key_version_app,
  key_version_hardware, key_version_loader, key_work_tgt_mode,
}
use livox_mid360_core.Keys.Scalars.{
  decode_string, decode_u32, decode_u64, decode_i32, decode_i64, decode_bool, decode_data_type,
  decode_scan_pattern, decode_detect_mode, decode_time_sync_type, decode_fw_type, decode_work_state,
  FovEnable, decode_fov_enable, DiagStatus, decode_diag_status,
}
use livox_mid360_core.Keys.Values.{
  HostIpConfig, LidarIpConfig, InstallAttitude, FovConfig, FuncIoConfig, ImuSensorConfig,
  decode_host_ip_config, decode_lidar_ip_config, decode_install_attitude, decode_fov_config,
  decode_func_io_config, decode_imu_sensor_config, decode_version, decode_mac, decode_hms_codes,
}
use livox_mid360_core.Hms.{HmsCode, decode_hms}

pub record DeviceIdentity : Type 0 where
  pub serial_number : List ℕ
  pub product_info : List ℕ
  pub version_app : List ℕ
  pub version_loader : List ℕ
  pub version_hardware : List ℕ
  pub mac : List ℕ

pub record LidarSettings : Type 0 where
  pub pcl_data_type : Option DataType
  pub pattern_mode : Option ℕ
  pub lidar_ipcfg : Option LidarIpConfig
  pub state_info_host_ipcfg : Option HostIpConfig
  pub pointcloud_host_ipcfg : Option HostIpConfig
  pub imu_host_ipcfg : Option HostIpConfig
  pub install_attitude : Option InstallAttitude
  pub fov_cfg0 : Option FovConfig
  pub fov_cfg1 : Option FovConfig
  pub fov_cfg_en : Option FovEnable
  pub detect_mode : Option ℕ
  pub func_io_cfg : Option FuncIoConfig
  pub work_tgt_mode : Option ℕ
  pub imu_data_en : Option Bool
  pub time_filter : Option Bool
  pub imu_sensor_cfg : Option ImuSensorConfig

pub record LidarStatus : Type 0 where
  pub time_ns : ℕ
  pub cur_work_state : Option ℕ
  pub core_temp : Option ℤ
  pub powerup_cnt : Option ℕ
  pub local_time_now : Option ℕ
  pub last_sync_time : Option ℕ
  pub time_offset : Option ℤ
  pub time_sync_type : Option ℕ
  pub lidar_diag_status : Option DiagStatus
  pub fw_type : Option ℕ
  pub hms_code : Option (List HmsCode)

-- `kIdentityKeys`, `kSettingsKeys` and `kStatusKeys`.
abbrev pub identity_keys : List ℕ
identity_keys =
    key_sn ∷ key_product_info ∷ key_version_app ∷ key_version_loader ∷ key_version_hardware
    ∷ key_mac ∷ []

abbrev pub settings_keys : List ℕ
settings_keys =
    key_pcl_data_type ∷ key_pattern_mode ∷ key_lidar_ip_cfg ∷ key_state_info_host_ip_cfg
    ∷ key_point_cloud_host_ip_cfg ∷ key_imu_host_ip_cfg ∷ key_install_attitude ∷ key_fov_cfg0
    ∷ key_fov_cfg1 ∷ key_fov_cfg_en ∷ key_detect_mode ∷ key_func_io_cfg ∷ key_work_tgt_mode
    ∷ key_imu_data_en ∷ key_time_filter ∷ key_imu_sensor_cfg ∷ []

abbrev pub status_keys : List ℕ
status_keys =
    key_cur_work_state ∷ key_core_temp ∷ key_powerup_cnt ∷ key_local_time_now ∷ key_last_sync_time
    ∷ key_time_offset ∷ key_time_sync_type ∷ key_lidar_diag_status ∷ key_fw_type ∷ key_hms_code ∷ []

-- What a decoder says, with an error forgotten.
abbrev pub decoded {ℓ} : {A : Type ℓ} → Result KeyError A → Result KeyError (Option A)
decoded (ok v) = ok (some v)
decoded (err e) = ok none
decoded fault = fault

abbrev pub decode_raw {ℓ} :
    {A : Type ℓ} → (List ℕ → Result KeyError A) → Option (List ℕ) → Result KeyError (Option A)
decode_raw decode none = ok none
decode_raw decode (some raw) = decoded (decode raw)

-- `decode_opt`: a key that is missing or has another value leaves the field empty.
unfoldable pub decode_opt {ℓ} :
    {A : Type ℓ} → (List ℕ → Result KeyError A) → ℕ → List KeyValue → Result KeyError (Option A)
decode_opt decode k kvs = decode_raw decode (find_key kvs k)

abbrev pub or_default {ℓ} : {A : Type ℓ} → A → Option A → A
or_default d none = d
or_default d (some v) = v

-- `decode_into`, with the value that the field has before.
unfoldable pub decode_into {ℓ} :
    {A : Type ℓ} → (List ℕ → Result KeyError A) → ℕ → A → List KeyValue → Result KeyError A
decode_into decode k d kvs = do v ← decode_opt decode k kvs; ok (or_default d v)

abbrev pub text : List ℕ → Result KeyError (List ℕ)
text v = ok (decode_string v)

unfoldable pub decode_identity : List KeyValue → Result KeyError DeviceIdentity
decode_identity kvs = do
  serial_number ← decode_into text key_sn [] kvs
  product_info ← decode_into text key_product_info [] kvs
  version_app ← decode_into decode_version key_version_app (replicate 4 0) kvs
  version_loader ← decode_into decode_version key_version_loader (replicate 4 0) kvs
  version_hardware ← decode_into decode_version key_version_hardware (replicate 4 0) kvs
  mac ← decode_into decode_mac key_mac (replicate 6 0) kvs
  ok (record {
    serial_number = serial_number;
    product_info = product_info;
    version_app = version_app;
    version_loader = version_loader;
    version_hardware = version_hardware;
    mac = mac;
  })

unfoldable pub decode_settings : List KeyValue → Result KeyError LidarSettings
decode_settings kvs = do
  pcl_data_type ← decode_opt decode_data_type key_pcl_data_type kvs
  pattern_mode ← decode_opt decode_scan_pattern key_pattern_mode kvs
  lidar_ipcfg ← decode_opt decode_lidar_ip_config key_lidar_ip_cfg kvs
  state_info_host_ipcfg ← decode_opt decode_host_ip_config key_state_info_host_ip_cfg kvs
  pointcloud_host_ipcfg ← decode_opt decode_host_ip_config key_point_cloud_host_ip_cfg kvs
  imu_host_ipcfg ← decode_opt decode_host_ip_config key_imu_host_ip_cfg kvs
  install_attitude ← decode_opt decode_install_attitude key_install_attitude kvs
  fov_cfg0 ← decode_opt decode_fov_config key_fov_cfg0 kvs
  fov_cfg1 ← decode_opt decode_fov_config key_fov_cfg1 kvs
  fov_cfg_en ← decode_opt decode_fov_enable key_fov_cfg_en kvs
  detect_mode ← decode_opt decode_detect_mode key_detect_mode kvs
  func_io_cfg ← decode_opt decode_func_io_config key_func_io_cfg kvs
  work_tgt_mode ← decode_opt decode_work_state key_work_tgt_mode kvs
  imu_data_en ← decode_opt decode_bool key_imu_data_en kvs
  time_filter ← decode_opt decode_bool key_time_filter kvs
  imu_sensor_cfg ← decode_opt decode_imu_sensor_config key_imu_sensor_cfg kvs
  ok (record {
    pcl_data_type = pcl_data_type;
    pattern_mode = pattern_mode;
    lidar_ipcfg = lidar_ipcfg;
    state_info_host_ipcfg = state_info_host_ipcfg;
    pointcloud_host_ipcfg = pointcloud_host_ipcfg;
    imu_host_ipcfg = imu_host_ipcfg;
    install_attitude = install_attitude;
    fov_cfg0 = fov_cfg0;
    fov_cfg1 = fov_cfg1;
    fov_cfg_en = fov_cfg_en;
    detect_mode = detect_mode;
    func_io_cfg = func_io_cfg;
    work_tgt_mode = work_tgt_mode;
    imu_data_en = imu_data_en;
    time_filter = time_filter;
    imu_sensor_cfg = imu_sensor_cfg;
  })

-- The slots of the health codes.
unfoldable pub decode_slots : List ℕ → Result KeyError (List HmsCode)
decode_slots v = do codes ← decode_hms_codes v; ok (map decode_hms codes)

unfoldable pub decode_status : List KeyValue → Result KeyError LidarStatus
decode_status kvs = do
  cur_work_state ← decode_opt decode_work_state key_cur_work_state kvs
  core_temp ← decode_opt decode_i32 key_core_temp kvs
  powerup_cnt ← decode_opt decode_u32 key_powerup_cnt kvs
  local_time_now ← decode_opt decode_u64 key_local_time_now kvs
  last_sync_time ← decode_opt decode_u64 key_last_sync_time kvs
  time_offset ← decode_opt decode_i64 key_time_offset kvs
  time_sync_type ← decode_opt decode_time_sync_type key_time_sync_type kvs
  lidar_diag_status ← decode_opt decode_diag_status key_lidar_diag_status kvs
  fw_type ← decode_opt decode_fw_type key_fw_type kvs
  hms_code ← decode_opt decode_slots key_hms_code kvs
  ok (record {
    time_ns = 0;
    cur_work_state = cur_work_state;
    core_temp = core_temp;
    powerup_cnt = powerup_cnt;
    local_time_now = local_time_now;
    last_sync_time = last_sync_time;
    time_offset = time_offset;
    time_sync_type = time_sync_type;
    lidar_diag_status = lidar_diag_status;
    fw_type = fw_type;
    hms_code = hms_code;
  })
