-- ===== src/Keys.antt =====
-- Keys of the parameter lists, from include/livox/mid360/keys.hpp and src/keys.cpp. A key is its 16-bit
-- number, as the code casts any number to `Key`.
pub mod Scalars
pub mod Values
pub mod Checks
pub mod RoundTrip
use livox_mid360_core.Prelude.{
  ℕ, ◌-◌, ◌/◌, ◌%◌, ◌^◌, ◌==◌, ◌||◌, not, Bool, true, false, if◌then◌else◌, Option, none, some,
  List, [], ◌∷◌,
}
use livox_mid360_core.Protocol.Types.{KeyValue}

pub data KeyError : Type 0 where
  wrong_length out_of_range : KeyError

abbrev pub key_pcl_data_type : ℕ
key_pcl_data_type = 0x0000

abbrev pub key_pattern_mode : ℕ
key_pattern_mode = 0x0001

abbrev pub key_lidar_ip_cfg : ℕ
key_lidar_ip_cfg = 0x0004

abbrev pub key_state_info_host_ip_cfg : ℕ
key_state_info_host_ip_cfg = 0x0005

abbrev pub key_point_cloud_host_ip_cfg : ℕ
key_point_cloud_host_ip_cfg = 0x0006

abbrev pub key_imu_host_ip_cfg : ℕ
key_imu_host_ip_cfg = 0x0007

abbrev pub key_log_host_ip_cfg : ℕ
key_log_host_ip_cfg = 0x0009

abbrev pub key_install_attitude : ℕ
key_install_attitude = 0x0012

abbrev pub key_fov_cfg0 : ℕ
key_fov_cfg0 = 0x0015

abbrev pub key_fov_cfg1 : ℕ
key_fov_cfg1 = 0x0016

abbrev pub key_fov_cfg_en : ℕ
key_fov_cfg_en = 0x0017

abbrev pub key_detect_mode : ℕ
key_detect_mode = 0x0018

abbrev pub key_func_io_cfg : ℕ
key_func_io_cfg = 0x0019

abbrev pub key_work_tgt_mode : ℕ
key_work_tgt_mode = 0x001A

abbrev pub key_imu_data_en : ℕ
key_imu_data_en = 0x001C

abbrev pub key_speed_mode : ℕ
key_speed_mode = 0x0021

abbrev pub key_time_filter : ℕ
key_time_filter = 0x0026

abbrev pub key_pc_freq_mod : ℕ
key_pc_freq_mod = 0x0029

abbrev pub key_imu_sensor_cfg : ℕ
key_imu_sensor_cfg = 0x002B

abbrev pub key_sn : ℕ
key_sn = 0x8000

abbrev pub key_product_info : ℕ
key_product_info = 0x8001

abbrev pub key_version_app : ℕ
key_version_app = 0x8002

abbrev pub key_version_loader : ℕ
key_version_loader = 0x8003

abbrev pub key_version_hardware : ℕ
key_version_hardware = 0x8004

abbrev pub key_mac : ℕ
key_mac = 0x8005

abbrev pub key_cur_work_state : ℕ
key_cur_work_state = 0x8006

abbrev pub key_core_temp : ℕ
key_core_temp = 0x8007

abbrev pub key_powerup_cnt : ℕ
key_powerup_cnt = 0x8008

abbrev pub key_local_time_now : ℕ
key_local_time_now = 0x8009

abbrev pub key_last_sync_time : ℕ
key_last_sync_time = 0x800A

abbrev pub key_time_offset : ℕ
key_time_offset = 0x800B

abbrev pub key_time_sync_type : ℕ
key_time_sync_type = 0x800C

abbrev pub key_lidar_diag_status : ℕ
key_lidar_diag_status = 0x800E

abbrev pub key_fw_type : ℕ
key_fw_type = 0x8010

abbrev pub key_hms_code : ℕ
key_hms_code = 0x8011

unfoldable pub is_read_only : ℕ → Bool
is_read_only k = not (k / 2 ^ 15 % 2 == 0)

abbrev pub one_of : ℕ → List ℕ → Bool
one_of k [] = false
one_of k (x ∷ xs) = k == x || one_of k xs

-- The first group that lists the key, and its length.
abbrev pub length_in : ℕ → List (List ℕ × ℕ) → Option ℕ
length_in k [] = none
length_in k ((keys, n) ∷ groups) = if one_of k keys then some n else length_in k groups

-- The cases of `key_value_length`.
abbrev pub length_groups : List (List ℕ × ℕ)
length_groups =
    (
      key_pcl_data_type ∷ key_pattern_mode ∷ key_fov_cfg_en ∷ key_detect_mode ∷ key_work_tgt_mode
          ∷ key_imu_data_en ∷ key_speed_mode ∷ key_time_filter ∷ key_pc_freq_mod
          ∷ key_cur_work_state ∷ key_time_sync_type ∷ key_fw_type ∷ [],
      1,
    )
    ∷ (key_lidar_diag_status ∷ [], 2)
    ∷ (key_imu_sensor_cfg ∷ [], 3)
    ∷ (
      key_func_io_cfg ∷ key_version_app ∷ key_version_loader ∷ key_version_hardware ∷ key_core_temp
          ∷ key_powerup_cnt ∷ [],
      4,
    )
    ∷ (key_mac ∷ [], 6)
    ∷ (
      key_state_info_host_ip_cfg ∷ key_point_cloud_host_ip_cfg ∷ key_imu_host_ip_cfg
          ∷ key_log_host_ip_cfg ∷ key_local_time_now ∷ key_last_sync_time ∷ key_time_offset ∷ [],
      8,
    )
    ∷ (key_lidar_ip_cfg ∷ [], 12)
    ∷ (key_sn ∷ [], 16)
    ∷ (key_fov_cfg0 ∷ key_fov_cfg1 ∷ [], 20)
    ∷ (key_install_attitude ∷ [], 24)
    ∷ (key_hms_code ∷ [], 32)
    ∷ (key_product_info ∷ [], 64)
    ∷ []

unfoldable pub key_value_length : ℕ → Option ℕ
key_value_length k = length_in k length_groups

unfoldable pub find_key : List KeyValue → ℕ → Option (List ℕ)
find_key [] k = none
find_key (kv ∷ kvs) k = let rest = find_key kvs k in if kv.key == k then some kv.value else rest
