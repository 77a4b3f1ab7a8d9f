-- ===== src/Device/Commands/Setters.antt =====
-- The setters of a device: the checks that each makes, and the keys that it writes.
use livox_mid360_core.Prelude.{
  ℕ, ◌==◌, ◌&&◌, leb, not, Bool, true, false, if◌then◌else◌, List, [], ◌∷◌, none, some, Result, ok,
  err, fault,
}
use livox_mid360_core.Protocol.Types.{DataType, imu, KeyValue, ret_param_reboot_effect}
use livox_mid360_core.Protocol.DataPacket.{same_type}
use livox_mid360_core.Keys.{
  KeyError, key_pcl_data_type, key_pattern_mode, key_imu_data_en, key_time_filter, key_lidar_ip_cfg,
  key_install_attitude, key_fov_cfg0, key_fov_cfg1, key_detect_mode, key_func_io_cfg,
  key_imu_sensor_cfg,
}
use livox_mid360_core.Keys.Scalars.{encode_u8, encode_bool}
use livox_mid360_core.Keys.Values.{
  LidarIpConfig, InstallAttitude, FuncIoConfig, ImuSensorConfig, func_io_config_valid,
  encode_lidar_ip_config, encode_install_attitude, encode_func_io_config, encode_imu_sensor_config,
}
use livox_mid360_core.Keys.Checks.{lidar_ip_config_valid, install_attitude_valid}
use livox_mid360_core.Config.{FovSettings, window_fine, fov_key_values, data_type_byte}
use livox_mid360_core.Event.{device_error, key_error, invalid_argument}
use livox_mid360_core.Device.Commands.{
  CommandOptions, CommandEnv, Device, DeviceCall, SetResult, then_do, configure,
}

module _ (options : CommandOptions) (env : CommandEnv) where
  -- `set_many`, on keys that are encoded.
  unfoldable pub set_keys : Device → List KeyValue → DeviceCall SetResult
  unfolding configure
  set_keys d kvs =
      then_do (configure options env d kvs)
        (λ d ack. (d, ok (record { reboot_required = ack.ret_code == ret_param_reboot_effect })))

  abbrev pub set_key : ℕ → Device → Result KeyError (List ℕ) → DeviceCall SetResult
  set_key key d (ok value) = set_keys d (record { key = key; value = value } ∷ [])
  set_key key d (err e) = (d, fault)
  set_key key d fault = (d, fault)

  abbrev pub set_valid : Bool → ℕ → Device → Result KeyError (List ℕ) → DeviceCall SetResult
  set_valid valid key d value =
      if valid then set_key key d value else (d, err (key_error invalid_argument key))

  unfoldable pub set_point_format : DataType → Device → DeviceCall SetResult
  set_point_format t d =
      set_valid (not (same_type t imu)) key_pcl_data_type d (ok (encode_u8 (data_type_byte t)))

  unfoldable pub set_scan_pattern : ℕ → Device → DeviceCall SetResult
  set_scan_pattern pattern d = set_key key_pattern_mode d (ok (encode_u8 pattern))

  unfoldable pub set_imu_enabled : Bool → Device → DeviceCall SetResult
  set_imu_enabled on d = set_key key_imu_data_en d (ok (encode_bool on))

  unfoldable pub set_time_filter : Bool → Device → DeviceCall SetResult
  set_time_filter on d = set_key key_time_filter d (ok (encode_bool on))

  unfoldable pub set_detect_mode : ℕ → Device → DeviceCall SetResult
  set_detect_mode m d = set_valid (leb m 1) key_detect_mode d (ok (encode_u8 m))

  unfoldable pub set_imu_sensor_config : ImuSensorConfig → Device → DeviceCall SetResult
  set_imu_sensor_config c d =
      set_valid (leb c.output_rate 3 && leb c.accel_range 3 && leb c.gyro_range 7)
        key_imu_sensor_cfg d (ok (encode_imu_sensor_config c))

  unfoldable pub set_install_attitude : InstallAttitude → Device → DeviceCall SetResult
  set_install_attitude a d =
      set_valid (install_attitude_valid a) key_install_attitude d (encode_install_attitude a)

  unfoldable pub set_func_io_config : FuncIoConfig → Device → DeviceCall SetResult
  set_func_io_config c d =
      set_valid (func_io_config_valid c) key_func_io_cfg d (ok (encode_func_io_config c))

  unfoldable pub set_lidar_ip_config : LidarIpConfig → Device → DeviceCall SetResult
  set_lidar_ip_config c d =
      then_do (set_valid (lidar_ip_config_valid c) key_lidar_ip_cfg d (encode_lidar_ip_config c))
        (λ d r. (record d { configured_ip = some c.ip }, ok r))

  abbrev pub no_window : FovSettings → Bool
  no_window fov = elim fov.fov0 [
    | some w ↦ false
    | none ↦ elim fov.fov1 [
      | some w ↦ false
      | none ↦ elim fov.enable [ some e ↦ false | none ↦ true ]
    ]
  ]

  unfoldable pub set_fov : FovSettings → Device → DeviceCall SetResult
  set_fov fov d =
      if no_window fov
      then (d, err (device_error invalid_argument))
      else if not (window_fine fov.fov0)
      then (d, err (key_error invalid_argument key_fov_cfg0))
      else if not (window_fine fov.fov1)
      then (d, err (key_error invalid_argument key_fov_cfg1))
      else elim (fov_key_values {E = KeyError} (some fov)) [
        | ok kvs ↦ set_keys d kvs
        | err e ↦ (d, fault)
        | fault ↦ (d, fault)
      ]
