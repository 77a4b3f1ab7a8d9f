-- ===== src/Tests/Host.antt =====
-- What the host writes to a LiDAR, and what it reads of it.
use livox_mid360_core.Prelude.{ℕ, ◌≡◌, refl, List, [], ◌∷◌, none, some, true, false, ok, arith}
use livox_mid360_core.Prelude.Int.{pos}
use livox_mid360_core.Protocol.Types.{KeyValue, cartesian16}
use livox_mid360_core.Keys.{KeyError}
use livox_mid360_core.Info.{LidarSettings, decode_identity, decode_settings, decode_status}
use livox_mid360_core.Info.Total.{identity_of, settings_of, status_of, decode_info_total}
use livox_mid360_core.Config.{HostSetup, host_setup_key_values}
use livox_mid360_core.Device.Absorb.{absorb}
use livox_mid360_core.Device.Absorb.Replay.{IsSetup, overlay, absorb-host_setup_key_values}
use livox_mid360_core.Device.Commands.{CommandOptions, CommandEnv, Device, DeviceCall, settings}
use livox_mid360_core.Device.Commands.Settings.{settings_ends}
use livox_mid360_core.Device.Connection.{opened}
use livox_mid360_core.Device.Log.{new_log}
use livox_mid360_core.Session.Connect.{last_poll}
use livox_mid360_core.Tests.Sessions.{session, lidar, answering}

abbrev pub plain : HostSetup
plain = record {
  ip = none;
  push_port = 56201;
  point_port = 56301;
  imu_port = 56401;
  pcl_data_type = cartesian16;
  imu_enable = true;
  work_tgt_mode = none;
  scan_pattern = none;
  fov = none;
  detect_mode = none;
  time_filter = none;
  imu_sensor_config = none;
  wait_timeout = pos 0;
}

-- Only one window, without the enables.
abbrev windowed : HostSetup
windowed = record plain {
  scan_pattern = some 2;
  fov = some (record {
    fov0 = some (record {
      yaw_start_deg = pos 10;
      yaw_stop_deg = pos 90;
      pitch_start_deg = pos 0;
      pitch_stop_deg = pos 20;
      rsvd = 0;
    });
    fov1 = none;
    enable = none;
  });
  detect_mode = some 1;
  time_filter = some false;
}

windowed-IsSetup : IsSetup windowed
windowed-IsSetup = record {
  point_format = refl;
  pattern_fits = omega arith;
  fov_fits = ((omega arith, omega arith, omega arith, omega arith, omega arith), tt);
  detect_fits = omega arith;
  imu_fits = tt;
}

absorb-host_setup_key_values_example :
    (kvs : List KeyValue) × (host_setup_key_values {E = KeyError} windowed (192 ∷ 168 ∷ 1 ∷ 5 ∷ [])
      ≡ ok kvs)
    × (absorb plain kvs ≡ ok (overlay plain windowed))
absorb-host_setup_key_values_example =
    absorb-host_setup_key_values plain windowed (192 ∷ 168 ∷ 1 ∷ 5 ∷ []) refl windowed-IsSetup

-- A working state, a temperature of a wrong length, and the working state again, out of range.
abbrev reported : List KeyValue
reported =
    record { key = 0x8006; value = 1 ∷ [] }
    ∷ record { key = 0x8007; value = 1 ∷ [] }
    ∷ record { key = 0x8006; value = 99 ∷ [] }
    ∷ []

decode_info_total_example :
    (decode_identity reported ≡ ok (identity_of reported))
    × (decode_settings reported ≡ ok (settings_of reported))
    × (decode_status reported ≡ ok (status_of reported))
decode_info_total_example = decode_info_total reported

abbrev pub device : Device
device = record {
  serial = [];
  session = session;
  connection = opened 0;
  setup = plain;
  info = record { serial_number = []; ip = lidar.ip; cmd_port = 56100; dev_type = 9; from = lidar };
  configured_ip = none;
  sampling_requested = false;
  discard_requested = false;
  log_requested0 = false;
  log_requested1 = false;
  debug_data_requested = false;
  log_next_seq = 1;
  log = new_log;
  log_sent = [];
}

abbrev pub options : CommandOptions
options = record {
  reconnect_enabled = true;
  push_timeout = 500;
  wait_timeout = pos 0;
  request_attempts = 3;
  log_port = 56501;
  debug_data_port = none;
  lidar_log_port = 56500;
  lidar_debug_data_port = 56500;
  local_ip = 192 ∷ 168 ∷ 1 ∷ 5 ∷ [];
}

abbrev pub answers : ℕ → CommandEnv
answers i = record {
  opts = none;
  request = answering;
  polls = last_poll answering;
  now = 10;
  time = 10;
}

settings_ends_example : (x : DeviceCall LidarSettings) × (settings options answers device ≡ some x)
settings_ends_example = settings_ends options answers device
