-- ===== src/Event.antt =====
-- include/livox/mid360/event.hpp: the events, errors and statistics of a device.
use livox_mid360_core.Prelude.{ℕ, Bool, List, Option, none, some}
use livox_mid360_core.Keys.Scalars.{DiagStatus}
use livox_mid360_core.Hms.{HmsCode}
use livox_mid360_core.Session.Types.{SessionError}

-- `time_offset_ns` is the 64-bit word of a signed number.
pub record DeviceStats : Type 0 where
  pub packets : ℕ
  pub points : ℕ
  pub frames : ℕ
  pub imu_samples : ℕ
  pub bad_packets : ℕ
  pub dropped_packets : ℕ
  pub reordered : ℕ
  pub queue_drops : ℕ
  pub frame_cnt_fallback : ℕ
  pub type_switch_gaps : ℕ
  pub last_packet_time_ns : ℕ
  pub pushes : ℕ
  pub last_push_time_ns : ℕ
  pub disconnects : ℕ
  pub reconnects : ℕ
  pub time_offset_ns : ℕ
  pub time_offset_valid : Bool
  pub log_chunks : ℕ
  pub log_bytes : ℕ
  pub log_gaps : ℕ
  pub log_acks_sent : ℕ
  pub bad_log_packets : ℕ
  pub last_log_time_ns : ℕ
  pub debug_data_packets : ℕ
  pub debug_data_bytes : ℕ
  pub last_debug_data_time_ns : ℕ

pub data DisconnectReason : Type 0 where
  unset push_timeout command_timeout reboot_requested user : DisconnectReason

-- `Event`: each kind with the fields that it sets, and the host time of the observation.
pub data Event : Type 0 where
  state_changed : ℕ → ℕ → ℕ → Event
  hms_changed : ℕ → List HmsCode → ℕ → Event
  diag_changed : ℕ → DiagStatus → DiagStatus → Event
  disconnected : ℕ → DisconnectReason → Event
  reconnected : ℕ → ℕ → Event
  stats_event : ℕ → DeviceStats → Event
  firmware_log_gap : ℕ → ℕ → ℕ → ℕ → Event

pub data DeviceErrorKind : Type 0 where
  session_error invalid_argument invalid_state already_registered : DeviceErrorKind
  not_open is_disconnected decode_failed io : DeviceErrorKind

pub record DeviceError : Type 0 where
  pub kind : DeviceErrorKind
  pub session : Option SessionError
  pub key : Option ℕ

-- `errno_value` belongs to `io`, which only the log handler raises, and is left out.
--
-- `error(kind)` and `wrap(err)`.
abbrev pub device_error : DeviceErrorKind → DeviceError
device_error kind = record { kind = kind; session = none; key = none }

abbrev pub session_failed : SessionError → DeviceError
session_failed e = record { kind = session_error; session = some e; key = none }

abbrev pub key_error : DeviceErrorKind → ℕ → DeviceError
key_error kind k = record { kind = kind; session = none; key = some k }
