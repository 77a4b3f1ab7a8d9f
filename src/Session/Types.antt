-- ===== src/Session/Types.antt =====
-- include/livox/mid360/session.hpp and src/session.cpp: errors, options, statistics, results.
use livox_mid360_core.Prelude.{
  ℕ, ◌+◌, ◌%◌, ◌^◌, List, Option, none, some, Bool, true, false, ◌==◌, if◌then◌else◌,
}
use livox_mid360_core.Protocol.Types.{ParseError, KeyValue}
use livox_mid360_core.Transport.{Endpoint, TransportError}

pub data SessionErrorKind : Type 0 where
  transport timeout bad_response lidar_rejected unexpected_state : SessionErrorKind
  cancelled invalid_argument : SessionErrorKind

pub record SessionError : Type 0 where
  pub kind : SessionErrorKind
  pub cmd_id : ℕ
  pub attempts : ℕ
  pub transport_cause : Option TransportError
  pub parse : Option ParseError
  pub ret_code : ℕ
  pub error_key : ℕ
  pub work_state : Option ℕ

-- An error of the kind, with the other fields as `SessionError` starts them.
abbrev pub error_of : SessionErrorKind → ℕ → ℕ → SessionError
error_of kind cmd_id attempts = record {
  kind = kind;
  cmd_id = cmd_id;
  attempts = attempts;
  transport_cause = none;
  parse = none;
  ret_code = 0;
  error_key = 0;
  work_state = none;
}

abbrev pub transport_error : TransportError → ℕ → ℕ → SessionError
transport_error e cmd_id attempts = record (error_of transport cmd_id attempts) {
  transport_cause = some e;
}

abbrev pub bad_response_error : ParseError → ℕ → ℕ → SessionError
bad_response_error e cmd_id attempts = record (error_of bad_response cmd_id attempts) {
  parse = some e;
}

abbrev pub rejected : ℕ → ℕ → ℕ → ℕ → SessionError
rejected ret error_key cmd_id attempts = record (error_of lidar_rejected cmd_id attempts) {
  ret_code = ret;
  error_key = error_key;
}

pub data DeviceType : Type 0 where
  unknown mid360 : DeviceType

abbrev pub mid360_dev_type : ℕ
mid360_dev_type = 9

abbrev pub to_device_type : ℕ → DeviceType
to_device_type dev_type = if dev_type == mid360_dev_type then mid360 else unknown

abbrev pub same_device_type : DeviceType → DeviceType → Bool
same_device_type mid360 mid360 = true
same_device_type unknown unknown = true
same_device_type _ _ = false

pub record DiscoveredDevice : Type 0 where
  pub serial_number : List ℕ
  pub ip : List ℕ
  pub cmd_port : ℕ
  pub dev_type : ℕ
  pub from : Endpoint

abbrev pub device_type : DiscoveredDevice → DeviceType
device_type d = to_device_type d.dev_type

-- The four counters are 64 bits wide.
pub record SessionStats : Type 0 where
  pub requests : ℕ
  pub retries : ℕ
  pub timeouts : ℕ
  pub late_acks : ℕ
  pub bad_frames : ℕ

abbrev pub count_up : ℕ → ℕ
count_up n = (n + 1) % 2 ^ 64

pub record RawAck : Type 0 where
  pub cmd_id : ℕ
  pub seq_num : ℕ
  pub payload : List ℕ

-- `values` holds the bytes that its views point to in `raw`.
pub record InquireResult : Type 0 where
  pub ret_code : ℕ
  pub values : List KeyValue
  pub raw : List ℕ
