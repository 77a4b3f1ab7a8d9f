-- ===== src/Device/Commands/Logging.antt =====
-- src/device.cpp: starting and stopping the firmware log and the debug data.
use livox_mid360_core.Prelude.{
  ℕ, ◌==◌, ◌&&◌, Bool, true, false, if◌then◌else◌, List, [], ◌∷◌, Option, none, some, Result, ok,
  err, fault,
}
use livox_mid360_core.Protocol.Types.{ret_param_not_support}
use livox_mid360_core.Keys.{key_log_host_ip_cfg}
use livox_mid360_core.Keys.Values.{encode_host_ip_config}
use livox_mid360_core.FirmwareLog.{encode_firmware_log_control}
use livox_mid360_core.DebugData.{encode_debug_data_control}
use livox_mid360_core.Config.{address_or, no_address}
use livox_mid360_core.Transport.{same_bytes}
use livox_mid360_core.Session.Types.{SessionError}
use livox_mid360_core.Session.Request.{Attempt, Call}
use livox_mid360_core.Session.Commands
use livox_mid360_core.Event.{
  DeviceError, device_error, session_failed, invalid_argument, invalid_state,
}
use livox_mid360_core.Device.Commands.{
  CommandOptions, CommandEnv, Device, DeviceCall, then_do, is_rejected, when_connected, note_after,
}
use livox_mid360_core.Device.Commands.LogControl.{
  cmd_collection_log, cmd_debug_data_control, lidar_log_source_port, LogAttempt, log_wrapped,
  log_attempts_of, send_log_control,
}

abbrev pub host_address : CommandOptions → Device → List ℕ
host_address options d = address_or options.local_ip d.setup.ip

-- The LiDAR does not know the key of the log's address.
abbrev pub log_key_unsupported : SessionError → Bool
log_key_unsupported e =
    is_rejected e.kind
    && (e.ret_code == ret_param_not_support)
    && (e.error_key == key_log_host_ip_cfg)

-- What the commands of the log port meet: the write of the address, and their attempts.
pub record LogEnv : Type 0 where
  pub write : ℕ → Attempt
  pub attempts : ℕ → LogAttempt

-- A write that was refused for the key itself counts as done.
abbrev pub log_host_written {ℓ} : {A : Type ℓ} → Device → Call A → DeviceCall (Unit {0})
log_host_written d (s, ok a) = (record d { session = s }, ok tt)
log_host_written d (s, err e) =
    if log_key_unsupported e
    then (record d { session = s }, ok tt)
    else (record d { session = s }, err (session_failed e))
log_host_written d (s, fault) = (record d { session = s }, fault)

-- `log_requested[type]`, for the two types that are tracked.
abbrev pub request_log : ℕ → Bool → Device → Device
request_log log_type enable d =
    if log_type == 0
    then record d { log_requested0 = enable }
    else if log_type == 1
    then record d { log_requested1 = enable }
    else d

module _ (options : CommandOptions) (opts : Option ℕ) (env : LogEnv) where
  -- The address of the log, which older firmware cannot be told.
  unfoldable pub write_log_host : Device → DeviceCall (Unit {0})
  write_log_host d =
      let ip = host_address options d in
      if same_bytes ip no_address
      then (d, err (device_error invalid_argument))
      else elim (encode_host_ip_config {E = SessionError}
          (record { ip = ip; dst_port = options.log_port; src_port = lidar_log_source_port })) [
            | ok value ↦ log_host_written d (
                Commands.configure opts env.write d.session
                  (record { key = key_log_host_ip_cfg; value = value } ∷ []))
            | err e ↦ (d, fault)
            | fault ↦ (d, fault)
          ]

  unfoldable pub log_control_locked : ℕ → Bool → Device → DeviceCall (Unit {0})
  unfolding write_log_host
  log_control_locked log_type enable d =
      then_do (if enable then write_log_host d else (d, ok tt)) (λ d x.
        then_do
          (log_wrapped (
            send_log_control cmd_collection_log
              (encode_firmware_log_control (record { log_type = log_type; enable = enable }))
              options.lidar_log_port (log_attempts_of options opts) env.attempts d))
          (λ d x. (request_log log_type enable d, ok tt)))

  -- The address and the port that a request of the debug data carries, if there are any.
  unfoldable pub debug_data_target : Bool → Device → Result DeviceError (List ℕ)
  debug_data_target false d = ok no_address
  debug_data_target true d = elim options.debug_data_port [
    | none ↦ err (device_error invalid_state)
    | some port ↦
        if same_bytes (host_address options d) no_address
        then err (device_error invalid_argument)
        else ok (host_address options d)
  ]

  abbrev pub port_or_zero : Option ℕ → ℕ
  port_or_zero none = 0
  port_or_zero (some port) = port

  unfoldable pub debug_data_control_locked : Bool → Device → DeviceCall (Unit {0})
  unfolding debug_data_target
  debug_data_control_locked enable d =
      then_do (d, debug_data_target enable d)
        (λ d ip.
          then_do
            (
              d,
              encode_debug_data_control (record {
                enable = enable;
                host_ip = ip;
                host_port = port_or_zero options.debug_data_port;
                reserved = 0;
              }),
            )
            (λ d payload.
              then_do
                (log_wrapped (
                  send_log_control cmd_debug_data_control payload options.lidar_debug_data_port
                    (log_attempts_of options opts) env.attempts d))
                (λ d x. (record d { debug_data_requested = enable }, ok tt))))

module _ (options : CommandOptions) (command : CommandEnv) (env : LogEnv) where
  unfoldable pub log_control : ℕ → Bool → Device → DeviceCall (Unit {0})
  unfolding log_control_locked
  log_control log_type enable d =
      when_connected options command d
        (note_after options command (log_control_locked options command.opts env log_type enable d))

  unfoldable pub debug_data_control : Bool → Device → DeviceCall (Unit {0})
  unfolding debug_data_control_locked
  debug_data_control enable d =
      when_connected options command d
        (note_after options command (debug_data_control_locked options command.opts env enable d))
