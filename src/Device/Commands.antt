-- ===== src/Device/Commands.antt =====
-- src/device.cpp: the commands of a device, each one step under `cmd_mutex`. The check that a command
-- makes before it takes the mutex only refuses sooner what the check under it refuses.
pub mod LogControl
pub mod Logging
pub mod Readings
pub mod Setters
pub mod Settings
pub mod Stays
use livox_mid360_core.Prelude.{
  ℕ, zero, suc, ◌+◌, ◌%◌, ◌^◌, ◌==◌, ◌&&◌, ◌||◌, leb, ltb, max, not, Bool, true, false,
  if◌then◌else◌, List, [], ◌∷◌, ◌++◌, length, Option, none, some, Result, ok, err, fault, ◌>>=◌,
}
use livox_mid360_core.Prelude.Int.{ℤ, pos, ltb_ℤ}
use livox_mid360_core.Protocol.Types.{
  DataType, imu, KeyValue, ret_success, ret_param_not_support, ret_param_reboot_effect,
}
use livox_mid360_core.Protocol.Acks.{ParamConfigAck}
use livox_mid360_core.Protocol.DataPacket.{same_type}
use livox_mid360_core.Keys.{
  KeyError, find_key, key_pcl_data_type, key_lidar_ip_cfg, key_install_attitude, key_fov_cfg0,
  key_fov_cfg1, key_detect_mode, key_func_io_cfg, key_work_tgt_mode, key_imu_sensor_cfg,
}
use livox_mid360_core.Keys.Scalars.{encode_u8}
use livox_mid360_core.Keys.Values.{
  LidarIpConfig, InstallAttitude, FuncIoConfig, ImuSensorConfig, func_io_config_valid,
  encode_lidar_ip_config, encode_install_attitude, encode_func_io_config, encode_imu_sensor_config,
}
use livox_mid360_core.Keys.Checks.{lidar_ip_config_valid, install_attitude_valid}
use livox_mid360_core.Info.{
  LidarSettings, DeviceIdentity, LidarStatus, decode_settings, decode_identity, decode_status,
  settings_keys, identity_keys, status_keys,
}
use livox_mid360_core.Config.{FovSettings, HostSetup, window_fine, fov_key_values, data_type_byte}
use livox_mid360_core.Session.Types.{
  SessionError, SessionErrorKind, timeout, lidar_rejected, InquireResult, DiscoveredDevice,
}
use livox_mid360_core.Session.Types
use livox_mid360_core.Session.Acks.{or_fail}
use livox_mid360_core.Session.Request.{Attempt, Session, Call}
use livox_mid360_core.Session.Commands
use livox_mid360_core.Session.Connect.{Polls, wait_for_state}
use livox_mid360_core.Event.{
  DeviceError, device_error, session_failed, key_error, session_error, invalid_argument,
  is_disconnected, decode_failed, reboot_requested,
}
use livox_mid360_core.Device.Absorb.{absorb}
use livox_mid360_core.Device.Connection.{
  Connection, declare_disconnected, note_timeout, arm_reboot, disarm_reboot,
}
use livox_mid360_core.Transport.{Endpoint}
use livox_mid360_core.Device.Log.{LogState}

-- `DeviceOptions`, as far as the commands read them; the address of the command socket stands by.
pub record CommandOptions : Type 0 where
  pub reconnect_enabled : Bool
  pub push_timeout : ℕ
  pub wait_timeout : ℤ
  pub request_attempts : ℕ
  pub log_port : ℕ
  pub debug_data_port : Option ℕ
  pub lidar_log_port : ℕ
  pub lidar_debug_data_port : ℕ
  pub local_ip : List ℕ

-- What the commands share, and the frames sent on the log socket. `serial` is fixed.
pub record Device : Type 0 where
  pub serial : List ℕ
  pub session : Session
  pub connection : Connection
  pub setup : HostSetup
  pub info : DiscoveredDevice
  pub configured_ip : Option (List ℕ)
  pub sampling_requested : Bool
  pub discard_requested : Bool
  pub log_requested0 : Bool
  pub log_requested1 : Bool
  pub debug_data_requested : Bool
  pub log_next_seq : ℕ
  pub log : LogState
  pub log_sent : List (List ℕ × Endpoint)

abbrev pub DeviceCall {ℓ} : Type ℓ → Type ℓ
DeviceCall A = Device × Result DeviceError A

-- What a command meets: the attempts of its options, its requests, the polls of a wait, and both
-- clocks at its end.
pub record CommandEnv : Type 0 where
  pub opts : Option ℕ
  pub request : ℕ → Attempt
  pub polls : Polls
  pub now : ℕ
  pub time : ℕ

pub record SetResult : Type 0 where
  pub reboot_required : Bool

abbrev pub is_timeout : SessionErrorKind → Bool
is_timeout timeout = true
is_timeout _ = false

-- `if (!r) { return r; }`.
abbrev pub then_do {ℓ κ} :
    {A : Type ℓ} {B : Type κ} → DeviceCall A → (Device → A → DeviceCall B) → DeviceCall B
then_do (d, ok a) k = k d a
then_do (d, err e) k = (d, err e)
then_do (d, fault) k = (d, fault)

abbrev pub at_time : ℕ → Result KeyError LidarStatus → Result DeviceError LidarStatus
at_time time r =
    or_fail (λ e. device_error decode_failed) (do s ← r; ok (record s { time_ns = time }))

module _ (options : CommandOptions) (env : CommandEnv) where
  -- `note_command_error`; what `settle_cancel` clears are the flags that the environment stands for.
  unfoldable pub note_command_error : SessionError → Device → Device
  note_command_error e d =
      if is_timeout e.kind
      then record d {
        connection =
            note_timeout options.reconnect_enabled options.push_timeout env.now env.time
              d.connection;
      }
      else d

  -- A call of the session, with its errors wrapped, and noted where the code does so.
  abbrev pub wrapped {ℓ} : {A : Type ℓ} → Device → Call A → DeviceCall A
  wrapped d (s, ok a) = (record d { session = s }, ok a)
  wrapped d (s, err e) = (record d { session = s }, err (session_failed e))
  wrapped d (s, fault) = (record d { session = s }, fault)

  abbrev pub noted {ℓ} : {A : Type ℓ} → Device → Call A → DeviceCall A
  noted d (s, ok a) = (record d { session = s }, ok a)
  noted d (s, err e) = (note_command_error e (record d { session = s }), err (session_failed e))
  noted d (s, fault) = (record d { session = s }, fault)

  -- The note of an error that was wrapped before.
  abbrev pub note_after {ℓ} : {A : Type ℓ} → DeviceCall A → DeviceCall A
  note_after (d, ok a) = (d, ok a)
  note_after (d, fault) = (d, fault)
  note_after (d, err e) = elim e.session [
    | none ↦ (d, err e)
    | some s ↦ (note_command_error s d, err e)
  ]

  -- `check_connected` under the mutex.
  abbrev pub when_connected {ℓ} : {A : Type ℓ} → Device → DeviceCall A → DeviceCall A
  when_connected d call =
      if d.connection.connected then call else (d, err (device_error is_disconnected))

  -- `absorb(values)` after an accepted write.
  abbrev pub absorbed : Device → List KeyValue → ParamConfigAck → DeviceCall ParamConfigAck
  absorbed d kvs ack = elim (absorb d.setup kvs) [
    | ok setup ↦ (record d { setup = setup }, ok ack)
    | err e ↦ (d, fault)
    | fault ↦ (d, fault)
  ]

  unfoldable pub configure : Device → List KeyValue → DeviceCall ParamConfigAck
  configure d kvs = when_connected d (
      then_do (noted d (Commands.configure env.opts env.request d.session kvs))
        (λ d ack. absorbed d kvs ack))

  unfoldable pub inquire : Device → List ℕ → DeviceCall InquireResult
  inquire d keys = when_connected d (noted d (Commands.inquire env.opts env.request d.session keys))

  unfoldable pub set_gps_time : Device → ℕ → DeviceCall (Unit {0})
  set_gps_time d pps_time_ns = when_connected d (
      then_do (noted d (Commands.set_gps_time env.opts env.request d.session pps_time_ns))
        (λ d ack. (d, ok tt)))

  -- The request of a reboot is armed at `sent`, before it is sent.
  abbrev pub disarmed {ℓ} : {A : Type ℓ} → DeviceCall A → DeviceCall A
  disarmed (d, err e) = (record d { connection = disarm_reboot d.connection }, err e)
  disarmed (d, ok a) = (d, ok a)
  disarmed (d, fault) = (d, fault)

  unfoldable pub reboot : ℕ → Device → DeviceCall (Unit {0})
  reboot sent d =
      let armed = record d { connection = arm_reboot sent d.connection } in
      when_connected d (
        then_do
          (note_after
            (disarmed (wrapped armed (Commands.reboot env.opts env.request d.session 100))))
          (λ d ack. (
            record d {
              connection =
                  (declare_disconnected options.reconnect_enabled reboot_requested env.time
                    d.connection).0;
            },
            ok tt,
          )))

  -- `set_mode_locked`, from the acknowledgement on.
  unfoldable pub mode_acknowledged : ℕ → Device → DeviceCall (Unit {0})
  mode_acknowledged target d =
      let d' = record d { sampling_requested = d.sampling_requested || (target == 0x01) } in
      if ltb_ℤ (pos 0) options.wait_timeout
      then wrapped d' (wait_for_state target env.polls d'.session)
      else (d', ok tt)

  unfoldable pub set_mode_locked : ℕ → Device → DeviceCall (Unit {0})
  unfolding mode_acknowledged
  set_mode_locked target d =
      then_do
        (wrapped d (
          Commands.configure env.opts env.request d.session
            (record { key = key_work_tgt_mode; value = encode_u8 target } ∷ [])))
        (λ d ack. mode_acknowledged target d)

  unfoldable pub set_mode : ℕ → Device → DeviceCall (Unit {0})
  unfolding set_mode_locked
  set_mode target d = when_connected d (note_after (set_mode_locked target d))

  unfoldable pub start_sampling : Device → DeviceCall (Unit {0})
  unfolding set_mode
  start_sampling d = set_mode 0x01 d

  unfoldable pub stop_sampling : Device → DeviceCall (Unit {0})
  unfolding set_mode
  stop_sampling d =
      then_do (set_mode 0x02 d)
        (λ d x. (record d { sampling_requested = false; discard_requested = true }, ok tt))

  -- `get<K>`, with the decoder of the key.
  unfoldable pub get_key : {A : Type 0} → ℕ → (List ℕ → Result KeyError A) → Device → DeviceCall A
  unfolding inquire
  get_key key decode d = then_do (inquire d (key ∷ [])) (λ d r. (
    d,
    (elim (find_key r.values key) [
      | none ↦ err (key_error decode_failed key)
      | some raw ↦ or_fail (λ e. key_error decode_failed key) (decode raw)
    ]),
  ))

  unfoldable pub identity : Device → DeviceCall DeviceIdentity
  unfolding inquire
  identity d =
      then_do (inquire d identity_keys)
        (λ d r. (d, or_fail (λ e. device_error decode_failed) (decode_identity r.values)))

  -- With the wall clock at its end.
  unfoldable pub status : Device → DeviceCall LidarStatus
  unfolding inquire
  status d = then_do (inquire d status_keys) (λ d r. (d, at_time env.time (decode_status r.values)))

-- The key that `settings` drops: the LiDAR refused it as unknown.
abbrev pub is_rejected : SessionErrorKind → Bool
is_rejected lidar_rejected = true
is_rejected _ = false

unfoldable pub unknown_key : DeviceError → Option ℕ
unknown_key e = elim e.session [
  | none ↦ none
  | some s ↦
      if is_rejected s.kind && (s.ret_code == ret_param_not_support) then some s.error_key else none
]

-- `std::ranges::find` and `erase`: the list without the first such key, if there is one.
unfoldable pub erase_key : ℕ → List ℕ → Option (List ℕ)
erase_key k [] = none
erase_key k (x ∷ xs) =
    let rest : Option (List ℕ) = elim (erase_key k xs) [ none ↦ none | some ys ↦ some (x ∷ ys) ] in
    if x == k then some xs else rest

abbrev pub without : Option ℕ → List ℕ → Option (List ℕ)
without none keys = none
without (some k) keys = erase_key k keys

-- How the loop of `settings` goes on after an inquiry.
unfoldable pub judge :
    List ℕ
    → DeviceCall InquireResult
    → (Device → List ℕ → Option (DeviceCall LidarSettings))
    → Option (DeviceCall LidarSettings)
judge keys (d, ok r) again =
    some (d, or_fail (λ e. device_error decode_failed) (decode_settings r.values))
judge keys (d, fault) again = some (d, fault)
judge keys (d, err e) again = elim (without (unknown_key e) keys) [
  | none ↦ some (d, err e)
  | some fewer ↦ again d fewer
]

module _ (options : CommandOptions) (envs : ℕ → CommandEnv) where
  -- The loop of `settings`, with the rounds left; `none` means that they ran out.
  unfoldable pub settings_from : ℕ → ℕ → List ℕ → Device → Option (DeviceCall LidarSettings)
  unfolding judge
  settings_from zero round keys d = none
  settings_from (suc n) round keys d =
      judge keys (inquire options (envs round) d keys)
        (λ d fewer. settings_from n (suc round) fewer d)

  unfoldable pub settings : Device → Option (DeviceCall LidarSettings)
  unfolding settings_from
  settings d = settings_from (suc (length settings_keys)) 0 settings_keys d
