-- ===== src/Device/Reconnect.antt =====
-- src/device.cpp: an attempt to find a lost LiDAR again, as the worker and `Device::reconnect` make it.
-- It holds `cmd_mutex`, and is one step here: what other threads do to the connection in between is in
-- Connection. The flags that `attempt` clears after a cancellation are those of the environment.
pub mod Found
pub mod Ends
pub mod Placed
use livox_mid360_core.Prelude.{
  ℕ, ◌&&◌, not, Bool, true, false, if◌then◌else◌, List, [], ◌∷◌, Option, none, some, Result, ok,
  err, fault,
}
use livox_mid360_core.Transport.{Endpoint, TransportError, same_bytes}
use livox_mid360_core.Session.Types.{SessionError, DiscoveredDevice}
use livox_mid360_core.Session.Request.{Attempt, Session}
use livox_mid360_core.Session.Connect.{Opening, SessionOptions, connect_device}
use livox_mid360_core.Session.Discover.{Round, discover}
use livox_mid360_core.Config.{SetupCalls, apply_host_setup}
use livox_mid360_core.Event.{DeviceError, device_error, session_failed, already_registered}
use livox_mid360_core.Context.{Context, rekey}
use livox_mid360_core.Device.Connection.{begin_attempt, finish_attempt, fail_attempt}
use livox_mid360_core.Device.Commands.{
  CommandOptions, CommandEnv, Device, DeviceCall, then_do, wrapped, set_mode_locked,
}
use livox_mid360_core.Device.Commands.Logging.{
  LogEnv, log_control_locked, debug_data_control_locked,
}

-- What an attempt reads of `ReconnectOptions`.
pub record ReconnectOptions : Type 0 where
  pub discovery_targets : List Endpoint
  pub discovery_port : ℕ

-- What one discovery meets.
pub record Search : Type 0 where
  pub opening : Opening
  pub sends : ℕ → Option TransportError
  pub rounds : List Round

-- What one connect meets.
pub record Connect : Type 0 where
  pub opening : Opening
  pub reads : ℕ → Attempt

-- What an attempt meets: the connect to the last address, whether a stop is seen when it failed, the
-- two searches, the second connect, the address of the new socket, the calls that replay the setup and
-- the modes, and both clocks at its end.
pub record AttemptEnv : Type 0 where
  pub first : Connect
  pub stopping : Bool
  pub by_ip : Search
  pub by_targets : Search
  pub second : Connect
  pub local_ip : List ℕ
  pub setup : SetupCalls
  pub mode : CommandEnv
  pub log0 : LogEnv
  pub log1 : LogEnv
  pub debug_data : LogEnv
  pub now : ℕ
  pub time : ℕ

-- `std::ranges::find_if` over the devices found.
unfoldable pub find_serial : List ℕ → List DiscoveredDevice → Option DiscoveredDevice
find_serial serial [] = none
find_serial serial (f ∷ found) =
    let rest = find_serial serial found in
    if same_bytes f.serial_number serial then some f else rest

abbrev pub pick :
    List ℕ
    → Result SessionError (List DiscoveredDevice)
    → Result SessionError (Option DiscoveredDevice)
pick serial (ok found) = ok (find_serial serial found)
pick serial (err e) = err e
pick serial fault = fault

unfoldable pub discover_by_serial :
    List ℕ → List Endpoint → Search → Result SessionError (Option DiscoveredDevice)
unfolding find_serial
discover_by_serial serial targets search = pick serial (
    discover (record { targets = targets; wanted_type = none }) search.opening search.sends
      search.rounds)

-- The first result, or the second when the first found nothing.
abbrev pub or_found {ℓ} :
    {A : Type ℓ}
    → Result SessionError (Option A)
    → Result SessionError (Option A)
    → Result SessionError (Option A)
or_found (ok none) rest = rest
or_found (ok (some a)) rest = ok (some a)
or_found (err e) rest = err e
or_found fault rest = fault

module _ (options : CommandOptions) (reconnect : ReconnectOptions) (env : AttemptEnv) where
  -- `session_options`, with which reconnects verify the serial number.
  abbrev pub session_options : SessionOptions
  session_options = record { verify_serial = true; request_attempts = options.request_attempts }

  -- The search at the address that was configured, unless it is the last one.
  abbrev pub search_configured :
      Device → Option (List ℕ) → Result SessionError (Option DiscoveredDevice)
  search_configured d none = ok none
  search_configured d (some ip) =
      if same_bytes ip d.info.ip
      then ok none
      else discover_by_serial d.serial (record { ip = ip; port = reconnect.discovery_port } ∷ [])
          env.by_ip

  -- The search for the device, at that address first.
  unfoldable pub search_moved : Device → Result SessionError (Option DiscoveredDevice)
  search_moved d =
      or_found (search_configured d d.configured_ip)
        (discover_by_serial d.serial reconnect.discovery_targets env.by_targets)

  -- A session to `target`, wrapped.
  abbrev pub connected_to :
      DiscoveredDevice
      → Result SessionError Session
      → Result DeviceError (DiscoveredDevice × Session)
  connected_to target (ok s) = ok (target, s)
  connected_to target (err e) = err (session_failed e)
  connected_to target fault = fault

  -- After the connect to the last address failed with `e`.
  abbrev pub connect_moved :
      SessionError
      → Result SessionError (Option DiscoveredDevice)
      → Result DeviceError (DiscoveredDevice × Session)
  connect_moved e (err e') = err (session_failed e')
  connect_moved e fault = fault
  connect_moved e (ok none) = err (session_failed e)
  connect_moved e (ok (some moved)) =
      connected_to moved (connect_device moved session_options env.second.opening env.second.reads)

  -- After the connect to the last address.
  abbrev pub or_moved :
      Device → Result SessionError Session → Result DeviceError (DiscoveredDevice × Session)
  or_moved d (ok s) = ok (d.info, s)
  or_moved d (err e) =
      if env.stopping then err (session_failed e) else connect_moved e (search_moved d)
  or_moved d fault = fault

  -- The steps 1 and 2: the last known address, then discovery.
  unfoldable pub find_again : Device → Result DeviceError (DiscoveredDevice × Session)
  unfolding search_moved
  find_again d =
      or_moved d (connect_device d.info session_options env.first.opening env.first.reads)

  -- The options, with the address of the new socket.
  abbrev pub moved_options : CommandOptions
  moved_options = record options { local_ip = env.local_ip }

  -- A call under a flag.
  abbrev pub when : Bool → Device → DeviceCall (Unit {0}) → DeviceCall (Unit {0})
  when requested d call = if requested then call else (d, ok tt)

  -- What the LiDAR did before: its setup, the sampling, the two logs and the debug data.
  unfoldable pub restore : Device → DeviceCall (Unit {0})
  restore d =
      then_do
        (wrapped moved_options env.mode d
          (apply_host_setup env.setup none env.local_ip d.setup d.session))
        (λ d x.
          then_do
            (when d.sampling_requested d
              (set_mode_locked moved_options (record env.mode { opts = none }) 0x01 d))
            (λ d x.
              then_do
                (when d.log_requested0 d (log_control_locked moved_options none env.log0 0 true d))
                (λ d x.
                  then_do
                    (when d.log_requested1 d
                      (log_control_locked moved_options none env.log1 1 true d))
                    (λ d x.
                      when d.debug_data_requested d
                        (debug_data_control_locked moved_options none env.debug_data true d)))))

  -- The end of an attempt whose device has a session.
  abbrev pub settled :
      Context → DeviceCall (Unit {0}) → Device × Context × Result DeviceError (Unit {0})
  settled c (d, ok x) =
      (record d { connection = finish_attempt env.now env.time d.connection }, c, ok tt)
  settled c (d, err e) = (record d { connection = fail_attempt d.connection }, c, err e)
  settled c (d, fault) = (record d { connection = fail_attempt d.connection }, c, fault)

  -- The registry is asked before the device takes the session.
  abbrev pub adopt :
      DiscoveredDevice
      → Session
      → Device
      → Context × Bool
      → Device × Context × Result DeviceError (Unit {0})
  adopt target s d (c, true) = settled c (restore (record d { info = target; session = s }))
  adopt target s d (c, false) = settled c (d, err (device_error already_registered))

  abbrev pub go_to :
      ℕ
      → Device
      → Context
      → Result DeviceError (DiscoveredDevice × Session)
      → Device × Context × Result DeviceError (Unit {0})
  go_to receiver d c (ok (target, s)) = adopt target s d (rekey receiver target.ip c)
  go_to receiver d c (err e) = settled c (d, err e)
  go_to receiver d c fault = settled c (d, fault)

  -- `attempt_locked` of the device whose receiver is `receiver`.
  unfoldable pub attempt_locked :
      ℕ → Device → Context → Device × Context × Result DeviceError (Unit {0})
  unfolding find_again restore
  attempt_locked receiver d c =
      if d.connection.connected
      then (d, c, ok tt)
      else let d' : Device = record d { connection = begin_attempt d.connection } in
        go_to receiver d' c (find_again d')
