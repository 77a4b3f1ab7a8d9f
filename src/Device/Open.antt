-- ===== src/Device/Open.antt =====
-- src/device.cpp: opening a device. Addresses to bind and the stop token belong to the sockets, and the
-- receive thread's state starts in Streams and Push.
pub mod Registers
use livox_mid360_core.Prelude.{
  ℕ, not, ◌||◌, Bool, true, false, if◌then◌else◌, List, [], Option, none, some, Result, ok, err,
  fault,
}
use livox_mid360_core.Prelude.Int.{ℤ, pos, ltb_ℤ}
use livox_mid360_core.Session.Types.{SessionError, DiscoveredDevice}
use livox_mid360_core.Session.Request.{Session, Call}
use livox_mid360_core.Session.Connect.{SessionOptions, connect_device}
use livox_mid360_core.Config.{HostSetup, HostSetupResult, SetupCalls, apply_host_setup}
use livox_mid360_core.Event.{
  DeviceError, device_error, session_failed, invalid_argument, already_registered,
}
use livox_mid360_core.Context.{
  Context, AddResult, added, duplicate_ip, duplicate_serial, bind, begin_remove,
}
use livox_mid360_core.Context
use livox_mid360_core.Device.Connection.{opened}
use livox_mid360_core.Device.Log.{new_log}
use livox_mid360_core.Device.Commands.{Device}
use livox_mid360_core.Device.Reconnect.{Connect}

-- What `open` reads of `DeviceOptions`, durations as their counts, and of `ContextOptions`.
pub record OpenOptions : Type 0 where
  pub host_setup : HostSetup
  pub session : SessionOptions
  pub window : ℤ
  pub stats_interval : ℤ
  pub push_timeout : ℤ
  pub initial_backoff : ℤ
  pub max_backoff : ℤ
  pub discovery_timeout : ℤ
  pub push_port : ℕ
  pub point_port : ℕ
  pub imu_port : ℕ

-- What `open` meets: the connect, the address of the socket, the calls that write the setup, and the
-- steady clock at its end.
pub record OpenEnv : Type 0 where
  pub connect : Connect
  pub local_ip : List ℕ
  pub setup : SetupCalls
  pub now : ℕ

abbrev pub is_positive : ℤ → Bool
is_positive n = ltb_ℤ (pos 0) n

-- A value that `open` refuses.
unfoldable pub refuses : OpenOptions → Bool
refuses o =
    not (is_positive o.window)
    || ltb_ℤ o.stats_interval (pos 0)
    || not (is_positive o.push_timeout)
    || not (is_positive o.initial_backoff)
    || ltb_ℤ o.max_backoff o.initial_backoff
    || not (is_positive o.discovery_timeout)

-- The setup with the ports of the context, and without a mode.
abbrev pub opening_setup : OpenOptions → HostSetup
opening_setup o = record o.host_setup {
  push_port = o.push_port;
  point_port = o.point_port;
  imu_port = o.imu_port;
  work_tgt_mode = none;
}

abbrev pub new_device : DiscoveredDevice → HostSetup → Session → ℕ → Device
new_device found setup s now = record {
  serial = found.serial_number;
  session = s;
  connection = opened now;
  setup = setup;
  info = found;
  configured_ip = none;
  sampling_requested = false;
  discard_requested = false;
  log_requested0 = false;
  log_requested1 = false;
  debug_data_requested = false;
  log_next_seq = 1;
  log = new_log;
  log_sent = [];
}

-- The receiver and the device are the numbers of the two new objects.
module _ (options : OpenOptions) (env : OpenEnv) (receiver handle : ℕ)
    (found : DiscoveredDevice) where
  -- After `apply_host_setup`; `remove` is its first half here.
  abbrev pub set_up : Context → Call HostSetupResult → Context × Result DeviceError Device
  set_up c (s, ok r) =
      (bind receiver handle c, ok (new_device found (opening_setup options) s env.now))
  set_up c (s, err e) = ((begin_remove receiver c).0, err (session_failed e))
  set_up c (s, fault) = (c, fault)

  -- After `add`.
  abbrev pub registered : Session → Context × AddResult → Context × Result DeviceError Device
  registered s (c, added) =
      set_up c (apply_host_setup env.setup none env.local_ip (opening_setup options) s)
  registered s (c, duplicate_ip) = (c, err (device_error already_registered))
  registered s (c, duplicate_serial) = (c, err (device_error already_registered))

  -- After the connect.
  abbrev pub after_connect :
      Context → Result SessionError Session → Context × Result DeviceError Device
  after_connect c (ok s) = registered s (Context.add found.ip found.serial_number receiver c)
  after_connect c (err e) = (c, err (session_failed e))
  after_connect c fault = (c, fault)

  -- `Device::open`.
  unfoldable pub open_device : Context → Context × Result DeviceError Device
  unfolding refuses
  open_device c =
      if refuses options
      then (c, err (device_error invalid_argument))
      else after_connect c
          (connect_device found options.session env.connect.opening env.connect.reads)
