-- ===== src/Device/Reconnect/Found.antt =====
-- Which device an attempt finds.
use livox_mid360_core.Prelude.{
  ℕ, ◌≡◌, refl, Bool-cases, Option-cases, inl, inr, if◌then◌else◌, List, [], ◌∷◌, Option, none,
  some, Result, ok, err, fault,
}
use livox_mid360_core.Protocol.Types.{cmd_param_inquire, truncated}
use livox_mid360_core.Keys.{find_key, key_sn}
use livox_mid360_core.Keys.Scalars.{decode_string}
use livox_mid360_core.Transport.{Endpoint, same_bytes, same_bytes_eq}
use livox_mid360_core.Session.Types.{
  SessionError, InquireResult, DiscoveredDevice, bad_response_error, error_of, bad_response,
}
use livox_mid360_core.Session.Request.{Session, Call, Attempt}
use livox_mid360_core.Session.Commands.{and_then, inquire, read_serial}
use livox_mid360_core.Session.Peer.{same_peer, inquire-KeepsPeer}
use livox_mid360_core.Session.Connect.{
  Opening, SessionOptions, open_session, new_session, keep_session, check_serial, connect_device,
}
use livox_mid360_core.Event.{DeviceError}
use livox_mid360_core.Device.Commands.{CommandOptions, Device}
use livox_mid360_core.Device.Reconnect.{
  ReconnectOptions, Search, AttemptEnv, find_serial, discover_by_serial, search_configured, pick,
  or_found, or_moved, search_moved, session_options, connected_to, connect_moved, find_again,
}

-- A device that is found has the serial number.
abbrev HasSerial : {E : Type 0} → List ℕ → Result E (Option DiscoveredDevice) → Type 0
HasSerial serial (ok (some f)) = f.serial_number ≡ serial
HasSerial serial _ = Unit {0}

-- A session with a device: it has read the serial number, at the address of the commands.
pub record IsSessionOf (f : DiscoveredDevice) (s : Session) : Type 0 where
  pub reads_serial : s.serial ≡ f.serial_number
  pub reaches : s.lidar ≡ record { ip = f.ip; port = f.cmd_port }

abbrev pub AnySession : {E : Type 0} → DiscoveredDevice → Result E Session → Type 0
AnySession f (ok s) = IsSessionOf f s
AnySession f _ = Unit {0}

-- What an attempt goes on with is the device with the serial number, and a session with it.
abbrev pub IsFound : List ℕ → Result DeviceError (DiscoveredDevice × Session) → Type 0
IsFound serial (ok (f, s)) = (f.serial_number ≡ serial) × IsSessionOf f s
IsFound serial _ = Unit {0}

find_serial-HasSerial :
    (serial : List ℕ) (found : List DiscoveredDevice)
    → HasSerial {E = SessionError} serial (ok (find_serial serial found))
unfolding find_serial
find_serial-HasSerial serial [] = tt
find_serial-HasSerial serial (f ∷ found) = elim (Bool-cases (same_bytes f.serial_number serial)) [
  | inl same ↦ rw same (same_bytes_eq f.serial_number serial same)
  | inr other ↦ rw other (find_serial-HasSerial serial found)
]

pick-HasSerial :
    (serial : List ℕ) (x : Result SessionError (List DiscoveredDevice))
    → HasSerial serial (pick serial x)
pick-HasSerial serial (ok found) = find_serial-HasSerial serial found
pick-HasSerial serial (err e) = tt
pick-HasSerial serial fault = tt

discover_by_serial-HasSerial :
    (serial : List ℕ) (targets : List Endpoint) (search : Search)
    → HasSerial serial (discover_by_serial serial targets search)
unfolding discover_by_serial
discover_by_serial-HasSerial serial targets search = pick-HasSerial serial _

or_found-HasSerial :
    (serial : List ℕ) (x y : Result SessionError (Option DiscoveredDevice))
    → HasSerial serial x
    → HasSerial serial y
    → HasSerial serial (or_found x y)
or_found-HasSerial serial (ok none) y v w = w
or_found-HasSerial serial (ok (some f)) y v w = v
or_found-HasSerial serial (err e) y v w = tt
or_found-HasSerial serial fault y v w = tt

-- A session that was checked is one with the device.
checked :
    (f : DiscoveredDevice) (x : Call (Unit {0}))
    → x.0.lidar ≡ record { ip = f.ip; port = f.cmd_port }
    → AnySession f (
        keep_session (
          and_then x (λ s' y. (
            s',
            (if same_bytes s'.serial f.serial_number
                then ok tt
                else err (error_of bad_response cmd_param_inquire 1)),
          ))))
checked f (s, ok y) h = elim (Bool-cases (same_bytes s.serial f.serial_number)) [
  | inl same ↦
      rw same (record { reads_serial = same_bytes_eq s.serial f.serial_number same; reaches = h })
  | inr other ↦ rw other tt
]
checked f (s, err e) h = tt
checked f (s, fault) h = tt

read_serial-lidar : (reads : ℕ → Attempt) (s : Session) → (read_serial reads s).0.lidar ≡ s.lidar
unfolding read_serial
read_serial-lidar reads s =
    taken (inquire none reads s (key_sn ∷ []))
      (inquire-KeepsPeer s none reads s (key_sn ∷ []) (same_peer s)).peer.same_lidar
  where
    taken :
        (x : Call InquireResult)
        → x.0.lidar ≡ s.lidar
        → (and_then {0, 0} {B = Unit {0}} x (λ s' r. elim (find_key r.values key_sn) [
          | none ↦ (s', err (bad_response_error truncated 0x0101 1))
          | some sn ↦ (record s' { serial = decode_string sn }, ok tt)
        ])).0.lidar
          ≡ s.lidar
    taken (s', ok r) h = number (find_key r.values key_sn)
      where
        number :
            (sn : Option (List ℕ))
            → (elim sn as (λ _. Call (Unit {0})) [
              | none ↦ (s', err (bad_response_error truncated 0x0101 1))
              | some sn ↦ (record s' { serial = decode_string sn }, ok tt)
            ]).0.lidar
              ≡ s.lidar
        number none = h
        number (some sn) = h
    taken (s', err e) h = h
    taken (s', fault) h = h

pub connect_device-AnySession :
    (f : DiscoveredDevice) (options : SessionOptions) (o : Opening) (reads : ℕ → Attempt)
    → AnySession f (connect_device f options o reads)
unfolding connect_device check_serial open_session
connect_device-AnySession f options o reads = elim (Option-cases o.socket_failed) [
  | inr (e, failed) ↦ rw failed tt
  | inl socket ↦ elim (Option-cases o.poller_failed) [
    | inr (e, failed) ↦ rw (socket, failed) tt
    | inl poller ↦ elim (Option-cases o.add_failed) [
      | inr (e, failed) ↦ rw (socket, poller, failed) tt
      | inl added ↦
          let s = new_session options (record { ip = f.ip; port = f.cmd_port }) in
          rw (socket, poller, added)
            (elim (Bool-cases options.verify_serial) [
              | inl verified ↦
                  rw verified (checked f (read_serial reads s) (read_serial-lidar reads s))
              | inr taken ↦ rw taken (record { reads_serial = refl; reaches = refl })
            ])
    ]
  ]
]

module _ (options : CommandOptions) (reconnect : ReconnectOptions) (env : AttemptEnv) where
  search_moved-HasSerial : (d : Device) → HasSerial d.serial (search_moved options reconnect env d)
  unfolding search_moved
  search_moved-HasSerial d =
      or_found-HasSerial d.serial _ _ (configured d.configured_ip)
        (discover_by_serial-HasSerial d.serial reconnect.discovery_targets env.by_targets)
    where
      configured :
          (ip : Option (List ℕ)) → HasSerial d.serial (search_configured options reconnect env d ip)
      configured none = tt
      configured (some ip) = elim (Bool-cases (same_bytes ip d.info.ip)) [
        | inl same ↦ rw same tt
        | inr other ↦ rw other (discover_by_serial-HasSerial d.serial _ env.by_ip)
      ]

  connected_to-IsFound :
      (serial : List ℕ) (f : DiscoveredDevice) (x : Result SessionError Session)
      → f.serial_number ≡ serial
      → AnySession f x
      → IsFound serial (connected_to options reconnect env f x)
  connected_to-IsFound serial f (ok s) h v = (h, v)
  connected_to-IsFound serial f (err e) h v = tt
  connected_to-IsFound serial f fault h v = tt

  connect_moved-IsFound :
      (serial : List ℕ) (e : SessionError) (x : Result SessionError (Option DiscoveredDevice))
      → HasSerial serial x
      → IsFound serial (connect_moved options reconnect env e x)
  connect_moved-IsFound serial e (ok none) v = tt
  connect_moved-IsFound serial e (ok (some f)) v = connected_to-IsFound serial f _ v (
      connect_device-AnySession f (session_options options reconnect env) env.second.opening
        env.second.reads)
  connect_moved-IsFound serial e (err e') v = tt
  connect_moved-IsFound serial e fault v = tt

  pub find_again-IsFound :
      (d : Device)
      → d.info.serial_number ≡ d.serial
      → IsFound d.serial (find_again options reconnect env d)
  unfolding find_again
  find_again-IsFound d h =
      first
        (connect_device d.info (session_options options reconnect env) env.first.opening
          env.first.reads)
        (connect_device-AnySession d.info (session_options options reconnect env) env.first.opening
          env.first.reads)
    where
      first :
          (x : Result SessionError Session)
          → AnySession d.info x
          → IsFound d.serial (or_moved options reconnect env d x)
      first (ok s) v = (h, v)
      first (err e) v = elim (Bool-cases env.stopping) [
        | inl stop ↦ rw stop tt
        | inr goes ↦ rw goes (connect_moved-IsFound d.serial e _ (search_moved-HasSerial d))
      ]
      first fault v = tt
