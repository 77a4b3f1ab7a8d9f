-- ===== src/Session/Connect.antt =====
-- src/session.cpp: connecting, and the wait for a working state.
use livox_mid360_core.Prelude.{
  ℕ, List, [], ◌∷◌, ◌==◌, ◌||◌, Bool, true, false, Option, none, some, if◌then◌else◌, Result, ok,
  err, fault,
}
use livox_mid360_core.Protocol.Types.{cmd_param_inquire, work_state_error, work_state_upgrade}
use livox_mid360_core.Transport.{Endpoint, TransportError, Datagram, same_bytes}
use livox_mid360_core.Session.Types.{
  SessionError, error_of, transport_error, bad_response, cancelled, timeout, unexpected_state,
  count_up, DiscoveredDevice,
}
use livox_mid360_core.Session.Request.{Wait, wait_failed, woke, Attempt, Session, Call}
use livox_mid360_core.Session.Commands.{and_then, work_state, read_serial}

-- How opening the socket, creating the poller and registering the socket end.
pub record Opening : Type 0 where
  pub socket_failed : Option TransportError
  pub poller_failed : Option TransportError
  pub add_failed : Option TransportError

-- What `open` and `connect` read of `SessionOptions`; the addresses to bind go to the socket.
pub record SessionOptions : Type 0 where
  pub verify_serial : Bool
  pub request_attempts : ℕ

abbrev pub new_session : SessionOptions → Endpoint → Session
new_session options lidar = record {
  lidar = lidar;
  default_attempts = options.request_attempts;
  stats = record { requests = 0; retries = 0; timeouts = 0; late_acks = 0; bad_frames = 0 };
  serial = [];
  next_seq = 1;
  sent = [];
}

unfoldable pub open_session : Opening → SessionOptions → Endpoint → Result SessionError Session
open_session o options lidar = elim o.socket_failed [
  | some e ↦ err (transport_error e 0 0)
  | none ↦ elim o.poller_failed [
    | some e ↦ err (transport_error e 0 0)
    | none ↦ elim o.add_failed [
      | some e ↦ err (transport_error e 0 0)
      | none ↦ ok (new_session options lidar)
    ]
  ]
]

-- The result of the call, with the session when it succeeds.
abbrev pub keep_session : Call (Unit {0}) → Result SessionError Session
keep_session (s, ok tt) = ok s
keep_session (s, err e) = err e
keep_session (s, fault) = fault

-- `verify_serial` is off: the serial number found is taken.
unfoldable pub check_serial :
    DiscoveredDevice → SessionOptions → (ℕ → Attempt) → Session → Call (Unit {0})
check_serial device options env s = elim options.verify_serial [
  | true ↦ and_then (read_serial env s) (λ s' x. (
    s',
    (if same_bytes s'.serial device.serial_number
        then ok tt
        else err (error_of bad_response cmd_param_inquire 1)),
  ))
  | false ↦ (record s { serial = device.serial_number }, ok tt)
]

-- `Session::connect` to a device that was found.
unfoldable pub connect_device :
    DiscoveredDevice → SessionOptions → Opening → (ℕ → Attempt) → Result SessionError Session
unfolding check_serial
connect_device device options o env =
    elim (open_session o options (record { ip = device.ip; port = device.cmd_port })) [
      | ok s ↦ keep_session (check_serial device options env s)
      | err e ↦ err e
      | fault ↦ fault
    ]

-- `Session::connect` to an address.
unfoldable pub connect_endpoint :
    Endpoint → SessionOptions → Opening → (ℕ → Attempt) → Result SessionError Session
connect_endpoint cmd_endpoint options o env = elim (open_session o options cmd_endpoint) [
  | ok s ↦ keep_session (read_serial env s)
  | err e ↦ err e
  | fault ↦ fault
]

-- The polls of `wait_for_state`: what each inquiry meets, and the wait after it. The deadline is
-- over after the last.
pub data Polls : Type 0 where
  last_poll : (ℕ → Attempt) → Polls
  next_poll : (ℕ → Attempt) → Wait → Polls → Polls

-- Each stray datagram is counted.
unfoldable pub count_strays : List Datagram → Session → Session
count_strays [] s = s
count_strays (d ∷ ds) s =
    count_strays ds (record s { stats = record s.stats { late_acks = count_up s.stats.late_acks } })

abbrev pub is_stuck : ℕ → Bool
is_stuck ws = (ws == work_state_error) || (ws == work_state_upgrade)

-- A state that ends the wait, or else `rest`.
abbrev pub judge_state : ℕ → ℕ → Session → Call (Unit {0}) → Call (Unit {0})
judge_state target ws s rest =
    if ws == target
    then (s, ok tt)
    else if is_stuck ws
    then (s, err (record (error_of unexpected_state cmd_param_inquire 0) { work_state = some ws }))
    else rest

unfoldable pub wait_for_state : ℕ → Polls → Session → Call (Unit {0})
wait_for_state target (last_poll env) s = and_then (work_state none env s) (λ s' ws.
    judge_state target ws s'
      (s', err (record (error_of timeout cmd_param_inquire 0) { work_state = some ws })))
wait_for_state target (next_poll env (wait_failed e) rest) s =
    and_then (work_state none env s)
      (λ s' ws. judge_state target ws s' (s', err (transport_error e cmd_param_inquire 0)))
wait_for_state target (next_poll env (woke true ds) rest) s =
    and_then (work_state none env s)
      (λ s' ws. judge_state target ws s' (s', err (error_of cancelled cmd_param_inquire 0)))
wait_for_state target (next_poll env (woke false ds) rest) s =
    and_then (work_state none env s)
      (λ s' ws. judge_state target ws s' (wait_for_state target rest (count_strays ds s')))
