-- ===== src/Session/Request.antt =====
-- src/session.cpp, Session::request: the attempts, the waits, and the datagrams read after each.
--
-- What the sockets, the clock and other threads do is an argument: for each attempt whether a
-- cancellation is seen before it, how the send ends, and what each wait up to the deadline brings.
-- The frames sent are collected in the state, in order.
pub mod Answers
pub mod Waits
pub mod Outcome
pub mod Quiet
use livox_mid360_core.Prelude.{
  ℕ, zero, suc, ◌+◌, ◌-◌, ◌%◌, ◌^◌, max, List, [], ◌∷◌, ◌++◌, Bool, true, false, ltb, ◌==◌,
  if◌then◌else◌, Option, none, some, Result, ok, err, fault,
}
use livox_mid360_core.Prelude.Int.{pos}
use livox_mid360_core.Protocol.CommandFrame.{build_command_frame}
use livox_mid360_core.Protocol.Types.{CommandFrameSpec, cmd_type_req, sender_host}
use livox_mid360_core.Transport.{Endpoint, TransportError, Datagram, message_too_long}
use livox_mid360_core.Session.Types.{
  SessionError, error_of, transport_error, cancelled, timeout, SessionStats, count_up, RawAck,
}
use livox_mid360_core.Session.Acks.{AckMismatch, bad_frame, not_ack, late, match_ack}

-- One wait: it fails, or it ends, maybe with a cancellation, and datagrams can be read.
pub data Wait : Type 0 where
  wait_failed : TransportError → Wait
  woke : Bool → List Datagram → Wait

-- The waits are those before the deadline.
pub record Attempt : Type 0 where
  pub stopped : Bool
  pub send_failed : Option TransportError
  pub waits : List Wait

-- The fields of `Session` that the calls read or change, and the frames sent.
pub record Session : Type 0 where
  pub lidar : Endpoint
  pub default_attempts : ℕ
  pub stats : SessionStats
  pub serial : List ℕ
  pub next_seq : ℕ
  pub sent : List (List ℕ × Endpoint)

-- A call leaves the session and its result. `ok none` goes on.
abbrev pub Call {ℓ} : Type ℓ → Type ℓ
Call A = Session × Result SessionError A

unfoldable pub count_mismatch : AckMismatch → SessionStats → SessionStats
count_mismatch bad_frame s = record s { bad_frames = count_up s.bad_frames }
count_mismatch late s = record s { late_acks = count_up s.late_acks }
count_mismatch not_ack s = s

abbrev pub count_in : AckMismatch → Session → Session
count_in e s = record s { stats = count_mismatch e s.stats }

-- The innermost loop: datagrams are read until one is the acknowledgement.
unfoldable pub read_datagrams : ℕ → ℕ → List Datagram → Session → Call (Option RawAck)
read_datagrams seq cmd_id [] s = (s, ok none)
read_datagrams seq cmd_id (d ∷ ds) s = elim (match_ack d.bytes d.from seq cmd_id s.lidar.ip) [
  | ok view ↦ (s, ok (some (record { cmd_id = cmd_id; seq_num = seq; payload = view.payload })))
  | err e ↦ read_datagrams seq cmd_id ds (count_in e s)
  | fault ↦ (s, fault)
]

-- An acknowledgement or an error returns from the loop around, otherwise it goes on.
abbrev pub go_on {ℓ} :
    {A : Type ℓ} → (RawAck → A) → Call (Option RawAck) → (Session → Call A) → Call A
go_on result (s, ok none) k = k s
go_on result (s, ok (some a)) k = (s, ok (result a))
go_on result (s, err e) k = (s, err e)
go_on result (s, fault) k = (s, fault)

-- The waits of one attempt. With none left the deadline is over.
unfoldable pub await_ack : ℕ → ℕ → ℕ → List Wait → Session → Call (Option RawAck)
await_ack seq cmd_id attempt [] s = (s, ok none)
await_ack seq cmd_id attempt (wait_failed e ∷ ws) s = (s, err (transport_error e cmd_id attempt))
await_ack seq cmd_id attempt (woke true ds ∷ ws) s = (s, err (error_of cancelled cmd_id attempt))
await_ack seq cmd_id attempt (woke false ds ∷ ws) s =
    go_on some (read_datagrams seq cmd_id ds s) (λ s'. await_ack seq cmd_id attempt ws s')

-- `++stats_.retries` on every attempt but the first.
abbrev pub retry_stats : ℕ → SessionStats → SessionStats
retry_stats attempt stats =
    if ltb 1 attempt then record stats { retries = count_up stats.retries } else stats

abbrev pub count_retry : ℕ → Session → Session
count_retry attempt s = record s { stats = retry_stats attempt s.stats }

abbrev pub send_frame : List ℕ → Session → Session
send_frame frame s = record s { sent = s.sent ++ ((frame, s.lidar) ∷ []) }

-- One attempt, up to its deadline.
unfoldable pub try_once : ℕ → ℕ → List ℕ → ℕ → Attempt → Session → Call (Option RawAck)
try_once seq cmd_id frame attempt a s = elim a.stopped [
  | true ↦ (s, err (error_of cancelled cmd_id (attempt - 1)))
  | false ↦ elim a.send_failed [
    | some e ↦ (count_retry attempt s, err (transport_error e cmd_id attempt))
    | none ↦ await_ack seq cmd_id attempt a.waits (send_frame frame (count_retry attempt s))
  ]
]

-- The loop over the attempts, with those left and the number of the next one, which is taken not to
-- wrap. After the last, `attempt - 1` is `attempts`.
unfoldable pub attempts_from : ℕ → ℕ → List ℕ → ℕ → ℕ → (ℕ → Attempt) → Session → Call RawAck
attempts_from seq cmd_id frame zero attempt env s = (
  record s { stats = record s.stats { timeouts = count_up s.stats.timeouts } },
  err (error_of timeout cmd_id (attempt - 1)),
)
attempts_from seq cmd_id frame (suc n) attempt env s =
    go_on (λ a. a) (try_once seq cmd_id frame attempt (env attempt) s)
      (λ s'. attempts_from seq cmd_id frame n (suc attempt) env s')

-- `next_seq_++`, which skips 0.
abbrev pub seq_after : ℕ → ℕ
seq_after n = let next = (n + 1) % 2 ^ 32 in if next == 0 then 1 else next

abbrev pub begin_request : Session → Session
begin_request s = record s {
  next_seq = seq_after s.next_seq;
  stats = record s.stats { requests = count_up s.stats.requests };
}

abbrev pub request_spec : ℕ → ℕ → List ℕ → CommandFrameSpec
request_spec seq cmd_id payload = record {
  seq_num = seq;
  cmd_id = cmd_id;
  cmd_type = cmd_type_req;
  sender_type = sender_host;
  payload = payload;
}

-- `attempts` is that of the options given, else of the session's.
abbrev pub attempts_of : Option ℕ → Session → ℕ
attempts_of none s = max s.default_attempts 1
attempts_of (some n) s = max n 1

unfoldable pub request : ℕ → List ℕ → Option ℕ → (ℕ → Attempt) → Session → Call RawAck
request cmd_id payload opts env s =
    let seq = s.next_seq in
    let s' = begin_request s in
    elim (build_command_frame (request_spec seq cmd_id payload)) [
      | ok frame ↦ attempts_from seq cmd_id frame (attempts_of opts s) 1 env s'
      | err e ↦ (
        s',
        err (transport_error (record { code = message_too_long; errno_value = pos 0 }) cmd_id 0),
      )
      | fault ↦ (s', fault)
    ]
