-- ===== src/Device/Commands/LogControl.antt =====
-- src/device.cpp: the commands on the log port, which start and stop the firmware log and the debug
-- data. Each holds `cmd_mutex`; their acknowledgements come over the receive thread.
pub mod Attempts
pub mod Hearing
pub mod Outcome
use livox_mid360_core.Prelude.{
  ℕ, zero, suc, ◌+◌, ◌-◌, ◌%◌, ◌^◌, max, ◌==◌, Bool, true, false, if◌then◌else◌, List, [], ◌∷◌,
  ◌++◌, replicate, Option, none, some, Result, ok, err, fault, ◌>>=◌,
}
use livox_mid360_core.Bytes.{subspan}
use livox_mid360_core.Protocol.Types.{
  CommandFrameView, EncodeError, cmd_type_req, sender_host, command_header_size, ret_success,
}
use livox_mid360_core.Protocol.CommandFrame.{encode_command_frame}
use livox_mid360_core.DebugData.{debug_data_control_size}
use livox_mid360_core.Transport.{Endpoint, TransportError}
use livox_mid360_core.Session.Types.{
  SessionError, error_of, transport_error, rejected, cancelled, timeout, bad_response,
}
use livox_mid360_core.Event.{session_failed}
use livox_mid360_core.Device.Log.{LogState, on_log_ack}
use livox_mid360_core.Device.Commands.{CommandOptions, Device, DeviceCall}

abbrev pub cmd_collection_log : ℕ
cmd_collection_log = 0x0301

abbrev pub cmd_debug_data_control : ℕ
cmd_debug_data_control = 0x0303

abbrev pub lidar_log_source_port : ℕ
lidar_log_source_port = 56500

-- One attempt: whether a cancellation or a stop is seen before it, how the send ends, the
-- acknowledgements that the receive thread reads until the wait ends, and a cancellation seen after it.
pub record LogAttempt : Type 0 where
  pub stopped : Bool
  pub send_failed : Option TransportError
  pub heard : List CommandFrameView
  pub interrupted : Bool

abbrev pub LogCall : Type 0 → Type 0
LogCall A = Device × Result SessionError A

-- The sequence number after `seq`; 0 is left out.
abbrev pub next_log_seq : ℕ → ℕ
next_log_seq seq = let n = (seq + 1) % 2 ^ 32 in if n == 0 then 1 else n

-- The hand-off is set up for the command.
unfoldable pub expect_ack : ℕ → ℕ → LogState → LogState
expect_ack cmd seq l = record l { cmd_wanted = cmd; seq_wanted = seq; ack = none; ack_bad = false }

-- The receive thread's side, one frame after the other.
unfoldable pub hear : List CommandFrameView → LogState → Result (Unit {0}) LogState
unfolding on_log_ack
hear [] l = ok l
hear (f ∷ fs) l = do l' ← on_log_ack f l; hear fs l'

-- What a wait comes to; `ok false` goes on with the next attempt.
unfoldable pub judge_log : ℕ → ℕ → Bool → LogState → Result SessionError Bool
judge_log cmd attempt interrupted l = elim l.ack [
  | some ret ↦ if ret == ret_success then ok true else err (rejected ret 0 cmd attempt)
  | none ↦
      if l.ack_bad
      then err (error_of bad_response cmd attempt)
      else if interrupted
      then err (error_of cancelled cmd attempt)
      else ok false
]

abbrev pub send_log_frame : List ℕ → Endpoint → Device → Device
send_log_frame frame to d = record d { log_sent = d.log_sent ++ ((frame, to) ∷ []) }

unfoldable pub try_log : ℕ → List ℕ → Endpoint → ℕ → LogAttempt → Device → LogCall Bool
unfolding hear judge_log
try_log cmd frame to attempt a d =
    if a.stopped then (d, err (error_of cancelled cmd (attempt - 1))) else elim a.send_failed [
      | some e ↦ (d, err (transport_error e cmd attempt))
      | none ↦ elim (hear a.heard d.log) [
        | ok l ↦
            (record (send_log_frame frame to d) { log = l }, judge_log cmd attempt a.interrupted l)
        | err e ↦ (d, fault)
        | fault ↦ (d, fault)
      ]
    ]

-- An attempt that is not acknowledged goes on with the next.
abbrev pub or_next : LogCall Bool → (Device → LogCall (Unit {0})) → LogCall (Unit {0})
or_next (d, ok true) k = (d, ok tt)
or_next (d, ok false) k = k d
or_next (d, err e) k = (d, err e)
or_next (d, fault) k = (d, fault)

-- The loop over the attempts, with those left and the number of the next one.
unfoldable pub log_attempts :
    ℕ → List ℕ → Endpoint → ℕ → (ℕ → LogAttempt) → ℕ → ℕ → Device → LogCall (Unit {0})
unfolding try_log
log_attempts cmd frame to most env zero attempt d = (d, err (error_of timeout cmd most))
log_attempts cmd frame to most env (suc n) attempt d =
    or_next (try_log cmd frame to attempt (env attempt) d)
      (λ d'. log_attempts cmd frame to most env n (suc attempt) d')

-- The bytes of the frame in a buffer for the larger of the two commands.
unfoldable pub log_frame : ℕ → ℕ → List ℕ → Result EncodeError (List ℕ)
log_frame cmd seq payload = do
  (buf, n) ←
      encode_command_frame (replicate (command_header_size + debug_data_control_size) 0) (record {
        seq_num = seq;
        cmd_id = cmd;
        cmd_type = cmd_type_req;
        sender_type = sender_host;
        payload = payload;
      })
  subspan buf 0 n

abbrev pub log_attempts_of : CommandOptions → Option ℕ → ℕ
log_attempts_of options none = max options.request_attempts 1
log_attempts_of options (some n) = max n 1

-- `send_log_control_locked`, with the attempts that its options ask for.
unfoldable pub send_log_control :
    ℕ → List ℕ → ℕ → ℕ → (ℕ → LogAttempt) → Device → LogCall (Unit {0})
unfolding log_attempts log_frame expect_ack
send_log_control cmd payload port most env d =
    let seq = d.log_next_seq in
    let d' = record d { log_next_seq = next_log_seq seq; log = expect_ack cmd seq d.log } in
    elim (log_frame cmd seq payload) [
      | ok frame ↦
          log_attempts cmd frame (record { ip = d.info.ip; port = port }) most env most 1 d'
      | err e ↦ (d', fault)
      | fault ↦ (d', fault)
    ]

abbrev pub log_wrapped : LogCall (Unit {0}) → DeviceCall (Unit {0})
log_wrapped (d, ok a) = (d, ok a)
log_wrapped (d, err e) = (d, err (session_failed e))
log_wrapped (d, fault) = (d, fault)
