-- ===== src/Device/Commands/LogControl/Outcome.antt =====
-- How a command on the log port ends.
use mathlib.Core.List.{append-nil}
use livox_mid360_core.Prelude.{
  ℕ, ◌+◌, ◌≤◌, ◌≡◌, refl, ap, List, ◌++◌, length, replicate, Result, ok, arith, subst, take,
  take-append, drop, length-append,
}
use livox_mid360_core.Protocol.Types.{EncodeError, CommandFrameSpec, cmd_type_req, sender_host}
use livox_mid360_core.Protocol.CommandFrame.Encode.{frame_wire, encode_command_frame_lem}
use livox_mid360_core.Bytes.Laws.{subspan_ok}
use livox_mid360_core.Transport.{Endpoint}
use livox_mid360_core.Session.Types.{SessionError}
use livox_mid360_core.Device.Log.{LogState}
use livox_mid360_core.Device.Commands.{Device}
use livox_mid360_core.Device.Commands.LogControl.{
  LogAttempt, next_log_seq, expect_ack, log_attempts, log_frame, send_log_control,
}
use livox_mid360_core.Device.Commands.LogControl.Hearing.{IsWaiting}
use livox_mid360_core.Device.Commands.LogControl.Attempts.{
  Outcome, after_log_sends, Ends, log_attempts-Ends,
}

-- The fields of the frame of a command.
abbrev pub log_spec : ℕ → ℕ → List ℕ → CommandFrameSpec
log_spec cmd seq payload = record {
  seq_num = seq;
  cmd_id = cmd;
  cmd_type = cmd_type_req;
  sender_type = sender_host;
  payload = payload;
}

front : (xs ys : List ℕ) (n : ℕ) → length xs ≡ n → take n (xs ++ ys) ≡ xs
front xs ys n h = rw (← h) (take-append xs ys)

log_frame-frame_wire :
    (cmd seq : ℕ) (payload : List ℕ)
    → length payload ≤ 9
    → log_frame cmd seq payload ≡ ok (frame_wire (log_spec cmd seq payload))
unfolding log_frame
log_frame-frame_wire cmd seq payload h =
    let spec = log_spec cmd seq payload in
    let buf : List ℕ = replicate 33 0 in
    let n : length (frame_wire spec) ≡ 24 + length payload = omega arith in
    let room : 0 + (24 + length payload)
        ≤ length (frame_wire spec ++ drop (24 + length payload) buf) =
      omega (arith, n, length-append (frame_wire spec) (drop (24 + length payload) buf)) in
    rw
      (
        encode_command_frame_lem buf spec (omega (arith, h)) (omega (arith, h)),
        subspan_ok {E = EncodeError} (frame_wire spec ++ drop (24 + length payload) buf) 0
            (24 + length payload) room,
      )
      (ap ok (front (frame_wire spec) (drop (24 + length payload) buf) (24 + length payload) n))

-- What the command leaves: `k` sends of its frame from the device with the next number, and its result.
abbrev pub LogEnds : ℕ → List ℕ → ℕ → ℕ → (ℕ → LogAttempt) → Device → Type 0
LogEnds cmd payload port most env d =
    (k : ℕ) × (l : LogState) × (r : Result SessionError (Unit {0})) × (send_log_control cmd payload
        port most env d
      ≡ (
        after_log_sends (frame_wire (log_spec cmd d.log_next_seq payload))
            (record { ip = d.info.ip; port = port }) k l
            (record d { log_next_seq = next_log_seq d.log_next_seq }),
        r,
      ))
    × Outcome cmd d.log_next_seq most env k r

-- Whatever the log socket, the receive thread and other threads do, a command of at most 9 bytes ends
-- without a fault: the same frame is sent at most once per attempt, to the LiDAR, and the first
-- acknowledgement with its command and its sequence number that is heard decides it, also over
-- several attempts. Without one it ends by a cancellation or an error with its cause, or times out
-- after all attempts.
pub send_log_control_outcome :
    (cmd : ℕ) (payload : List ℕ) (port most : ℕ) (env : ℕ → LogAttempt) (d : Device)
    → length payload ≤ 9
    → LogEnds cmd payload port most env d
unfolding send_log_control expect_ack
send_log_control_outcome cmd payload port most env d h =
    let seq = d.log_next_seq in
    let frame = frame_wire (log_spec cmd seq payload) in
    let to : Endpoint = record { ip = d.info.ip; port = port } in
    let d' : Device = record d { log_next_seq = next_log_seq seq } in
    let waiting : IsWaiting cmd seq (expect_ack cmd seq d.log) = record {
      for_cmd = refl;
      for_seq = refl;
      no_ack = refl;
      not_bad = refl;
    } in
    rw (log_frame-frame_wire cmd seq payload h, send_log_control)
      (subst
        (λ (sent : List (List ℕ × Endpoint)). Ends cmd seq frame to most env d' (
          log_attempts cmd frame to most env most 1
            (record d' { log = expect_ack cmd seq d.log; log_sent = sent })))
        (append-nil d.log_sent)
        (log_attempts-Ends cmd seq frame to most env d' most 0 (expect_ack cmd seq d.log)
          (omega arith) waiting (λ i p q. absurd (omega arith))))
