-- ===== src/Device/Log.antt =====
-- src/device.cpp, `on_log`: the datagrams of the log port.
pub mod Gaps
use livox_mid360_core.Prelude.{
  ℕ, ◌+◌, ◌%◌, ◌^◌, ◌==◌, ◌&&◌, ◌||◌, not, Bool, true, false, if◌then◌else◌, List, [], ◌∷◌, ◌++◌,
  length, replicate, Option, none, some, Result, ok, err, fault, ◌>>=◌,
}
use livox_mid360_core.Protocol.Types.{
  CommandFrameView, CommandFrameSpec, EncodeError, cmd_type_req, cmd_type_ack, sender_host,
  command_header_size, ret_success,
}
use livox_mid360_core.Protocol.CommandFrame.{parse_command_frame, encode_command_frame}
use livox_mid360_core.Protocol.Acks.{parse_simple_ack}
use livox_mid360_core.FirmwareLog.{
  FirmwareLogPushHeader, FirmwareLogPushView, parse_firmware_log_push, encode_firmware_log_push_ack,
  firmware_log_push_ack_size, ack_requested, file_begin, file_end,
}
use livox_mid360_core.Session.Types.{count_up}
use livox_mid360_core.Transport.{Endpoint}
use livox_mid360_core.Event.{Event, firmware_log_gap}

abbrev pub cmd_push_log : ℕ
cmd_push_log = 0x0300

pub record LogTrack : Type 0 where
  pub active : Bool
  pub file_index : ℕ
  pub last_trans : ℕ

abbrev pub no_file : LogTrack
no_file = record { active = false; file_index = 0; last_trans = 0 }

-- The tracks of the two log types, the hand-off to a command that waits, and the counters.
pub record LogState : Type 0 where
  pub track0 : LogTrack
  pub track1 : LogTrack
  pub cmd_wanted : ℕ
  pub seq_wanted : ℕ
  pub ack : Option ℕ
  pub ack_bad : Bool
  pub ack_seq : ℕ
  pub chunks : ℕ
  pub bytes : ℕ
  pub gaps : ℕ
  pub acks_sent : ℕ
  pub bad_packets : ℕ
  pub last_time_ns : ℕ

-- Before the first datagram.
abbrev pub new_log : LogState
new_log = record {
  track0 = no_file;
  track1 = no_file;
  cmd_wanted = 0;
  seq_wanted = 0;
  ack = none;
  ack_bad = false;
  ack_seq = 1;
  chunks = 0;
  bytes = 0;
  gaps = 0;
  acks_sent = 0;
  bad_packets = 0;
  last_time_ns = 0;
}

-- What a datagram leaves: the state, the events, the acknowledgement that was sent to the LiDAR, and
-- the chunk for the callback.
pub record LogOutcome : Type 0 where
  pub state : LogState
  pub events : List Event
  pub sent : List (List ℕ × Endpoint)
  pub chunk : Option FirmwareLogPushView

abbrev pub quiet : LogState → LogOutcome
quiet s = record { state = s; events = []; sent = []; chunk = none }

abbrev pub expected_trans : LogTrack → ℕ
expected_trans t = (t.last_trans + 1) % 2 ^ 32

-- A push against the track of its type. `time` is the wall clock.
unfoldable pub track_push : ℕ → LogTrack → FirmwareLogPushHeader → LogTrack × List Event
track_push time t h = (
  record { active = not (file_end h.flags); file_index = h.file_index; last_trans = h.trans_index },
  (if file_begin h.flags || not t.active || not (t.file_index == h.file_index)
      then []
      else if h.trans_index == expected_trans t
      then []
      else firmware_log_gap h.file_index (expected_trans t) h.trans_index time ∷ []),
)

-- Only the types 0 and 1 are tracked.
unfoldable pub track_type : ℕ → FirmwareLogPushHeader → LogState → LogState × List Event
unfolding track_push
track_type time h s =
    if h.log_type == 0
    then (let (t, es) = track_push time s.track0 h in (record s { track0 = t }, es))
    else if h.log_type == 1
    then (let (t, es) = track_push time s.track1 h in (record s { track1 = t }, es))
    else (s, [])

-- The acknowledgement of a push, as a frame.
unfoldable pub ack_frame : ℕ → FirmwareLogPushHeader → Result EncodeError (List ℕ × ℕ)
ack_frame seq h = do
  payload ← encode_firmware_log_push_ack (record {
    ret_code = ret_success;
    log_type = h.log_type;
    file_index = h.file_index;
    trans_index = h.trans_index;
  })
  encode_command_frame (replicate (command_header_size + firmware_log_push_ack_size) 0) (record {
    seq_num = seq;
    cmd_id = cmd_push_log;
    cmd_type = cmd_type_req;
    sender_type = sender_host;
    payload = payload;
  })

-- Whether the acknowledgement is sent: the frame is there, and the socket takes it.
unfoldable pub send_ack :
    Bool
    → Endpoint
    → FirmwareLogPushHeader
    → LogState
    → Result (Unit {0}) (LogState × List (List ℕ × Endpoint))
unfolding ack_frame
send_ack socket_takes from h s =
    let next = record s { ack_seq = (s.ack_seq + 1) % 2 ^ 32 } in
    if not (ack_requested h.flags) then ok (s, []) else elim (ack_frame s.ack_seq h) [
      | fault ↦ fault
      | err e ↦ ok (next, [])
      | ok (frame, size) ↦
          if socket_takes
          then ok (record next { acks_sent = count_up s.acks_sent }, (frame, from) ∷ [])
          else ok (next, [])
    ]

-- A push that parsed.
unfoldable pub on_log_push :
    Bool → ℕ → ℕ → Endpoint → FirmwareLogPushView → LogState → Result (Unit {0}) LogOutcome
unfolding track_type send_ack
on_log_push socket_takes recv_time time from push s =
    let counted = record s {
      chunks = count_up s.chunks;
      bytes = (s.bytes + length push.log) % 2 ^ 64;
      last_time_ns = recv_time;
    } in
    let (tracked, events) = track_type time push.header counted in
    let gaps = (tracked.gaps + length events) % 2 ^ 64 in
    do
      (done, sent) ← send_ack socket_takes from push.header (record tracked { gaps = gaps })
      ok (record { state = done; events = events; sent = sent; chunk = some push })

-- An acknowledgement on the log port, for the command that waits for it.
unfoldable pub on_log_ack : CommandFrameView → LogState → Result (Unit {0}) LogState
on_log_ack frame s =
    let h = frame.header in
    if not (h.cmd_id == s.cmd_wanted)
      || not (h.seq_num == s.seq_wanted)
      || (elim s.ack [ none ↦ false | some r ↦ true ])
      || s.ack_bad
    then ok s
    else elim (parse_simple_ack frame.payload) [
      | ok a ↦ ok (record s { ack = some a.ret_code })
      | err e ↦ ok (record s { ack_bad = true })
      | fault ↦ fault
    ]

unfoldable pub count_bad : LogState → LogState
count_bad s = record s { bad_packets = count_up s.bad_packets }

unfoldable pub on_frame :
    Bool → ℕ → ℕ → Endpoint → CommandFrameView → LogState → Result (Unit {0}) LogOutcome
unfolding on_log_push on_log_ack count_bad
on_frame socket_takes recv_time time from frame s =
    if frame.header.cmd_type == cmd_type_ack
    then (do s' ← on_log_ack frame s; ok (quiet s'))
    else if not (frame.header.cmd_id == cmd_push_log)
    then ok (quiet s)
    else elim (parse_firmware_log_push frame.payload) [
      | ok push ↦ on_log_push socket_takes recv_time time from push s
      | err e ↦ ok (quiet (count_bad s))
      | fault ↦ fault
    ]

-- `on_log`, with how the socket takes an acknowledgement and the two times.
unfoldable pub on_log : Bool → ℕ → ℕ → Endpoint → List ℕ → LogState → Result (Unit {0}) LogOutcome
unfolding on_frame
on_log socket_takes recv_time time from datagram s = elim (parse_command_frame datagram) [
  | ok frame ↦ on_frame socket_takes recv_time time from frame s
  | err e ↦ ok (quiet (count_bad s))
  | fault ↦ fault
]

-- The pushes of one type, in order, each with its time.
unfoldable pub track_run : List (ℕ × FirmwareLogPushHeader) → LogTrack → LogTrack × List Event
track_run [] t = (t, [])
track_run ((time, h) ∷ hs) t =
    let (t', es) = track_push time t h in let (t'', rest) = track_run hs t' in (t'', es ++ rest)
