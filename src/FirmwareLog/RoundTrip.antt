-- ===== src/FirmwareLog/RoundTrip.antt =====
-- What the firmware log encoders write, and that it parses back.
use mathlib.Core.List.{append-nil}
use livox_mid360_core.Prelude.{
  ℕ, ◌+◌, ◌-◌, ◌^◌, ◌≤◌, ◌<◌, ◌≡◌, ◌≢◌, refl, sym, ap, ◌∙◌, List, [], ◌∷◌, ◌++◌, length, take, drop,
  replicate, ok, true, false, arith, ltb, take_all, drop_all, length-replicate,
}
use livox_mid360_core.Bytes.{subspan, read_le, write_le, copy_to, le_bytes, le_value}
use livox_mid360_core.Bytes.Laws.{le_value-le_bytes, read_le_ok, subspan_ok}
use livox_mid360_core.Bytes.Writing.{copy_to_next, write_le_next}
use livox_mid360_core.Protocol.Types.{ParseError, EncodeError}
use livox_mid360_core.FirmwareLog.{
  FirmwareLogControlRequest, encode_firmware_log_control, parse_firmware_log_control,
  FirmwareLogPushHeader, parse_firmware_log_push, encode_firmware_log_push, FirmwareLogPushAck,
  encode_firmware_log_push_ack, parse_firmware_log_push_ack,
}

abbrev pub IsAck : FirmwareLogPushAck → Type 0
IsAck a =
    (a.ret_code < 2 ^ 8) × (a.log_type < 2 ^ 8) × (a.file_index < 2 ^ 8) × (a.trans_index < 2 ^ 32)

-- An acknowledgement whose fields fit their types is written without a fault and parses back, also
-- with bytes behind it.
pub parse_firmware_log_push_ack-encode :
    (a : FirmwareLogPushAck) (rest : List ℕ)
    → IsAck a
    → (out : List ℕ) × (encode_firmware_log_push_ack {E = EncodeError} a ≡ ok out)
      × (parse_firmware_log_push_ack (out ++ rest) ≡ ok a)
unfolding encode_firmware_log_push_ack parse_firmware_log_push_ack write_le copy_to read_le subspan
parse_firmware_log_push_ack-encode a rest valid = (
  le_bytes 1 a.ret_code
      ++ (le_bytes 1 a.log_type ++ (le_bytes 1 a.file_index ++ le_bytes 4 a.trans_index)),
  refl,
  ground (arith, le_value-le_bytes 4 a.trans_index),
)

-- A control request is written as two bytes that parse back, and any other non-zero second byte
-- parses as enabled.
pub parse_firmware_log_control-encode :
    (req : FirmwareLogControlRequest) (flag : ℕ) (rest : List ℕ)
    → req.log_type < 2 ^ 8
    → flag ≢ 0
    → (parse_firmware_log_control (encode_firmware_log_control req ++ rest) ≡ ok req)
      × (parse_firmware_log_control (req.log_type ∷ flag ∷ rest)
          ≡ ok (record { log_type = req.log_type; enable = true }))
unfolding encode_firmware_log_control parse_firmware_log_control read_le subspan
parse_firmware_log_control-encode req flag rest h on = (ground arith, ground arith)

-- The fields fit their types, but for the length, which the encoder computes.
abbrev pub IsPush : FirmwareLogPushHeader → Type 0
IsPush h =
    (h.log_type < 2 ^ 8)
    × (h.file_index < 2 ^ 8)
    × (h.file_num < 2 ^ 8)
    × (h.flags < 2 ^ 8)
    × (h.timestamp < 2 ^ 32)
    × (h.rsvd < 2 ^ 16)
    × (h.trans_index < 2 ^ 32)

-- The first 16 bytes of a push.
abbrev push_front : FirmwareLogPushHeader → ℕ → List ℕ
push_front h n =
    le_bytes 1 h.log_type
    ++ (le_bytes 1 h.file_index
        ++ (le_bytes 1 h.file_num
            ++ (le_bytes 1 h.flags
                ++ (le_bytes 4 h.timestamp
                    ++ (le_bytes 2 h.rsvd ++ (le_bytes 4 h.trans_index ++ le_bytes 2 n))))))

encode_push :
    (h : FirmwareLogPushHeader) (log : List ℕ)
    → length log ≤ 1360
    → encode_firmware_log_push h log ≡ ok (push_front h (length log) ++ log)
unfolding encode_firmware_log_push
encode_push h log small =
    let n = length log in
    let out : List ℕ = replicate (16 + n) 0 in
    let size : length out ≡ 16 + n = length-replicate (16 + n) 0 in
    let fits : ltb 1360 n ≡ false = ground arith in
    let nothing : drop (16 + n) out ≡ [] = ap (λ k. drop k out) (sym size) ∙ drop_all out in
    let p2 = le_bytes 1 h.log_type ++ le_bytes 1 h.file_index in
    let p3 = p2 ++ le_bytes 1 h.file_num in
    let p4 = p3 ++ le_bytes 1 h.flags in
    let p8 = p4 ++ le_bytes 4 h.timestamp in
    let p10 = p8 ++ le_bytes 2 h.rsvd in
    let p14 = p10 ++ le_bytes 4 h.trans_index in
    rw (
      fits,
      write_le_next {E = EncodeError} [] out 0 (omega arith) 1 h.log_type (omega (arith, size)),
      write_le_next {E = EncodeError} (le_bytes 1 h.log_type) out 1 (omega arith) 1 h.file_index
          (omega (arith, size)),
      write_le_next {E = EncodeError} p2 out 2 (omega arith) 1 h.file_num (omega (arith, size)),
      write_le_next {E = EncodeError} p3 out 3 (omega arith) 1 h.flags (omega (arith, size)),
      write_le_next {E = EncodeError} p4 out 4 (omega arith) 4 h.timestamp (omega (arith, size)),
      write_le_next {E = EncodeError} p8 out 8 (omega arith) 2 h.rsvd (omega (arith, size)),
      write_le_next {E = EncodeError} p10 out 10 (omega arith) 4 h.trans_index
          (omega (arith, size)),
      write_le_next {E = EncodeError} p14 out 14 (omega arith) 2 n (omega (arith, size)),
      copy_to_next {E = EncodeError} (push_front h n) out 16 (omega arith) log
          (omega (arith, size)),
      nothing,
      append-nil log,
    )

module _ (h : FirmwareLogPushHeader) (log : List ℕ) where
  abbrev push : List ℕ
  push = push_front h (length log) ++ log

  push_field :
      (w off v : ℕ)
      → off + w ≤ 16
      → v < 256 ^ w
      → take w (drop off push) ≡ le_bytes w v
      → read_le {E = ParseError} w push off ≡ ok v
  push_field w off v inside range e =
      read_le_ok w push off (omega arith)
      ∙ ap (λ bs. ok (le_value bs)) e
      ∙ ap ok (le_value-le_bytes w v range)

  parse_push :
      IsPush h
      → length log ≤ 1360
      → parse_firmware_log_push push
        ≡ ok (record { header = record h { data_length = length log }; log = log })
  unfolding parse_firmware_log_push
  parse_push (t, i, m, f, s, r, x) small =
      let n = length log in
      let present : 16 + n - 16 ≡ n = omega arith in
      let long : ltb (length push) 16 ≡ false = ground arith in
      let rest : length push - 16 ≡ n = omega arith in
      let same : ltb n n ≡ false = ground arith in
      rw (
        long,
        push_field 1 0 h.log_type (omega arith) t refl,
        push_field 1 1 h.file_index (omega arith) i refl,
        push_field 1 2 h.file_num (omega arith) m refl,
        push_field 1 3 h.flags (omega arith) f refl,
        push_field 4 4 h.timestamp (omega arith) s refl,
        push_field 2 8 h.rsvd (omega arith) r refl,
        push_field 4 10 h.trans_index (omega arith) x refl,
        push_field 2 14 n (omega arith) (omega arith) refl,
        rest,
        same,
        subspan_ok {E = ParseError} push 16 n (omega arith),
        take_all log,
      )

-- A push whose fields fit their types and whose log data fits a command frame is written without a
-- fault, and parses back to its fields, the size of the data, and the data.
pub parse_firmware_log_push-encode :
    (h : FirmwareLogPushHeader) (log : List ℕ)
    → IsPush h
    → length log ≤ 1360
    → (out : List ℕ) × (encode_firmware_log_push h log ≡ ok out)
      × (parse_firmware_log_push out
          ≡ ok (record { header = record h { data_length = length log }; log = log }))
parse_firmware_log_push-encode h log valid small =
    (push_front h (length log) ++ log, encode_push h log small, parse_push h log valid small)
