-- ===== src/FirmwareLog.antt =====
-- src/firmware_log.cpp and include/livox/mid360/firmware_log.hpp: the payloads of the firmware log
-- commands, without the text forms.
pub mod RoundTrip
use livox_mid360_core.Prelude.{
  ℕ, ◌+◌, ◌-◌, ◌/◌, ◌%◌, List, [], ◌∷◌, length, replicate, ltb, ◌==◌, not, Bool, if◌then◌else◌,
  Result, ok, err, ◌>>=◌, ◌>>◌, fail_if,
}
use livox_mid360_core.Bytes.{subspan, copy_to, read_le, write_le}
use livox_mid360_core.Protocol.Types.{
  ParseError, too_short, truncated, length_mismatch, EncodeError, data_too_large,
  command_data_max_size,
}

abbrev pub firmware_log_push_header_size : ℕ
firmware_log_push_header_size = 16

abbrev pub firmware_log_push_data_max_size : ℕ
firmware_log_push_data_max_size = command_data_max_size - firmware_log_push_header_size

abbrev pub firmware_log_push_ack_size : ℕ
firmware_log_push_ack_size = 7

-- `FirmwareLogFlags`, on the raw byte: `(raw & bit) != 0`.
unfoldable pub ack_requested : ℕ → Bool
ack_requested raw = not (raw % 2 == 0)

unfoldable pub file_begin : ℕ → Bool
file_begin raw = not (raw / 2 % 2 == 0)

unfoldable pub file_end : ℕ → Bool
file_end raw = not (raw / 4 % 2 == 0)

pub record FirmwareLogControlRequest : Type 0 where
  pub log_type : ℕ
  pub enable : Bool

unfoldable pub encode_firmware_log_control : FirmwareLogControlRequest → List ℕ
encode_firmware_log_control req = req.log_type ∷ (if req.enable then 1 else 0) ∷ []

unfoldable pub parse_firmware_log_control : List ℕ → Result ParseError FirmwareLogControlRequest
parse_firmware_log_control payload = do
  fail_if (ltb (length payload) 2) too_short
  log_type ← read_le 1 payload 0
  enable ← read_le 1 payload 1
  ok (record { log_type = log_type; enable = not (enable == 0) })

pub record FirmwareLogPushHeader : Type 0 where
  pub log_type : ℕ
  pub file_index : ℕ
  pub file_num : ℕ
  pub flags : ℕ
  pub timestamp : ℕ
  pub rsvd : ℕ
  pub trans_index : ℕ
  pub data_length : ℕ

pub record FirmwareLogPushView : Type 0 where
  pub header : FirmwareLogPushHeader
  pub log : List ℕ

unfoldable pub parse_firmware_log_push : List ℕ → Result ParseError FirmwareLogPushView
parse_firmware_log_push payload = do
  fail_if (ltb (length payload) firmware_log_push_header_size) too_short
  log_type ← read_le 1 payload 0
  file_index ← read_le 1 payload 1
  file_num ← read_le 1 payload 2
  flags ← read_le 1 payload 3
  timestamp ← read_le 4 payload 4
  rsvd ← read_le 2 payload 8
  trans_index ← read_le 4 payload 10
  data_length ← read_le 2 payload 14
  let present = length payload - firmware_log_push_header_size
  fail_if (ltb present data_length) truncated
  fail_if (ltb data_length present) length_mismatch
  log ← subspan payload firmware_log_push_header_size data_length
  ok (record {
    header = record {
      log_type = log_type;
      file_index = file_index;
      file_num = file_num;
      flags = flags;
      timestamp = timestamp;
      rsvd = rsvd;
      trans_index = trans_index;
      data_length = data_length;
    };
    log = log;
  })

unfoldable pub encode_firmware_log_push :
    FirmwareLogPushHeader → List ℕ → Result EncodeError (List ℕ)
encode_firmware_log_push header log = do
  fail_if (ltb firmware_log_push_data_max_size (length log)) data_too_large
  out ← write_le 1 (replicate (firmware_log_push_header_size + length log) 0) 0 header.log_type
  out ← write_le 1 out 1 header.file_index
  out ← write_le 1 out 2 header.file_num
  out ← write_le 1 out 3 header.flags
  out ← write_le 4 out 4 header.timestamp
  out ← write_le 2 out 8 header.rsvd
  out ← write_le 4 out 10 header.trans_index
  out ← write_le 2 out 14 (length log)
  copy_to out firmware_log_push_header_size log

pub record FirmwareLogPushAck : Type 0 where
  pub ret_code : ℕ
  pub log_type : ℕ
  pub file_index : ℕ
  pub trans_index : ℕ

unfoldable pub encode_firmware_log_push_ack : {E : Type 0} → FirmwareLogPushAck → Result E (List ℕ)
encode_firmware_log_push_ack ack = do
  out ← write_le 1 (replicate firmware_log_push_ack_size 0) 0 ack.ret_code
  out ← write_le 1 out 1 ack.log_type
  out ← write_le 1 out 2 ack.file_index
  write_le 4 out 3 ack.trans_index

unfoldable pub parse_firmware_log_push_ack : List ℕ → Result ParseError FirmwareLogPushAck
parse_firmware_log_push_ack payload = do
  fail_if (ltb (length payload) firmware_log_push_ack_size) too_short
  ret_code ← read_le 1 payload 0
  log_type ← read_le 1 payload 1
  file_index ← read_le 1 payload 2
  trans_index ← read_le 4 payload 3
  ok (record {
    ret_code = ret_code;
    log_type = log_type;
    file_index = file_index;
    trans_index = trans_index;
  })
