-- ===== src/Tests/Lists.antt =====
-- Key/value lists and the firmware log protocol.
use livox_mid360_core.Prelude.{ℕ, ◌≡◌, refl, List, [], ◌∷◌, length, ok, arith, true}
use livox_mid360_core.Bytes.{read_le, subspan}
use livox_mid360_core.Protocol.Types.{KeyValue}
use livox_mid360_core.Protocol.KeyValues.{parse_entries, parse_key_value_list}
use livox_mid360_core.Protocol.KeyValues.Append.{list_wire}
use livox_mid360_core.Protocol.KeyValues.Parse.{parse_key_value_list-list_wire}
use livox_mid360_core.FirmwareLog.{
  FirmwareLogControlRequest, FirmwareLogPushHeader, parse_firmware_log_push,
  encode_firmware_log_push, FirmwareLogPushAck,
}
use livox_mid360_core.FirmwareLog.RoundTrip.{parse_firmware_log_push-encode}

abbrev work_mode : List ℕ
work_mode = 0x1A ∷ 0 ∷ 1 ∷ 0 ∷ 2 ∷ []

abbrev work_mode_entry : KeyValue
work_mode_entry = record { key = 0x1A; value = 2 ∷ [] }

work_mode_parses : parse_key_value_list work_mode 1 ≡ ok (work_mode_entry ∷ [])
unfolding parse_key_value_list parse_entries read_le subspan
work_mode_parses = refl

parse_key_value_list-list_wire_example :
    (length (work_mode_entry ∷ []) ≡ 1) × (list_wire (work_mode_entry ∷ []) ≡ work_mode)
parse_key_value_list-list_wire_example =
    parse_key_value_list-list_wire work_mode 1 (work_mode_entry ∷ [])
      (omega arith, (omega arith, (omega arith, (omega arith, (omega arith, tt))))) (omega arith)
      work_mode_parses

abbrev log_header : FirmwareLogPushHeader
log_header = record {
  log_type = 1;
  file_index = 2;
  file_num = 3;
  flags = 1;
  timestamp = 1000;
  rsvd = 0;
  trans_index = 4;
  data_length = 0;
}

abbrev log_bytes : List ℕ
log_bytes = 5 ∷ 6 ∷ []

parse_firmware_log_push-encode_example :
    (out : List ℕ) × (encode_firmware_log_push log_header log_bytes ≡ ok out)
    × (parse_firmware_log_push out
        ≡ ok (record { header = record log_header { data_length = 2 }; log = log_bytes }))
parse_firmware_log_push-encode_example =
    parse_firmware_log_push-encode log_header log_bytes
      (omega arith, omega arith, omega arith, omega arith, omega arith, omega arith, omega arith)
      (omega arith)

abbrev log_ack : FirmwareLogPushAck
log_ack = record { ret_code = 0; log_type = 1; file_index = 2; trans_index = 70000 }

abbrev log_on : FirmwareLogControlRequest
log_on = record { log_type = 1; enable = true }

abbrev one_entry : List KeyValue
one_entry = work_mode_entry ∷ []
