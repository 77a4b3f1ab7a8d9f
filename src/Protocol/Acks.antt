-- ===== src/Protocol/Acks.antt =====
-- src/protocol.cpp: the small requests, and the data of the ACKs and of the state push.
pub mod Lists
pub mod NoFault
use livox_mid360_core.Prelude.{
  ℕ, ◌-◌, List, [], ◌∷◌, length, replicate, ltb, ◌==◌, if◌then◌else◌, Result, ok, ◌>>=◌, ◌>>◌,
  fail_if,
}
use livox_mid360_core.Bytes.{subspan, read_le, write_le}
use livox_mid360_core.Protocol.CommandFrame.{is_empty}
use livox_mid360_core.Protocol.Types.{ParseError, truncated, KeyValue}
use livox_mid360_core.Protocol.KeyValues.{parse_key_value_list}

unfoldable pub encode_reboot_request : {E : Type 0} → ℕ → Result E (List ℕ)
encode_reboot_request timeout_ms = write_le 2 (replicate 2 0) 0 timeout_ms

abbrev pub encode_factory_reset_request : List ℕ
encode_factory_reset_request = replicate 16 0

unfoldable pub encode_set_gps_timestamp_request : {E : Type 0} → ℕ → Result E (List ℕ)
encode_set_gps_timestamp_request pps_time_ns = do
  out ← write_le 1 (replicate 9 0) 0 2
  write_le 8 out 1 pps_time_ns

pub record DiscoveryAck : Type 0 where
  pub ret_code : ℕ
  pub dev_type : ℕ
  pub serial_number : List ℕ
  pub lidar_ip : List ℕ
  pub cmd_port : ℕ

-- `serial_number_view`: up to the first NUL.
unfoldable pub until_nul : List ℕ → List ℕ
until_nul [] = []
until_nul (c ∷ cs) = if c == 0 then [] else c ∷ until_nul cs

unfoldable pub serial_number_view : DiscoveryAck → List ℕ
unfolding until_nul
serial_number_view a = until_nul a.serial_number

unfoldable pub parse_discovery_ack : List ℕ → Result ParseError DiscoveryAck
parse_discovery_ack payload = do
  fail_if (ltb (length payload) 24) truncated
  ret_code ← read_le 1 payload 0
  dev_type ← read_le 1 payload 1
  serial_number ← subspan payload 2 16
  lidar_ip ← subspan payload 18 4
  cmd_port ← read_le 2 payload 22
  ok (record {
    ret_code = ret_code;
    dev_type = dev_type;
    serial_number = serial_number;
    lidar_ip = lidar_ip;
    cmd_port = cmd_port;
  })

pub record ParamConfigAck : Type 0 where
  pub ret_code : ℕ
  pub error_key : ℕ

unfoldable pub parse_param_config_ack : List ℕ → Result ParseError ParamConfigAck
parse_param_config_ack payload = do
  fail_if (ltb (length payload) 3) truncated
  ret_code ← read_le 1 payload 0
  error_key ← read_le 2 payload 1
  ok (record { ret_code = ret_code; error_key = error_key })

pub record ParamInquireAck : Type 0 where
  pub ret_code : ℕ
  pub values : List KeyValue

unfoldable pub parse_param_inquire_ack : List ℕ → Result ParseError ParamInquireAck
parse_param_inquire_ack payload = do
  fail_if (ltb (length payload) 3) truncated
  ret_code ← read_le 1 payload 0
  key_num ← read_le 2 payload 1
  rest ← subspan payload 3 (length payload - 3)
  values ← parse_key_value_list rest key_num
  ok (record { ret_code = ret_code; values = values })

pub record InfoPush : Type 0 where
  pub values : List KeyValue

unfoldable pub parse_info_push : List ℕ → Result ParseError InfoPush
parse_info_push payload = do
  fail_if (ltb (length payload) 4) truncated
  key_num ← read_le 2 payload 0
  rest ← subspan payload 4 (length payload - 4)
  values ← parse_key_value_list rest key_num
  ok (record { values = values })

pub record SimpleAck : Type 0 where
  pub ret_code : ℕ

unfoldable pub parse_simple_ack : List ℕ → Result ParseError SimpleAck
parse_simple_ack payload = do
  fail_if (is_empty payload) truncated
  ret_code ← read_le 1 payload 0
  ok (record { ret_code = ret_code })
