-- ===== src/DebugData.antt =====
-- src/debug_data.cpp: the payload of the debug data command.
pub mod RoundTrip
use livox_mid360_core.Prelude.{
  ℕ, List, length, replicate, ltb, ◌==◌, not, Bool, if◌then◌else◌, Result, ok, ◌>>=◌, ◌>>◌, fail_if,
}
use livox_mid360_core.Bytes.{subspan, copy_to, read_le, write_le}
use livox_mid360_core.Protocol.Types.{ParseError, too_short}

abbrev pub debug_data_control_size : ℕ
debug_data_control_size = 9

-- `host_ip` is four bytes.
pub record DebugDataControlRequest : Type 0 where
  pub enable : Bool
  pub host_ip : List ℕ
  pub host_port : ℕ
  pub reserved : ℕ

unfoldable pub encode_debug_data_control :
    {E : Type 0} → DebugDataControlRequest → Result E (List ℕ)
encode_debug_data_control req = do
  out ← write_le 1 (replicate debug_data_control_size 0) 0 (if req.enable then 1 else 0)
  out ← copy_to out 1 req.host_ip
  out ← write_le 2 out 5 req.host_port
  write_le 2 out 7 req.reserved

unfoldable pub parse_debug_data_control : List ℕ → Result ParseError DebugDataControlRequest
parse_debug_data_control payload = do
  fail_if (ltb (length payload) debug_data_control_size) too_short
  enable ← read_le 1 payload 0
  host_ip ← subspan payload 1 4
  host_port ← read_le 2 payload 5
  reserved ← read_le 2 payload 7
  ok (record {
    enable = not (enable == 0);
    host_ip = host_ip;
    host_port = host_port;
    reserved = reserved;
  })
