-- ===== src/DebugData/RoundTrip.antt =====
-- A debug data request that is encoded parses back.
use livox_mid360_core.Prelude.{
  ℕ, ◌^◌, ◌<◌, ◌≡◌, refl, Bool, true, false, List, [], ◌∷◌, ◌++◌, ok, arith,
}
use livox_mid360_core.Bytes.{subspan, copy_to, read_le, write_le, le_bytes}
use livox_mid360_core.Bytes.Laws.{le_value-le_bytes}
use livox_mid360_core.Protocol.Types.{EncodeError}
use livox_mid360_core.DebugData.{
  DebugDataControlRequest, encode_debug_data_control, parse_debug_data_control,
}

-- A request to the address a.b.c.d.
abbrev pub request_to : Bool → ℕ → ℕ → ℕ → ℕ → ℕ → ℕ → DebugDataControlRequest
request_to on a b c d port reserved = record {
  enable = on;
  host_ip = a ∷ b ∷ c ∷ d ∷ [];
  host_port = port;
  reserved = reserved;
}

-- A request to start or to stop, to any address and with any port, is written without a fault and
-- parses back, also with bytes behind it.
pub parse_debug_data_control-encode :
    (on : Bool) (a b c d port reserved : ℕ) (rest : List ℕ)
    → port < 2 ^ 16
    → reserved < 2 ^ 16
    → (out : List ℕ) × (encode_debug_data_control {E = EncodeError}
          (request_to on a b c d port reserved)
        ≡ ok out)
      × (parse_debug_data_control (out ++ rest) ≡ ok (request_to on a b c d port reserved))
unfolding encode_debug_data_control parse_debug_data_control write_le copy_to read_le subspan
parse_debug_data_control-encode true a b c d port reserved rest p r = (
  1 ∷ a ∷ b ∷ c ∷ d ∷ (le_bytes 2 port ++ le_bytes 2 reserved),
  refl,
  ground (arith, le_value-le_bytes 2 port, le_value-le_bytes 2 reserved),
)
parse_debug_data_control-encode false a b c d port reserved rest p r = (
  0 ∷ a ∷ b ∷ c ∷ d ∷ (le_bytes 2 port ++ le_bytes 2 reserved),
  refl,
  ground (arith, le_value-le_bytes 2 port, le_value-le_bytes 2 reserved),
)
