-- ===== src/Protocol/Acks/NoFault.antt =====
-- The discovery acknowledgement's parser on any bytes.
use livox_mid360_core.Prelude.{ℕ, ◌≤◌, List, length, Safe, arith, ltb, Bool-cases, inl, inr}
use livox_mid360_core.Bytes.Laws.{subspan_ok, read_le_ok}
use livox_mid360_core.Protocol.Types.{ParseError}
use livox_mid360_core.Protocol.Acks.{parse_discovery_ack}

-- Any value will do: only a fault is excluded.
abbrev pub Anything : {A : Type 0} → A → Type 0
Anything a = Unit {0}

pub parse_discovery_ack-Safe : (payload : List ℕ) → Safe Anything (parse_discovery_ack payload)
unfolding parse_discovery_ack
parse_discovery_ack-Safe payload = elim (Bool-cases (ltb (length payload) 24)) [
  | inl short ↦ rw short tt
  | inr long ↦
      let h : 24 ≤ length payload = ground arith in
      rw
        (
          long,
          read_le_ok {E = ParseError} 1 payload 0 (omega arith),
          read_le_ok {E = ParseError} 1 payload 1 (omega arith),
          subspan_ok {E = ParseError} payload 2 16 (omega arith),
          subspan_ok {E = ParseError} payload 18 4 (omega arith),
          read_le_ok {E = ParseError} 2 payload 22 (omega arith),
        )
        tt
]
