-- ===== src/Device/Commands/LogControl/Hearing.antt =====
-- What the acknowledgements that the receive thread reads come to for a command that waits.
use livox_mid360_core.Prelude.{
  ℕ, ◌≡◌, ◌==◌, ◌&&◌, refl, Bool, Bool-cases, true, false, inl, inr, ◌⊎◌, take, drop, if◌then◌else◌,
  List, [], ◌∷◌, Option, none, some, Result, ok, err, fault, arith,
}
use livox_mid360_core.Bytes.{le_value}
use livox_mid360_core.Bytes.Laws.{read_le_ok}
use livox_mid360_core.Protocol.Types.{CommandFrameView, ParseError, truncated}
use livox_mid360_core.Protocol.Acks.{SimpleAck, parse_simple_ack}
use livox_mid360_core.Device.Log.{LogState, on_log_ack}
use livox_mid360_core.Device.Commands.LogControl.{hear}

-- The return code of an acknowledgement; none if its payload is cut off.
abbrev pub code_of : Result ParseError SimpleAck → Option ℕ
code_of (ok a) = some a.ret_code
code_of (err e) = none
code_of fault = none

parse_simple_ack_cases :
    (payload : List ℕ)
    → (parse_simple_ack payload ≡ err truncated)
      ⊎ ((a : SimpleAck) × (parse_simple_ack payload ≡ ok a))
unfolding parse_simple_ack
parse_simple_ack_cases [] = inl refl
parse_simple_ack_cases (x ∷ xs) = inr (
  record { ret_code = le_value (take 1 (drop 0 (x ∷ xs))) },
  rw (read_le_ok {E = ParseError} 1 (x ∷ xs) 0 (omega arith)),
)

module _ (cmd seq : ℕ) where
  abbrev pub answers : CommandFrameView → Bool
  answers f = (f.header.cmd_id == cmd) && (f.header.seq_num == seq)

  -- The first of the frames that answers the command decides.
  abbrev pub first_answer : List CommandFrameView → Option (Option ℕ)
  first_answer [] = none
  first_answer (f ∷ fs) =
      let rest = first_answer fs in
      if answers f then some (code_of (parse_simple_ack f.payload)) else rest

  -- The hand-off after it.
  abbrev pub handed_over : Option (Option ℕ) → LogState → LogState
  handed_over none l = l
  handed_over (some none) l = record l { ack_bad = true }
  handed_over (some (some ret)) l = record l { ack = some ret }

  -- The hand-off waits for this command.
  pub record IsWaiting (l : LogState) : Type 0 where
    pub for_cmd : l.cmd_wanted ≡ cmd
    pub for_seq : l.seq_wanted ≡ seq
    pub no_ack : l.ack ≡ none
    pub not_bad : l.ack_bad ≡ false

  -- Once it is answered, further frames change nothing.
  hear_acked :
      (fs : List CommandFrameView) (ret : ℕ) (l : LogState) → l.ack ≡ some ret → hear fs l ≡ ok l
  unfolding hear on_log_ack
  hear_acked [] ret l h = refl
  hear_acked (f ∷ fs) ret l h = ground (arith, hear_acked fs ret l h)

  hear_bad : (fs : List CommandFrameView) (l : LogState) → l.ack_bad ≡ true → hear fs l ≡ ok l
  unfolding hear on_log_ack
  hear_bad [] l h = refl
  hear_bad (f ∷ fs) l h = ground (arith, hear_bad fs l)

  on_log_ack-answer :
      (f : CommandFrameView) (l : LogState)
      → IsWaiting l
      → answers f ≡ true
      → on_log_ack f l ≡ ok (handed_over (some (code_of (parse_simple_ack f.payload))) l)
  unfolding on_log_ack
  on_log_ack-answer f l w h = elim (parse_simple_ack_cases f.payload) [
    | inl short ↦ rw short (ground arith)
    | inr (a, e) ↦ rw e (ground arith)
  ]

  on_log_ack-other :
      (f : CommandFrameView) (l : LogState)
      → IsWaiting l
      → answers f ≡ false
      → on_log_ack f l ≡ ok l
  unfolding on_log_ack
  on_log_ack-other f l w h = ground arith

  answered :
      (fs : List CommandFrameView) (code : Option ℕ) (l : LogState)
      → hear fs (handed_over (some code) l) ≡ ok (handed_over (some code) l)
  answered fs none l = hear_bad fs _ refl
  answered fs (some ret) l = hear_acked fs ret _ refl

  pub hear-first_answer :
      (fs : List CommandFrameView) (l : LogState)
      → IsWaiting l
      → hear fs l ≡ ok (handed_over (first_answer fs) l)
  unfolding hear
  hear-first_answer [] l w = refl
  hear-first_answer (f ∷ fs) l w = elim (Bool-cases (answers f)) [
    | inl mine ↦
        rw (mine, on_log_ack-answer f l w mine)
          (answered fs (code_of (parse_simple_ack f.payload)) l)
    | inr other ↦ rw (other, on_log_ack-other f l w other) (hear-first_answer fs l w)
  ]
