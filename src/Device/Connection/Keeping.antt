-- ===== src/Device/Connection/Keeping.antt =====
-- What the events and the counters of a connection have to do with its state, and what a step keeps.
use mathlib.Core.List.{append_assoc}
use livox_mid360_core.Prelude.{
  ℕ, ◌+◌, ◌%◌, ◌^◌, ◌≡◌, sym, ap, ◌∙◌, ltb, ◌||◌, Bool, true, false, if◌then◌else◌, List, [], ◌∷◌,
  ◌++◌, length, some, arith,
}
use livox_mid360_core.Event.{Event}
use livox_mid360_core.Device.Connection.{Connection}
use livox_mid360_core.Device.Connection.Threads.{Loss, uncounted, Threads, Move, finishes}
use livox_mid360_core.Device.Connection.Events.{
  link, losses, recoveries, link-append, losses-append, recoveries-append, link-balance,
}

-- The calls that have not counted their loss yet.
abbrev pub uncounted_in : List Loss → ℕ
uncounted_in [] = 0
uncounted_in (uncounted reason ∷ ls) = 1 + uncounted_in ls
uncounted_in (_ ∷ ls) = uncounted_in ls

abbrev pub down : Connection → ℕ
down c = if c.connected then 0 else 1

-- Whether the events up to now say that the device is connected: a loss in progress is not told yet.
abbrev pub told_up : Threads → Bool
told_up s = s.connection.connected || ltb 0 (length s.losing)

-- After the events `out`, and those pending.
pub record IsLedger (out : List Event) (s : Threads) : Type 0 where
  pub lost :
      (s.connection.disconnects + uncounted_in s.losing) % 2 ^ 64
      ≡ (losses (out ++ s.connection.pending) + length s.losing) % 2 ^ 64
  pub found : s.connection.reconnects ≡ recoveries (out ++ s.connection.pending) % 2 ^ 64
  pub balance :
      losses (out ++ s.connection.pending) + length s.losing
      ≡ recoveries (out ++ s.connection.pending) + (if s.connection.connected then 0 else 1)
  pub busy : (n : ℕ) → s.connection.attempting ≡ some n → s.connection.connected ≡ false

abbrev pub Alternates : List Event → Threads → Type 0
Alternates out s = link true (out ++ s.connection.pending) ≡ some (told_up s)

-- An attempt that succeeds while a loss is in progress.
abbrev pub overtakes : Move → Threads → Bool
overtakes (finishes now time) s = ltb 0 (length s.losing)
overtakes _ s = false

-- What a step does: `es` are queued and `n` calls enter `declare_disconnected`.
pub record Goes (over : Bool) (s s' : Threads) (es : List Event) (n : ℕ) : Type 0 where
  pub queues : s'.connection.pending ≡ s.connection.pending ++ es
  pub enters : length s'.losing + losses es ≡ length s.losing + n
  pub counts :
      (s'.connection.disconnects + uncounted_in s'.losing) % 2 ^ 64
      ≡ (s.connection.disconnects + uncounted_in s.losing + n) % 2 ^ 64
  pub finds : s'.connection.reconnects ≡ (s.connection.reconnects + recoveries es) % 2 ^ 64
  pub turns : down s.connection + n ≡ recoveries es + down s'.connection
  pub works : (k : ℕ) → s'.connection.attempting ≡ some k → s'.connection.connected ≡ false
  pub tells :
      over ≡ false
      → (told_up s ≡ true → length s.losing ≡ down s.connection)
      → link (told_up s) es ≡ some (told_up s')

-- What a step with the events that it raises keeps.
pub record Kept (over : Bool) (out : List Event) (s : Threads) (r : Threads × List Event)
    : Type 0 where
  pub ledger : IsLedger (out ++ r.1) r.0
  pub alternates : over ≡ false → Alternates out s → Alternates (out ++ r.1) r.0

module _ (out : List Event) (s s' : Threads) (es : List Event) (n : ℕ) (over : Bool)
    (g : Goes over s s' es n) where
  pub longer : out ++ s'.connection.pending ≡ (out ++ s.connection.pending) ++ es
  longer = ap (λ ps. out ++ ps) g.queues ∙ sym (append_assoc out s.connection.pending es)

  pub losses-longer :
      losses (out ++ s'.connection.pending) ≡ losses (out ++ s.connection.pending) + losses es
  losses-longer = ap losses longer ∙ losses-append (out ++ s.connection.pending) es

  pub recoveries-longer :
      recoveries (out ++ s'.connection.pending)
      ≡ recoveries (out ++ s.connection.pending) + recoveries es
  recoveries-longer = ap recoveries longer ∙ recoveries-append (out ++ s.connection.pending) es

  pub Goes-IsLedger : IsLedger out s → IsLedger out s'
  Goes-IsLedger v = record {
    lost = omega (arith, v.lost, g.counts, g.enters, losses-longer);
    found = omega (arith, v.found, g.finds, recoveries-longer);
    balance = omega (arith, v.balance, g.enters, g.turns, losses-longer, recoveries-longer);
    busy = g.works;
  }

  pub Goes-Alternates : IsLedger out s → over ≡ false → Alternates out s → Alternates out s'
  Goes-Alternates v timely a =
      ap (link true) longer
      ∙ link-append true (out ++ s.connection.pending) es a
      ∙ g.tells timely (λ up.
        let told = link-balance true (out ++ s.connection.pending) (a ∙ ap some up) in
        omega (arith, v.balance, told))
