-- ===== src/Device/Connection/Ledger.antt =====
-- The events of a connection, and its counters, while threads are in the middle of losing it.
use mathlib.Core.List.{append-nil, append_assoc}
use livox_mid360_core.Prelude.{
  ℕ, ◌+◌, ◌%◌, ◌^◌, ◌≡◌, refl, sym, ap, subst, ◌∙◌, ltb, ◌||◌, Bool, Bool-cases, true, false, ◌⊎◌,
  inl, inr, List, [], ◌∷◌, ◌++◌, length, arith,
}
use livox_mid360_core.Event.{Event, push_timeout, command_timeout}
use livox_mid360_core.Device.Connection.{opened, is_stale, is_overdue}
use livox_mid360_core.Device.Connection.Threads.{
  Threads, Move, loses, times_out, expires, advances, raises, begins, finishes, fails, hears, arms,
  disarms, forgets, takes, move, moves,
}
use livox_mid360_core.Device.Connection.Events.{link, losses, recoveries}
use livox_mid360_core.Device.Connection.Keeping.{
  down, IsLedger, Alternates, overtakes, Goes, Kept, Goes-IsLedger, Goes-Alternates,
}
use livox_mid360_core.Device.Connection.Steps.{
  either, keeps-Goes, stays-Goes, enter_loss-Goes, begin-Goes, finish-Goes,
}
use livox_mid360_core.Device.Connection.Advancing.{advance-Goes}

module _ (enabled : Bool) (timeout : ℕ) where
  -- A step that raises nothing.
  quiet :
      (over : Bool) (out : List Event) (s s' : Threads) (es : List Event) (n : ℕ)
      → IsLedger out s
      → Goes over s s' es n
      → Kept over out s (s', [])
  quiet over out s s' es n v g = record {
    ledger =
        subst (λ es. IsLedger es s') (sym (append-nil out)) (Goes-IsLedger out s s' es n over g v);
    alternates = λ timely a.
        subst (λ es. Alternates es s') (sym (append-nil out))
          (Goes-Alternates out s s' es n over g v timely a);
  }

  move-Kept :
      (m : Move) (out : List Event) (s : Threads)
      → IsLedger out s
      → Kept (overtakes m s) out s (move enabled timeout m s)
  unfolding move
  move-Kept (loses reason) out s v =
      let (n, g) = enter_loss-Goes out s v reason in quiet false out s _ [] n v g
  move-Kept (times_out now) out s v =
      either (λ s'. Kept false out s (s', [])) (is_stale timeout now s.connection) _ _
        (λ stale.
          let (n, g) = enter_loss-Goes out s v command_timeout in quiet false out s _ [] n v g)
        (λ fresh. quiet false out s s [] 0 v (stays-Goes out s v false))
  move-Kept (expires now) out s v =
      either (λ s'. Kept false out s (s', [])) (is_overdue timeout now s.connection) _ _
        (λ late. let (n, g) = enter_loss-Goes out s v push_timeout in quiet false out s _ [] n v g)
        (λ fine. quiet false out s s [] 0 v (stays-Goes out s v false))
  move-Kept (advances k time) out s v =
      let (es, g) = advance-Goes enabled time k out s v in quiet false out s _ es 0 v g
  move-Kept raises out s v =
      let e = append-nil (out ++ s.connection.pending) in
      record {
        ledger = record {
          lost = v.lost ∙ ap (λ es. (losses es + length s.losing) % 2 ^ 64) (sym e);
          found = v.found ∙ ap (λ es. recoveries es % 2 ^ 64) (sym e);
          balance =
              subst (λ es. losses es + length s.losing ≡ recoveries es + down s.connection) (sym e)
                v.balance;
          busy = v.busy;
        };
        alternates = λ timely a. ap (link true) e ∙ a;
      }
  move-Kept begins out s v = quiet false out s _ [] 0 v (begin-Goes out s v)
  move-Kept (finishes now time) out s v =
      let (es, g) = finish-Goes out s v now time in quiet (ltb 0 (length s.losing)) out s _ es 0 v g
  move-Kept fails out s v =
      quiet false out s _ [] 0 v (keeps-Goes out s v false _ refl refl refl refl (λ n h. cc))
  move-Kept (hears now down restart) out s v =
      quiet false out s _ [] 0 v (keeps-Goes out s v false _ refl refl refl refl v.busy)
  move-Kept (arms now) out s v =
      quiet false out s _ [] 0 v (keeps-Goes out s v false _ refl refl refl refl v.busy)
  move-Kept disarms out s v =
      quiet false out s _ [] 0 v (keeps-Goes out s v false _ refl refl refl refl v.busy)
  move-Kept forgets out s v =
      quiet false out s _ [] 0 v (keeps-Goes out s v false _ refl refl refl refl v.busy)
  move-Kept takes out s v =
      quiet false out s _ [] 0 v (keeps-Goes out s v false _ refl refl refl refl v.busy)

  -- Whether an attempt succeeds while a loss is in progress, somewhere in the moves.
  abbrev pub any_overtakes : List Move → Threads → Bool
  any_overtakes [] s = false
  any_overtakes (m ∷ ms) s = overtakes m s || any_overtakes ms (move enabled timeout m s).0

  moves-Kept :
      (ms : List Move) (out : List Event) (s : Threads)
      → IsLedger out s
      → Kept (any_overtakes ms s) out s (moves enabled timeout ms s)
  unfolding moves
  moves-Kept [] out s v = quiet false out s s [] 0 v (stays-Goes out s v false)
  moves-Kept (m ∷ ms) out s v =
      let k = move-Kept m out s v in
      let s₁ = (move enabled timeout m s).0 in
      let es = (move enabled timeout m s).1 in
      let k' = moves-Kept ms (out ++ es) s₁ k.ledger in
      let e = append_assoc out es (moves enabled timeout ms s₁).1 in
      record {
        ledger = subst (λ es'. IsLedger es' (moves enabled timeout ms s₁).0) e k'.ledger;
        alternates = λ timely a.
            subst (λ es'. Alternates es' (moves enabled timeout ms s₁).0) e
              (k'.alternates (ground (arith, timely)) (k.alternates (ground (arith, timely)) a));
      }

-- The events that were raised and those still queued, in order.
abbrev pub history : Threads × List Event → List Event
history r = r.1 ++ r.0.connection.pending

-- Nobody is in the middle of a loss when the device is opened.
abbrev pub opened_threads : ℕ → Threads
opened_threads now = record { connection = opened now; losing = [] }

-- Whatever steps threads take on a device that was opened, also between those of one loss, where the
-- end of an attempt counts as one step: the losses that are counted or still to be counted are those
-- queued or still to be queued, modulo 2^64; the recoveries counted are those queued, modulo 2^64;
-- the losses are the recoveries, and one more exactly while the device is disconnected; an attempt in
-- progress means that it is disconnected. And unless an attempt succeeded while a loss was in
-- progress, the loss and recovery events alternate, beginning with a loss, and end as the device is
-- connected or not, where a loss in progress is not told yet.
pub moves-opened :
    (enabled : Bool) (timeout : ℕ) (ms : List Move) (now : ℕ)
    → IsLedger
        (moves enabled timeout ms (opened_threads now)).1
        (moves enabled timeout ms (opened_threads now)).0
      × ((any_overtakes enabled timeout ms (opened_threads now) ≡ true)
          ⊎ Alternates
              (moves enabled timeout ms (opened_threads now)).1
              (moves enabled timeout ms (opened_threads now)).0)
moves-opened enabled timeout ms now =
    let k =
      moves-Kept enabled timeout ms [] (opened_threads now)
        (record { lost = refl; found = refl; balance = refl; busy = λ n h. cc }) in
    (
      k.ledger,
      elim (Bool-cases (any_overtakes enabled timeout ms (opened_threads now))) [
        | inl over ↦ inl over
        | inr timely ↦ inr (k.alternates timely refl)
      ],
    )
