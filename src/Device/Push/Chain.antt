-- ===== src/Device/Push/Chain.antt =====
-- The events of a run of pushes tell the way from one state to the next.
use livox_mid360_core.Prelude.{
  ℕ, ◌≡◌, ◌==◌, ◌&&◌, ◌∙◌, refl, sym, ap, not, ==_iff, Bool-cases, inl, inr, if◌then◌else◌, List,
  [], ◌∷◌, ◌++◌, Option, none, some, arith,
}
use livox_mid360_core.Keys.Scalars.{DiagStatus}
use livox_mid360_core.Hms.{HmsCode}
use livox_mid360_core.Transport.{same_bytes}
use livox_mid360_core.Info.{LidarStatus}
use livox_mid360_core.Event.{
  Event, state_changed, hms_changed, diag_changed, disconnected, reconnected, stats_event,
  firmware_log_gap,
}
use livox_mid360_core.Device.Push.{
  Pushed, keep, carry_over, merged, state_of, state_events, sort, raw_codes, hms_events, same_diag,
  diag_events, observe_status, observe_run,
}

-- From a state, each state event starts in the state that it finds and ends in another one; other events
-- change nothing. `none` is a broken chain.
abbrev pub walk : ℕ → List Event → Option ℕ
walk at [] = some at
walk at (state_changed old new time ∷ es) =
    let rest = walk new es in if old == at && not (new == at) then rest else none
walk at (_ ∷ es) = walk at es

walk-append :
    (at : ℕ) (es fs : List Event) {mid : ℕ}
    → walk at es ≡ some mid
    → walk at (es ++ fs) ≡ walk mid fs
walk-append at [] fs h = ap (λ s. walk s fs) (cc)
walk-append at (state_changed old new time ∷ es) fs {mid = m} h =
    ground (arith, walk-append new es fs {mid = m})
walk-append at (hms_changed a b c ∷ es) fs h = walk-append at es fs h
walk-append at (diag_changed a b c ∷ es) fs h = walk-append at es fs h
walk-append at (disconnected a b ∷ es) fs h = walk-append at es fs h
walk-append at (reconnected a b ∷ es) fs h = walk-append at es fs h
walk-append at (stats_event a b ∷ es) fs h = walk-append at es fs h
walk-append at (firmware_log_gap a b c d ∷ es) fs h = walk-append at es fs h

walk-hms :
    (at time : ℕ) (codes : Option (List HmsCode)) (seen : List ℕ) (fs : List Event)
    → walk at (hms_events time codes seen ++ fs) ≡ walk at fs
unfolding hms_events
walk-hms at time none seen fs = refl
walk-hms at time (some codes) seen fs =
    elim (Bool-cases (same_bytes (sort (raw_codes codes)) seen)) [
      | inl same ↦ rw same refl
      | inr other ↦ rw other refl
    ]

walk-diag :
    (at time : ℕ) (d : Option DiagStatus) (seen : DiagStatus)
    → walk at (diag_events time d seen) ≡ some at
unfolding diag_events
walk-diag at time none seen = refl
walk-diag at time (some d) seen = elim (Bool-cases (same_diag d seen)) [
  | inl same ↦ rw same refl
  | inr other ↦ rw other refl
]

-- What the merged state is: the pushed one, or the one before.
walk-state :
    (at time : ℕ) (new : Option ℕ)
    → (b : ℕ) × (keep new (some at) ≡ some b)
      × (walk at (state_events time (some at) (keep new (some at))) ≡ some b)
unfolding state_events
walk-state at time none = (at, refl, rw ((==_iff at at).1 refl) refl)
walk-state at time (some n) = elim (Bool-cases (at == n)) [
  | inl same ↦ (n, refl, ground arith)
  | inr other ↦ (n, refl, ground arith)
]

-- The state of a status that is known.
abbrev pub known : Option LidarStatus → Option ℕ
known o = state_of o

merged-state :
    (time : ℕ) (decoded : LidarStatus) (o : Option LidarStatus)
    → (merged time decoded o).cur_work_state ≡ keep decoded.cur_work_state (known o)
unfolding merged carry_over
merged-state time decoded (some prev) = refl
merged-state time decoded none = keep_none decoded.cur_work_state
  where
    keep_none : (o : Option ℕ) → o ≡ keep o none
    keep_none none = refl
    keep_none (some n) = refl

walk-observe_status :
    (at time : ℕ) (decoded : LidarStatus) (p : Pushed)
    → known p.status ≡ some at
    → (b : ℕ) × (known (observe_status time decoded p).0.status ≡ some b)
      × (walk at (observe_status time decoded p).1 ≡ some b)
unfolding observe_status
walk-observe_status at time decoded p h =
    let next = merged time decoded p.status in
    let state = merged-state time decoded p.status ∙ ap (keep decoded.cur_work_state) h in
    let (b, is_b, walked) = walk-state at time decoded.cur_work_state in
    (
      b,
      state ∙ is_b,
      walk-append at (state_events time (known p.status) next.cur_work_state) _ (
            ap (λ o. walk at (state_events time o next.cur_work_state)) h
            ∙ ap (λ o. walk at (state_events time (some at) o)) state
            ∙ walked)
          ∙ walk-hms b time next.hms_code p.hms_sorted _
          ∙ walk-diag b time next.lidar_diag_status p.diag_seen,
    )

-- Once a working state is known, the state events of any run of pushes form a chain: each starts where
-- the one before ended, none stands still, and the last one leads to the state that is known then.
pub walk-observe_run :
    (ds : List (ℕ × LidarStatus)) (at : ℕ) (p : Pushed)
    → known p.status ≡ some at
    → walk at (observe_run ds p).1 ≡ known (observe_run ds p).0.status
unfolding observe_run
walk-observe_run [] at p h = sym h
walk-observe_run ((time, decoded) ∷ ds) at p h =
    let (b, state, walked) = walk-observe_status at time decoded p h in
    walk-append at (observe_status time decoded p).1 _ walked
    ∙ walk-observe_run ds b (observe_status time decoded p).0 state
