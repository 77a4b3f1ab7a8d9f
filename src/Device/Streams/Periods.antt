-- ===== src/Device/Streams/Periods.antt =====
-- The timer of the statistics.
use livox_mid360_core.Prelude.{
  ℕ, zero, suc, ◌+◌, ◌-◌, ◌*◌, ◌≤◌, ◌<◌, ◌≡◌, ap, leb, ltb, ◌&&◌, max, Bool-cases, true, inl, inr,
  arith,
}
use livox_mid360_core.Prelude.Int.{pos}
use livox_mid360_core.Device.Streams.{skip_periods, stats_tick}

-- The loop ends by its test, a whole number of periods later and within one period of now.
skip_periods_end :
    (fuel interval now next : ℕ)
    → 0 < interval
    → now < next + fuel
    → (k : ℕ) × (skip_periods fuel interval now next ≡ next + k * interval)
      × (now < next + k * interval)
      × (next + k * interval ≤ max next (now + interval))
unfolding skip_periods
skip_periods_end zero interval now next positive enough = (0, omega arith, omega arith, omega arith)
skip_periods_end (suc fuel) interval now next positive enough = elim (Bool-cases (leb next now)) [
  | inl missed ↦
      let (k, e, after, near) =
        skip_periods_end fuel interval now (next + interval) positive (omega arith) in
      let again : next + suc k * interval ≡ next + interval + k * interval = grind arith in
      let behind : next ≤ now = ground arith in
      (
        suc k,
        rw (missed, skip_periods) (omega (arith, e, again)),
        omega (arith, after, again),
        omega (arith, near, again),
      )
  | inr ahead ↦ (0, rw (ahead, skip_periods) (omega arith), ground arith, ground arith)
]

-- A timer that is due is set to the first of its times that is after now: a whole number of periods
-- later, however many were missed, and at most one period away; the statistics are raised once.
pub stats_tick_due :
    (interval now next : ℕ)
    → 0 < interval
    → next ≤ now
    → (k : ℕ) × (stats_tick (pos interval) now next ≡ (next + k * interval, true))
      × (now < next + k * interval)
      × (next + k * interval ≤ now + interval)
unfolding stats_tick
stats_tick_due interval now next positive due =
    let (k, e, after, near) =
      skip_periods_end (suc (now - next)) interval now next positive (omega arith) in
    let fires : (ltb 0 (interval + 0) && leb next now) ≡ true = ground arith in
    (k, rw fires (ap (λ n. (n, true)) e), after, omega (arith, near))
