-- ===== src/Device/Connection/Rounds.antt =====
-- The worker: the wait for the power-down after a reboot.
use livox_mid360_core.Prelude.{ℕ, ◌+◌, ◌/◌, ◌≤◌, ◌<◌, ◌≡◌, ◌≢◌, refl, List, [], ◌∷◌, ◌++◌, arith}
use livox_mid360_core.Device.Connection.{
  Connection, PowerDown, error_push, pushes_stopped, still_pushing, keeps_waiting, power_down_at,
  wait_rounds,
}

-- The wait goes on exactly while no push went into an error, pushes are recent and the cap is ahead;
-- so at any wake-up a push timeout after the request it is over, and when it ends for want of pushes
-- half a push timeout has passed since the last one and since the request.
pub power_down_at-keeps_waiting :
    (timeout sent now : ℕ) (c : Connection)
    → ((power_down_at timeout sent now c ≡ keeps_waiting) → now < sent + timeout)
      × ((power_down_at timeout sent now c ≡ pushes_stopped)
          → (sent + timeout / 2 ≤ now) × (c.last_push + timeout / 2 ≤ now))
unfolding power_down_at
power_down_at-keeps_waiting timeout sent now c = (λ h. ground arith, λ h. ground arith)

-- One round of the loop, by what it finds.
abbrev after_round : PowerDown → PowerDown → PowerDown
after_round why rest = elim why [ keeps_waiting ↦ rest | other ↦ other ]

over : (why rest : PowerDown) → why ≢ keeps_waiting → after_round why rest ≢ keeps_waiting
over error_push rest h e = h e
over pushes_stopped rest h e = h e
over still_pushing rest h e = h e
over keeps_waiting rest h e = h refl

go_round : (why rest : PowerDown) → rest ≢ keeps_waiting → after_round why rest ≢ keeps_waiting
go_round error_push rest h e = cc
go_round pushes_stopped rest h e = cc
go_round still_pushing rest h e = cc
go_round keeps_waiting rest h e = h e

-- The wait for the power-down is over at the latest at the first wake-up that comes a push timeout
-- after the request, whatever the connection does meanwhile.
pub wait_rounds_end :
    (timeout sent : ℕ) (before : List (Connection × ℕ)) (c : Connection) (now : ℕ)
    (later : List (Connection × ℕ))
    → sent + timeout ≤ now
    → wait_rounds timeout sent (before ++ ((c, now) ∷ later)) ≢ keeps_waiting
unfolding wait_rounds
wait_rounds_end timeout sent [] c now later h e =
    over (power_down_at timeout sent now c) (wait_rounds timeout sent later)
      (λ k. (omega (arith, (power_down_at-keeps_waiting timeout sent now c).0 k))) e
wait_rounds_end timeout sent ((b, t) ∷ before) c now later h e =
    go_round (power_down_at timeout sent t b) _ (wait_rounds_end timeout sent before c now later h)
      e
