-- ===== src/Device/Connection/Events.antt =====
-- The loss and recovery events of a connection, in a list.
use livox_mid360_core.Prelude.{
  ℕ, ◌+◌, ◌≡◌, ap, Bool, true, false, if◌then◌else◌, List, [], ◌∷◌, ◌++◌, Option, none, some, arith,
}
use livox_mid360_core.Event.{Event, disconnected, reconnected}

-- Whether a reader of the events, who starts connected, is connected after them: losses and recoveries
-- alternate, and the other events do not belong here.
abbrev pub link : Bool → List Event → Option Bool
link up [] = some up
link true (disconnected time reason ∷ es) = link false es
link false (reconnected time n ∷ es) = link true es
link _ (_ ∷ es) = none

abbrev pub losses : List Event → ℕ
losses [] = 0
losses (disconnected time reason ∷ es) = 1 + losses es
losses (_ ∷ es) = losses es

abbrev pub recoveries : List Event → ℕ
recoveries [] = 0
recoveries (reconnected time n ∷ es) = 1 + recoveries es
recoveries (_ ∷ es) = recoveries es

pub link-append :
    (up : Bool) (es fs : List Event) {mid : Bool}
    → link up es ≡ some mid
    → link up (es ++ fs) ≡ link mid fs
link-append up [] fs h = ap (λ b. link b fs) (cc)
link-append true (disconnected t r ∷ es) fs h = link-append false es fs h
link-append false (reconnected t n ∷ es) fs h = link-append true es fs h
link-append up (e ∷ es) fs h = cc

pub losses-append : (es fs : List Event) → losses (es ++ fs) ≡ losses es + losses fs
losses-append [] fs = omega arith
losses-append (disconnected t r ∷ es) fs = omega (arith, losses-append es fs)
losses-append (e ∷ es) fs = losses-append es fs

pub recoveries-append : (es fs : List Event) → recoveries (es ++ fs) ≡ recoveries es + recoveries fs
recoveries-append [] fs = omega arith
recoveries-append (reconnected t n ∷ es) fs = omega (arith, recoveries-append es fs)
recoveries-append (e ∷ es) fs = recoveries-append es fs

-- Losses and recoveries differ by the state that they lead to.
pub link-balance :
    (up : Bool) (es : List Event) {down : Bool}
    → link up es ≡ some down
    → losses es + (if up then 0 else 1) ≡ recoveries es + (if down then 0 else 1)
link-balance up [] h = ap (λ (b : Bool). 0 + (if b then 0 else 1)) (cc)
link-balance true (disconnected t r ∷ es) h = omega (arith, link-balance false es h)
link-balance false (reconnected t n ∷ es) h = omega (arith, link-balance true es h)
link-balance up (e ∷ es) h = cc
