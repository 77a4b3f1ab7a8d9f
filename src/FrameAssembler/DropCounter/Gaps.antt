-- ===== src/FrameAssembler/DropCounter/Gaps.antt =====
-- What the counter finds in a stream of packets, counted without the wrap at 2 ^ 16.
use livox_mid360_core.Prelude.{
  ℕ, ◌+◌, ◌-◌, ◌%◌, ◌^◌, ◌≤◌, ◌<◌, ◌≡◌, true, false, refl, Bool, ◌==◌, ◌&&◌, if◌then◌else◌, List,
  [], ◌∷◌, arith,
}
use livox_mid360_core.Bytes.{All}
use livox_mid360_core.FrameAssembler.DropCounter.{DropCounter, observe}

-- The counter after the packet with the sequence number `n`.
abbrev pub at : ℕ → DropCounter
at n = record { have = true; last = n % 2 ^ 16 }

-- What a packet `g` places behind the next one counts: at a frame change the counter may start again
-- at 0, and then nothing is.
abbrev pub lost_before : ℕ → ℕ → Bool → ℕ
lost_before n g changed = if changed && ((n + 1 + g) % 2 ^ 16 == 0) then 0 else g

-- One packet later than the last: the numbers between are counted as lost.
pub observe_later :
    (n g : ℕ) (changed : Bool)
    → g ≤ 0x8000
    → observe (at n) ((n + 1 + g) % 2 ^ 16) changed
      ≡ (at (n + 1 + g), record { dropped = lost_before n g changed; reordered = false })
unfolding observe
observe_later n g changed h = ground arith

-- A packet that is late by fewer than 2 ^ 15 places counts as reordered, and changes nothing.
pub observe_late :
    (n k : ℕ)
    → k ≤ n
    → k < 0x7FFF
    → observe (at n) ((n - k) % 2 ^ 16) false ≡ (at n, record { dropped = 0; reordered = true })
unfolding observe
observe_late n k h small = ground arith

-- The packets that follow number `n`: each with how many are missing before it, and whether it is the
-- first of a frame.
abbrev pub observe_all : DropCounter → ℕ → List (ℕ × Bool) → DropCounter × ℕ
observe_all d n [] = (d, 0)
observe_all d n ((g, changed) ∷ gs) =
    let (d', r) = observe d ((n + 1 + g) % 2 ^ 16) changed in
    let (end, total) = observe_all d' (n + 1 + g) gs in (end, r.dropped + total)

-- The packets missing, and the number of the last packet.
abbrev pub missing : ℕ → List (ℕ × Bool) → ℕ
missing n [] = 0
missing n ((g, changed) ∷ gs) = lost_before n g changed + missing (n + 1 + g) gs

abbrev pub last_number : ℕ → List (ℕ × Bool) → ℕ
last_number n [] = n
last_number n ((g, changed) ∷ gs) = last_number (n + 1 + g) gs

-- From packet number `n` on, over any packets of which each is at most 2 ^ 15 + 1 places behind the
-- one before it, the drops counted add up to the packets that are missing, across any number of
-- wraps of the 16-bit counter, and the counter ends at the number of the last packet. Not counted is
-- what is missing before the first packet of a frame whose counter is 0.
pub observe_all-missing :
    (n : ℕ) (gs : List (ℕ × Bool))
    → All (λ p. p.0 ≤ 0x8000) gs
    → observe_all (at n) n gs ≡ (at (last_number n gs), missing n gs)
observe_all-missing n [] h = refl
observe_all-missing n ((g, changed) ∷ gs) h =
    rw (observe_later n g changed h.0, observe_all-missing (n + 1 + g) gs h.1) refl
