-- ===== src/FrameAssembler/DropCounter.antt =====
-- `DropCounter`: gaps of the 16-bit packet counter of one source port.
pub mod Gaps
use livox_mid360_core.Prelude.{
  ℕ, ◌+◌, ◌-◌, ◌%◌, ◌^◌, ltb, ◌==◌, ◌&&◌, ◌||◌, Bool, true, false, if◌then◌else◌, Option, none,
  some,
}

pub record DropCounter : Type 0 where
  pub have : Bool
  pub last : ℕ

pub record DropResult : Type 0 where
  pub dropped : ℕ
  pub reordered : Bool

abbrev pub init : DropCounter
init = record { have = false; last = 0 }

-- `observe`: the counter afterwards, and the result.
unfoldable pub observe : DropCounter → ℕ → Bool → DropCounter × DropResult
observe d udp_cnt frame_changed =
    let expected = (d.last + 1) % 2 ^ 16 in
    let gap = (udp_cnt + 2 ^ 16 - expected) % 2 ^ 16 in
    let seen : DropCounter = record { have = true; last = udp_cnt } in
    if d.have
    then (if gap == 0 || (udp_cnt == 0 && frame_changed)
        then (seen, record { dropped = 0; reordered = false })
        else if ltb 0x8000 gap
        then (d, record { dropped = 0; reordered = true })
        else (seen, record { dropped = gap; reordered = false }))
    else (seen, record { dropped = 0; reordered = false })

-- `reset`.
unfoldable pub reset : DropCounter → DropCounter
reset d = record d { have = false }
