-- ===== src/FrameAssembler/State.antt =====
-- The state of `FrameAssembler` and its operations but for `push`.
use livox_mid360_core.Prelude.{
  ℕ, ◌+◌, ◌%◌, ◌^◌, ◌||◌, not, max, Bool, true, false, if◌then◌else◌, Option, none, some, List, [],
  ◌∷◌, length,
}
use livox_mid360_core.Prelude.Int.{ℤ, pos, negsuc}
use livox_mid360_core.Protocol.Types.{DataType, imu}
use livox_mid360_core.FrameAssembler.DropCounter.{DropCounter}
use livox_mid360_core.FrameAssembler.DropCounter
use livox_mid360_core.FrameAssembler.TimeMapper.{TimeMapper, TimestampPolicy, sub64, add64}
use livox_mid360_core.FrameAssembler.TimeMapper
use livox_mid360_core.FrameAssembler.Points.{Frame, empty_frame}

-- `FramePolicy::Mode`.
pub data Mode : Type 0 where
  frame_counter time_window : Mode

pub record FramePolicy : Type 0 where
  pub mode : Mode
  pub window : ℤ

pub record Counters : Type 0 where
  pub packets : ℕ
  pub points : ℕ
  pub frames : ℕ
  pub dropped_packets : ℕ
  pub reordered : ℕ
  pub frame_cnt_fallback : ℕ
  pub type_switch_gaps : ℕ

pub record Assembler (F : Type 0) : Type 0 where
  pub policy : FramePolicy
  pub time : TimeMapper
  pub drops : DropCounter
  pub counters : Counters
  pub cur : Frame F
  pub next_index : ℕ
  pub have_prev : Bool
  pub prev_frame_cnt : ℕ
  pub prev_data_type : DataType
  pub frame_cnt_changed_ever : Bool
  pub fallback : Bool
  pub first_time : Option ℕ
  pub window_start : ℕ

-- The constructor.
abbrev pub fresh : {F : Type 0} → FramePolicy → TimestampPolicy → Assembler F
fresh policy timestamps = record {
  policy = policy;
  time = TimeMapper.init timestamps;
  drops = DropCounter.init;
  counters = record {
    packets = 0;
    points = 0;
    frames = 0;
    dropped_packets = 0;
    reordered = 0;
    frame_cnt_fallback = 0;
    type_switch_gaps = 0;
  };
  cur = empty_frame;
  next_index = 0;
  have_prev = false;
  prev_frame_cnt = 0;
  prev_data_type = imu;
  frame_cnt_changed_ever = false;
  fallback = false;
  first_time = none;
  window_start = 0;
}

abbrev pub is_window : Mode → Bool
is_window frame_counter = false
is_window time_window = true

-- `max(policy_.window.count(), 1)`.
abbrev pub window_ns : ℤ → ℕ
window_ns (pos n) = max n 1
window_ns (negsuc n) = 1

abbrev pub is_empty : {A : Type 0} → List A → Bool
is_empty [] = true
is_empty (x ∷ xs) = false

module _ {F : Type 0} where
  abbrev pub set_policy : Assembler F → FramePolicy → Assembler F
  set_policy a policy = record a {
    policy = policy;
    fallback = false;
    frame_cnt_changed_ever = false;
    first_time = none;
  }

  abbrev pub time_window_active : Assembler F → Bool
  time_window_active a = is_window a.policy.mode || a.fallback

  abbrev pub has_partial : Assembler F → Bool
  has_partial a = not (is_empty a.cur.points)

  -- `take_frame`: the assembler afterwards, and the frame.
  unfoldable pub take_frame : Assembler F → Assembler F × Frame F
  take_frame a = (
    record a {
      next_index = (a.next_index + 1) % 2 ^ 32;
      counters = record a.counters { frames = add64 a.counters.frames 1 };
      cur = empty_frame;
    },
    record a.cur { index = a.next_index },
  )

  unfoldable pub discard : Assembler F → Assembler F
  discard a = record a {
    counters = record a.counters {
      points = sub64 a.counters.points (length a.cur.points % 2 ^ 64);
    };
    cur = record a.cur { points = []; packets = 0; dropped_packets = 0 };
  }

  -- `flush`.
  unfoldable pub flush : Assembler F → Assembler F × Option (Frame F)
  flush a = if is_empty a.cur.points then (a, none) else let (a', f) = take_frame a in (a', some f)

  abbrev pub rebase : Assembler F → Assembler F
  rebase a = record a { time = TimeMapper.reset a.time; drops = DropCounter.reset a.drops }
