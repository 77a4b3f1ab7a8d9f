-- ===== src/FrameAssembler/Push.antt =====
-- `FrameAssembler::push`, in the stages of its body.
pub mod Stages
pub mod Outcome
pub mod Offsets
pub mod Runs
use livox_mid360_core.Prelude.{
  ℕ, ◌+◌, ◌-◌, ◌*◌, ◌/◌, ◌%◌, ◌^◌, ◌==◌, ◌||◌, ◌&&◌, not, ltb, leb, Bool, true, false,
  if◌then◌else◌, Option, none, some, Result, ok, ◌>>=◌,
}
use livox_mid360_core.Protocol.Types.{DataType, imu, DataPacketHeader, DataPacketView}
use livox_mid360_core.Protocol.DataPacket.{same_type}
use livox_mid360_core.FrameAssembler.DropCounter.{DropResult, observe}
use livox_mid360_core.FrameAssembler.TimeMapper.{map_time, add64, sub64}
use livox_mid360_core.FrameAssembler.Points.{Floats, Frame, append}
use livox_mid360_core.FrameAssembler.State.{
  Assembler, is_window, window_ns, is_empty, time_window_active, take_frame,
}

-- `first_time_` with a step back of the clock.
abbrev pub earliest : Option ℕ → ℕ → ℕ
earliest none t₀ = t₀
earliest (some first) t₀ = if ltb t₀ first then t₀ else first

abbrev pub frame_changed : {F : Type 0} → Assembler F → DataPacketHeader → Bool
frame_changed a h = a.have_prev && not (h.frame_cnt == a.prev_frame_cnt)

module _ {F : Type 0} where
  -- The drop counter, and the counters that follow it.
  unfoldable pub count_drop : Assembler F → DataPacketHeader → Assembler F × DropResult
  count_drop a h =
      let (drops, drop) = observe a.drops h.udp_cnt (frame_changed a h) in
      let c = a.counters in
      let switched =
        drop.dropped == 1 && a.have_prev && not (same_type h.data_type a.prev_data_type) in
      let dropped = if switched then 0 else drop.dropped in
      (
        record a {
          drops = drops;
          counters = record c {
            type_switch_gaps = if switched then add64 c.type_switch_gaps 1 else c.type_switch_gaps;
            dropped_packets = add64 c.dropped_packets dropped;
            reordered = if drop.reordered then add64 c.reordered 1 else c.reordered;
          };
        },
        record { dropped = dropped; reordered = drop.reordered },
      )

  -- `first_time_`, and the fallback to the time window.
  unfoldable pub detect_fallback : Assembler F → Bool → ℕ → Assembler F
  detect_fallback a changed t₀ =
      let window = window_ns a.policy.window in
      let first = earliest a.first_time t₀ in
      let counting = not (is_window a.policy.mode) && not a.fallback in
      let late = leb (add64 first (2 * window % 2 ^ 64)) t₀ in
      let falls = counting && not changed && not a.frame_cnt_changed_ever && late in
      record a {
        first_time = some first;
        frame_cnt_changed_ever = if counting && changed then true else a.frame_cnt_changed_ever;
        fallback = if falls then true else a.fallback;
        counters = record a.counters {
          frame_cnt_fallback =
              if falls
              then add64 a.counters.frame_cnt_fallback 1
              else a.counters.frame_cnt_fallback;
        };
      }

  -- Whether the packet closes the frame that is open, whatever the mode.
  unfoldable pub closes_always : Assembler F → DataPacketHeader → ℕ → Bool
  closes_always a h t₀ =
      let base = a.cur.base_time_ns in
      not (same_type h.data_type a.cur.source_type)
      || not (h.time_type == a.cur.time_type)
      || leb (add64 t₀ (window_ns a.policy.window)) base
      || (leb base t₀ && ltb 0xFFFFFFFF (add64 (sub64 t₀ base) (h.time_interval * 100)))

  -- `close` and `on_grid`.
  unfoldable pub closes : Assembler F → DataPacketHeader → Bool → ℕ → Bool × Bool
  closes a h changed t₀ =
      let full = leb (add64 a.window_start (window_ns a.policy.window)) t₀ in
      let by_mode = if time_window_active a then full else changed in
      let always = closes_always a h t₀ in
      (by_mode || always, time_window_active a && full && not always)

  -- The frame that the packet closes, and `on_grid`.
  unfoldable pub close_frame :
      Assembler F → DataPacketHeader → Bool → ℕ → Assembler F × Option (Frame F) × Bool
  close_frame a h changed t₀ =
      let (close, on_grid) = closes a h changed t₀ in
      if is_empty a.cur.points
      then (a, none, false)
      else if close
      then (let (a', f) = take_frame a in (a', some f, on_grid))
      else (a, none, on_grid)

  -- A packet that finds no open frame begins one.
  unfoldable pub begin_frame : Assembler F → DataPacketHeader → Bool → ℕ → Assembler F
  begin_frame a h on_grid t₀ =
      let window = window_ns a.policy.window in
      let grid = add64 a.window_start (window * (sub64 t₀ a.window_start / window)) in
      if is_empty a.cur.points
      then record a {
        window_start = if on_grid then grid else t₀;
        cur = record a.cur {
          base_time_ns = t₀;
          end_time_ns = t₀;
          frame_cnt = h.frame_cnt;
          source_type = h.data_type;
          time_type = h.time_type;
        };
      }
      else a

module _ (fl : Floats) where
  open fl use {Float}

  abbrev pub added : Assembler Float → DataPacketView → ℕ → Frame Float → Assembler Float
  added a pkt dropped cur = record a {
    cur = record cur {
      dropped_packets = (cur.dropped_packets + dropped) % 2 ^ 32;
      packets = (cur.packets + 1) % 2 ^ 32;
    };
    counters = record a.counters {
      packets = add64 a.counters.packets 1;
      points = add64 a.counters.points pkt.header.dot_num;
    };
    have_prev = true;
    prev_frame_cnt = pkt.header.frame_cnt;
    prev_data_type = pkt.header.data_type;
  }

  -- The points of the packet, and the counters that follow them.
  unfoldable pub add_packet :
      {E : Type 0} → Assembler Float → DataPacketView → ℕ → ℕ → Result E (Assembler Float)
  add_packet a pkt dropped t₀ = do cur ← append fl pkt t₀ a.cur; ok (added a pkt dropped cur)

  -- From the detection of the fallback to the end.
  unfoldable pub place :
      {E : Type 0}
      → Assembler Float
      → DataPacketView
      → Bool
      → ℕ
      → ℕ
      → Result E (Assembler Float × Option (Frame Float))
  place a pkt changed dropped t₀ =
      let h = pkt.header in
      let (a', out, on_grid) = close_frame (detect_fallback a changed t₀) h changed t₀ in
      do done ← add_packet (begin_frame a' h on_grid t₀) pkt dropped t₀; ok (done, out)

  -- `push`: the assembler afterwards, and the frame that the packet closed.
  unfoldable pub push :
      {E : Type 0}
      → Assembler Float
      → DataPacketView
      → ℕ
      → Result E (Assembler Float × Option (Frame Float))
  push a pkt recv_time_ns =
      let h = pkt.header in
      let (time, t₀) = map_time a.time h recv_time_ns in
      let changed = frame_changed a h in
      let (counted, drop) = count_drop (record a { time = time }) h in
      if same_type h.data_type imu || h.dot_num == 0
      then ok (a, none)
      else if drop.reordered && changed && not (time_window_active a)
      then ok (counted, none)
      else place counted pkt changed drop.dropped t₀
