-- ===== src/FrameAssembler/Push/Outcome.antt =====
-- What `push` does to the points and to the open frame.
use livox_mid360_core.Prelude.{
  ℕ, ◌≡◌, refl, sym, ap, ap₂, ◌⊎◌, inl, inr, List, ◌++◌, length, ok, ◌==◌, ◌&&◌, ◌||◌, not,
  if◌then◌else◌, Bool, true, false, arith, Result, Bool-cases, Option, none,
}
use livox_mid360_core.Protocol.Types.{ParseError, imu, DataPacketHeader, DataPacketView}
use livox_mid360_core.Protocol.DataPacket.{same_type}
use livox_mid360_core.FrameAssembler.DropCounter.{observe}
use livox_mid360_core.FrameAssembler.TimeMapper.{add64, map_time}
use livox_mid360_core.FrameAssembler.Points.{Floats, Point, Frame}
use livox_mid360_core.FrameAssembler.Points.Adding.{IsParsed, AreSamples, append-AddsTo}
use livox_mid360_core.FrameAssembler.State.{Assembler, time_window_active}
use livox_mid360_core.FrameAssembler.Push.{
  frame_changed, count_drop, detect_fallback, close_frame, begin_frame, added, add_packet, place,
  push,
}
use livox_mid360_core.FrameAssembler.Push.Stages.{
  Moves, Agree, then_add, Delivers-Agree, close_frame_lem, begin_frame_lem,
}

module _ (fl : Floats) where
  open fl use {Float}

  -- The outcome of a packet that is taken into a frame, at the time `t₀`: it succeeds, moves `dot_num`
  -- new points in, which are the packet's samples in order, and the open frame has the packet's format and time base.
  abbrev pub Takes :
      Assembler Float
      → DataPacketView
      → ℕ
      → Result ParseError (Assembler Float × Option (Frame Float))
      → Type 0
  Takes a pkt t₀ r =
      (a' : Assembler Float) × (out : Option (Frame Float)) × (new : List (Point Float)) × (r
        ≡ ok (a', out))
      × Moves a a' out new
      × (length new ≡ pkt.header.dot_num)
      × AreSamples fl pkt t₀ a'.cur.base_time_ns 0 new
      × (a'.cur.source_type ≡ pkt.header.data_type)
      × (a'.cur.time_type ≡ pkt.header.time_type)

  place_lem :
      (a : Assembler Float) (pkt : DataPacketView) (changed : Bool) (dropped t₀ : ℕ)
      → IsParsed pkt
      → same_type pkt.header.data_type imu ≡ false
      → Takes a pkt t₀ (place fl a pkt changed dropped t₀)
  unfolding place add_packet detect_fallback
  place_lem a pkt changed dropped t₀ parsed other =
      let h = pkt.header in
      let d = detect_fallback a changed t₀ in
      let (moves, ready) = close_frame_lem d h changed t₀ in
      let (a', out, on_grid) = close_frame d h changed t₀ in
      let b = begin_frame a' h on_grid t₀ in
      let begun = begin_frame_lem a' h on_grid t₀ ready in
      let (new, end, e, size, samples, small, later) = append-AddsTo fl pkt t₀ b.cur parsed other in
      let same : Agree a d = record { points = refl; count = refl; index = refl; frames = refl } in
      let c : Assembler Float =
        added fl b pkt dropped (record b.cur { points = b.cur.points ++ new; end_time_ns = end }) in
      (
        c,
        out,
        new,
        rw e,
        then_add a d a' c out new same moves (ap (λ ps. ps ++ new) begun.points)
            (ap₂ add64 begun.count (sym size)) begun.index begun.frames,
        size,
        samples,
        begun.source_type,
        begun.time_type,
      )

  -- A late packet of a frame that is already delivered.
  abbrev pub is_late : Assembler Float → DataPacketHeader → Bool
  is_late a h =
      (observe a.drops h.udp_cnt (frame_changed a h)).1.reordered
      && frame_changed a h
      && not (time_window_active a)

  -- A packet without points for a frame.
  abbrev pub is_ignored : DataPacketHeader → Bool
  is_ignored h = same_type h.data_type imu || h.dot_num == 0

  -- A parsed packet with points, which is not late for a delivered frame, succeeds from every state.
  -- Its `dot_num` samples, converted one by one and in order, each with its place in its frame's time,
  -- follow the points of the open frame, the frame that it closes, if any, has at
  -- least one point and takes the next index, no point is lost, and the frame that is then open has
  -- the format and the time base of the packet.
  pub push-Takes :
      (a : Assembler Float) (pkt : DataPacketView) (recv_time_ns : ℕ)
      → IsParsed pkt
      → is_ignored pkt.header ≡ false
      → is_late a pkt.header ≡ false
      → Takes a pkt (map_time a.time pkt.header recv_time_ns).1 (push fl a pkt recv_time_ns)
  unfolding push count_drop
  push-Takes a pkt recv_time_ns parsed wanted timely =
      let h = pkt.header in
      let (time, t₀) = map_time a.time h recv_time_ns in
      let (counted, drop) = count_drop (record a { time = time }) h in
      let (a', out, new, e, moves, size, samples, format, base) =
        place_lem counted pkt (frame_changed a h) drop.dropped t₀ parsed (ground (arith, wanted)) in
      (
        a',
        out,
        new,
        rw (wanted, timely) e,
        record {
          kept = moves.kept;
          counted = moves.counted;
          delivered = Delivers-Agree a counted a' a' out refl refl refl refl moves.delivered;
        },
        size,
        samples,
        format,
        base,
      )

  -- A packet without points, and a late packet of a delivered frame, deliver nothing and leave the
  -- open frame, the counts of points and frames, the next index and the memory of the previous
  -- packet as they are; the late one is counted as reordered.
  pub push_unplaced :
      (a : Assembler Float) (pkt : DataPacketView) (recv_time_ns : ℕ)
      → (is_ignored pkt.header ≡ true) ⊎ (is_late a pkt.header ≡ true)
      → (a' : Assembler Float) × (push fl {E = ParseError} a pkt recv_time_ns ≡ ok (a', none))
        × Agree a a'
        × (a'.cur ≡ a.cur)
        × (a'.have_prev ≡ a.have_prev)
        × (a'.prev_frame_cnt ≡ a.prev_frame_cnt)
        × (a'.counters.reordered ≡ (
            if is_ignored pkt.header then a.counters.reordered else add64 a.counters.reordered 1))
  unfolding push count_drop
  push_unplaced a pkt recv_time_ns why =
      let h = pkt.header in
      let (time, t₀) = map_time a.time h recv_time_ns in
      let (counted, drop) = count_drop (record a { time = time }) h in
      elim (Bool-cases (is_ignored h)) [
        | inl ignored ↦ rw ignored (
          a,
          refl,
          record { points = refl; count = refl; index = refl; frames = refl },
          refl,
          refl,
          refl,
          refl,
        )
        | inr wanted ↦ elim why [
          | inl ignored ↦ cc
          | inr late ↦
              let reordered : (observe a.drops h.udp_cnt (frame_changed a h)).1.reordered ≡ true =
                ground arith in
              (
                counted,
                rw (wanted, late) refl,
                record { points = refl; count = refl; index = refl; frames = refl },
                refl,
                refl,
                refl,
                rw (wanted, reordered) refl,
              )
        ]
      ]
