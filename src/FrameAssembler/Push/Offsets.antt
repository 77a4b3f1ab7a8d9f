-- ===== src/FrameAssembler/Push/Offsets.antt =====
-- `Point::offset_ns` is the exact distance from the base time of the frame.
use livox_mid360_core.Prelude.{
  ℕ, ◌+◌, ◌-◌, ◌*◌, ◌^◌, ◌≤◌, ◌<◌, ◌≡◌, leb, false, arith, inl, inr, Bool-cases,
}
use livox_mid360_core.Protocol.Types.{DataPacketHeader, DataPacketView}
use livox_mid360_core.Protocol.DataPacket.{sample_timestamp_ns}
use livox_mid360_core.Protocol.DataPacket.Timestamps.{IsSpan, sample_timestamp_ns_order}
use livox_mid360_core.FrameAssembler.TimeMapper.{add64, sub64}
use livox_mid360_core.FrameAssembler.Points.{Floats, sample_time, offset_from}
use livox_mid360_core.FrameAssembler.State.{Assembler}
use livox_mid360_core.FrameAssembler.Push.{closes_always}

-- A sample is not before its packet, and not later than the packet's span.
sample_in_span :
    (h : DataPacketHeader) (i : ℕ)
    → IsSpan h
    → i < h.dot_num
    → (h.timestamp_ns ≤ sample_timestamp_ns h i)
      × (sample_timestamp_ns h i ≤ h.timestamp_ns + h.time_interval * 100)
sample_in_span h i valid below = elim (Bool-cases (leb h.dot_num 1)) [
  | inl one ↦
      let small : h.dot_num ≤ 1 = ground arith in
      let limit : h.timestamp_ns + h.time_interval * 100 < 2 ^ 64 = valid.fits in
      unfold sample_timestamp_ns in ground arith
  | inr many ↦
      let more : 1 < h.dot_num = ground arith in
      let (first, up, last) = sample_timestamp_ns_order h 0 i valid (omega arith) below more in
      let (first', up', last') =
        sample_timestamp_ns_order h i (h.dot_num - 1) valid (omega arith) (omega arith) more in
      (omega (arith, first, up), omega (arith, up', last'))
]

module _ (fl : Floats) where
  open fl use {Float}

  -- When a packet whose times do not wrap, and which is not before the base time of the open frame,
  -- leaves that frame open, each of its samples has as offset exactly its distance from the base
  -- time: the clamp to 32 bits never cuts it off.
  pub offset_from-sample_time :
      (a : Assembler Float) (pkt : DataPacketView) (t₀ i : ℕ)
      → IsSpan pkt.header
      → closes_always a pkt.header t₀ ≡ false
      → a.cur.base_time_ns ≤ t₀
      → t₀ + pkt.header.time_interval * 100 < 2 ^ 64
      → i < pkt.header.dot_num
      → a.cur.base_time_ns + offset_from fl a.cur.base_time_ns (sample_time fl pkt t₀ i)
        ≡ sample_time fl pkt t₀ i
  unfolding closes_always
  offset_from-sample_time a pkt t₀ i valid stays later fits below =
      let h = pkt.header in
      let base = a.cur.base_time_ns in
      let span = h.time_interval * 100 in
      let (low, high) = sample_in_span h i valid below in
      let limit : h.timestamp_ns + span < 2 ^ 64 = valid.fits in
      let distance : sub64 (sample_timestamp_ns h i) h.timestamp_ns
          ≡ sample_timestamp_ns h i - h.timestamp_ns =
        omega arith in
      let time : sample_time fl pkt t₀ i ≡ t₀ + (sample_timestamp_ns h i - h.timestamp_ns) =
        omega (arith, distance) in
      let near : add64 (sub64 t₀ base) span ≤ 0xFFFFFFFF = ground arith in
      let room : t₀ - base + span ≤ 0xFFFFFFFF = omega (arith, near) in
      ground (arith, time, low, high, room)
