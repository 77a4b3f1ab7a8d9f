-- ===== src/Device/Streams.antt =====
-- src/device.cpp: the data ports and the timers of the receive thread. A callback that is set gets what
-- is collected in the outputs, in order. `now` is the steady clock, in nanoseconds.
pub mod Kept
pub mod Ledger
pub mod Periods
use livox_mid360_core.Prelude.{
  ℕ, zero, suc, ◌+◌, ◌-◌, ◌%◌, ◌^◌, ◌==◌, ◌&&◌, ◌||◌, leb, not, Bool, true, false, if◌then◌else◌,
  List, [], ◌∷◌, ◌++◌, length, Option, none, some, Result, ok, err, fault, ◌>>=◌,
}
use livox_mid360_core.Prelude.Int.{ℤ, pos, pos_part, ltb_ℤ}
use livox_mid360_core.Protocol.Types.{
  ParseError, DataType, imu, DataPacketHeader, DataPacketView, ImuSample, time_no_sync,
}
use livox_mid360_core.Protocol.DataPacket.{
  parse_data_packet, decode_imu, same_type, sample_timestamp_ns,
}
use livox_mid360_core.FrameAssembler.DropCounter
use livox_mid360_core.FrameAssembler.DropCounter.{DropCounter, observe}
use livox_mid360_core.FrameAssembler.TimeMapper.{
  TimestampPolicy, lidar, host_offset_once, host_receive, TimeMapper, map_time, add64, sub64,
}
use livox_mid360_core.FrameAssembler.Points.{Floats, Frame}
use livox_mid360_core.FrameAssembler.State.{
  Assembler, FramePolicy, fresh, set_policy, discard, rebase, flush, has_partial,
}
use livox_mid360_core.FrameAssembler.Push.{push}
use livox_mid360_core.Session.Types.{count_up}
use livox_mid360_core.Transport.{Endpoint}

-- What the receive thread publishes of the assembler.
pub record Published : Type 0 where
  pub points : ℕ
  pub frames : ℕ
  pub dropped_packets : ℕ
  pub reordered : ℕ
  pub frame_cnt_fallback : ℕ
  pub type_switch_gaps : ℕ
  pub time_offset_ns : ℕ
  pub time_offset_valid : Bool

pub record Streams (F : Type 0) : Type 0 where
  pub assembler : Assembler F
  pub imu_drops : DropCounter
  pub imu_dropped : ℕ
  pub imu_reordered : ℕ
  pub idle_window : ℕ
  pub last_point_packet : ℕ
  pub packets : ℕ
  pub imu_samples : ℕ
  pub bad_packets : ℕ
  pub last_packet_time_ns : ℕ
  pub debug_data_packets : ℕ
  pub debug_data_bytes : ℕ
  pub last_debug_data_time_ns : ℕ
  pub published : Published

-- What other threads ask of the receive thread.
pub record Requests : Type 0 where
  pub discards : Bool
  pub rebases : Bool
  pub policy : Option FramePolicy

pub data Output (F : Type 0) : Type 0 where
  packet_out : DataPacketView → ℕ → Endpoint → Output F
  imu_out : ℕ → ImuSample → Output F
  frame_out : Frame F → Output F
  debug_out : List ℕ → ℕ → Endpoint → Output F

-- `DeviceOptions`, as far as the data path reads them.
pub record StreamOptions : Type 0 where
  pub verify_crc : Bool
  pub timestamps : TimestampPolicy

abbrev pub window_of : FramePolicy → ℕ
window_of policy = pos_part policy.window

abbrev pub new_streams : {F : Type 0} → FramePolicy → TimestampPolicy → Streams F
new_streams policy timestamps = record {
  assembler = fresh policy timestamps;
  imu_drops = DropCounter.init;
  imu_dropped = 0;
  imu_reordered = 0;
  idle_window = window_of policy;
  last_point_packet = 0;
  packets = 0;
  imu_samples = 0;
  bad_packets = 0;
  last_packet_time_ns = 0;
  debug_data_packets = 0;
  debug_data_bytes = 0;
  last_debug_data_time_ns = 0;
  published = record {
    points = 0;
    frames = 0;
    dropped_packets = 0;
    reordered = 0;
    frame_cnt_fallback = 0;
    type_switch_gaps = 0;
    time_offset_ns = 0;
    time_offset_valid = false;
  };
}

abbrev pub offset_or : Option ℕ → ℕ → ℕ
offset_or none old = old
offset_or (some offset) old = offset

abbrev pub is_measured : Option ℕ → Bool → Bool
is_measured none old = old
is_measured (some offset) old = true

abbrev pub is_once : TimestampPolicy → Bool
is_once host_offset_once = true
is_once lidar = false
is_once host_receive = false

abbrev pub is_none : Option ℕ → Bool
is_none none = true
is_none (some o) = false

-- The time of an IMU packet: an offset that is still to be measured is left to the point cloud.
unfoldable pub imu_time : TimestampPolicy → TimeMapper → DataPacketHeader → ℕ → TimeMapper × ℕ
imu_time timestamps m h recv_time =
    if is_once timestamps && is_none m.offset && (h.time_type == time_no_sync)
    then (m, recv_time)
    else map_time m h recv_time

-- What the receive thread gets, with the requests that it finds.
pub data Input : Type 0 where
  receives_data : Requests → List ℕ → Endpoint → ℕ → ℕ → Input
  receives_debug : List ℕ → Endpoint → ℕ → Input
  wakes : Requests → ℕ → Input

module _ {F : Type 0} where
  -- The three requests of `consume_requests`, in order.
  abbrev pub take_discard : Bool → Streams F → Streams F
  take_discard false s = s
  take_discard true s = record s { assembler = discard s.assembler }

  abbrev pub take_rebase : Bool → Streams F → Streams F
  take_rebase false s = s
  take_rebase true s = record s {
    assembler = rebase s.assembler;
    imu_drops = DropCounter.reset s.imu_drops;
  }

  abbrev pub take_policy : Option FramePolicy → Streams F → Streams F
  take_policy none s = s
  take_policy (some policy) s = record s {
    assembler = set_policy s.assembler policy;
    idle_window = window_of policy;
  }

  unfoldable pub consume_requests : Requests → Streams F → Streams F
  consume_requests r s = take_policy r.policy (take_rebase r.rebases (take_discard r.discards s))

  unfoldable pub publish_assembler_counters : Streams F → Streams F
  publish_assembler_counters s =
      let c = s.assembler.counters in
      let offset = s.assembler.time.offset in
      record s {
        published = record {
          points = c.points;
          frames = c.frames;
          dropped_packets = add64 c.dropped_packets s.imu_dropped;
          reordered = add64 c.reordered s.imu_reordered;
          frame_cnt_fallback = c.frame_cnt_fallback;
          type_switch_gaps = c.type_switch_gaps;
          time_offset_ns = offset_or offset s.published.time_offset_ns;
          time_offset_valid = is_measured offset s.published.time_offset_valid;
        };
      }

  abbrev pub frame_outputs : Option (Frame F) → List (Output F)
  frame_outputs none = []
  frame_outputs (some f) = frame_out f ∷ []

  -- `deliver`, after the assembler has changed.
  abbrev pub deliver : Streams F → Assembler F × Option (Frame F) → Streams F × List (Output F)
  deliver s (a, frame) =
      (publish_assembler_counters (record s { assembler = a }), frame_outputs frame)

  -- The samples of an IMU packet from sample `i` on, with those left.
  unfoldable pub imu_outputs : DataPacketView → ℕ → ℕ → ℕ → Result ParseError (List (Output F))
  imu_outputs pkt t₀ zero i = ok []
  imu_outputs pkt t₀ (suc n) i = do
    sample ← decode_imu pkt i
    rest ← imu_outputs pkt t₀ n (i + 1)
    let t = add64 t₀ (sub64 (sample_timestamp_ns pkt.header i) pkt.header.timestamp_ns)
    ok (imu_out t sample ∷ rest)

  -- The branch of `on_datagram` for an IMU packet.
  unfoldable pub on_imu :
      TimestampPolicy
      → DataPacketView
      → ℕ
      → Streams F
      → Result ParseError (Streams F × List (Output F))
  unfolding imu_outputs imu_time
  on_imu timestamps pkt recv_time s =
      let h = pkt.header in
      let (drops, drop) = observe s.imu_drops h.udp_cnt false in
      let (time, t₀) = imu_time timestamps s.assembler.time h recv_time in
      do
        outs ← imu_outputs pkt t₀ h.dot_num 0
        ok (
          publish_assembler_counters (record s {
            imu_drops = drops;
            imu_dropped = add64 s.imu_dropped drop.dropped;
            imu_reordered = add64 s.imu_reordered (if drop.reordered then 1 else 0);
            assembler = record s.assembler { time = time };
            imu_samples = add64 s.imu_samples h.dot_num;
          }),
          outs,
        )

  unfoldable pub on_debug_data : List ℕ → Endpoint → ℕ → Streams F → Streams F × List (Output F)
  on_debug_data bytes from recv_time s = (
    record s {
      debug_data_packets = count_up s.debug_data_packets;
      debug_data_bytes = add64 s.debug_data_bytes (length bytes);
      last_debug_data_time_ns = recv_time;
    },
    debug_out bytes recv_time from ∷ [],
  )

  -- The idle close of `tick`.
  unfoldable pub close_idle : ℕ → Streams F → Streams F × List (Output F)
  close_idle now s =
      if has_partial s.assembler && leb (s.last_point_packet + s.idle_window) now
      then deliver s (flush s.assembler)
      else (s, [])

module _ (fl : Floats) (options : StreamOptions) where
  open fl use {Float}

  -- The branch for a point packet.
  unfoldable pub on_points :
      DataPacketView
      → ℕ
      → ℕ
      → Streams Float
      → Result ParseError (Streams Float × List (Output Float))
  on_points pkt recv_time now s = do
    r ← push fl s.assembler pkt recv_time
    ok (deliver (record s { last_point_packet = now }) r)

  -- A packet that parsed.
  unfoldable pub on_packet :
      Requests
      → DataPacketView
      → Endpoint
      → ℕ
      → ℕ
      → Streams Float
      → Result ParseError (Streams Float × List (Output Float))
  unfolding on_points on_imu
  on_packet requests pkt from recv_time now s =
      let s' =
        consume_requests requests
          (record s { packets = count_up s.packets; last_packet_time_ns = recv_time }) in
      do
        r ←
            if same_type pkt.header.data_type imu
            then on_imu options.timestamps pkt recv_time s'
            else on_points pkt recv_time now s'
        ok (r.0, packet_out pkt recv_time from ∷ r.1)

  -- `on_datagram` on the point and IMU ports.
  unfoldable pub on_data :
      Requests
      → List ℕ
      → Endpoint
      → ℕ
      → ℕ
      → Streams Float
      → Result ParseError (Streams Float × List (Output Float))
  unfolding on_packet
  on_data requests bytes from recv_time now s = elim (parse_data_packet bytes options.verify_crc) [
    | ok pkt ↦ on_packet requests pkt from recv_time now s
    | err e ↦ ok (record s { bad_packets = count_up s.bad_packets }, [])
    | fault ↦ fault
  ]

  unfoldable pub handle :
      Input → Streams Float → Result ParseError (Streams Float × List (Output Float))
  handle (receives_data requests bytes from recv_time now) s =
      on_data requests bytes from recv_time now s
  handle (receives_debug bytes from recv_time) s = ok (on_debug_data bytes from recv_time s)
  handle (wakes requests now) s = ok (close_idle now (consume_requests requests s))

  unfoldable pub handle_all :
      List Input → Streams Float → Result ParseError (Streams Float × List (Output Float))
  handle_all [] s = ok (s, [])
  handle_all (i ∷ is) s = do r ← handle i s; rest ← handle_all is r.0; ok (rest.0, r.1 ++ rest.1)

-- The stats timer of `tick`: periods that were missed are skipped, one round for each, with fuel.
unfoldable pub skip_periods : ℕ → ℕ → ℕ → ℕ → ℕ
skip_periods zero interval now next = next
skip_periods (suc fuel) interval now next = elim (leb next now) [
  | true ↦ skip_periods fuel interval now (next + interval)
  | false ↦ next
]

-- The next time, and whether the statistics are raised.
unfoldable pub stats_tick : ℤ → ℕ → ℕ → ℕ × Bool
stats_tick interval now next =
    if ltb_ℤ (pos 0) interval && leb next now
    then (skip_periods (suc (now - next)) (pos_part interval) now next, true)
    else (next, false)
