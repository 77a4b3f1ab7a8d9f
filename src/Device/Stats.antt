-- ===== src/Device/Stats.antt =====
-- src/device.cpp, `snapshot`: the statistics of a device, from the counters of its parts.
use livox_mid360_core.FrameAssembler.TimeMapper.{add64}
use livox_mid360_core.Event.{DeviceStats}
use livox_mid360_core.Device.Connection.{Connection}
use livox_mid360_core.Device.Push.{Pushed}
use livox_mid360_core.Device.Log.{LogState}
use livox_mid360_core.Device.Streams.{Streams}

-- A data packet and a push that do not parse are counted in one field.
unfoldable pub snapshot : {F : Type 0} → Streams F → Pushed → LogState → Connection → DeviceStats
snapshot s p l c = record {
  packets = s.packets;
  points = s.published.points;
  frames = s.published.frames;
  imu_samples = s.imu_samples;
  bad_packets = add64 s.bad_packets p.bad_packets;
  dropped_packets = s.published.dropped_packets;
  reordered = s.published.reordered;
  queue_drops = 0;
  frame_cnt_fallback = s.published.frame_cnt_fallback;
  type_switch_gaps = s.published.type_switch_gaps;
  last_packet_time_ns = s.last_packet_time_ns;
  pushes = p.pushes;
  last_push_time_ns = p.last_push_time_ns;
  disconnects = c.disconnects;
  reconnects = c.reconnects;
  time_offset_ns = s.published.time_offset_ns;
  time_offset_valid = s.published.time_offset_valid;
  log_chunks = l.chunks;
  log_bytes = l.bytes;
  log_gaps = l.gaps;
  log_acks_sent = l.acks_sent;
  bad_log_packets = l.bad_packets;
  last_log_time_ns = l.last_time_ns;
  debug_data_packets = s.debug_data_packets;
  debug_data_bytes = s.debug_data_bytes;
  last_debug_data_time_ns = s.last_debug_data_time_ns;
}
