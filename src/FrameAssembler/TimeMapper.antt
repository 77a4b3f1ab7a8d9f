-- ===== src/FrameAssembler/TimeMapper.antt =====
-- `TimeMapper`: packet time to output time. The signed differences of the C++ are 64-bit patterns
-- here; where they overflow, which the C++ leaves undefined, they wrap.
pub mod Offsets
use livox_mid360_core.Prelude.{
  ℕ, ◌+◌, ◌-◌, ◌%◌, ◌^◌, ◌==◌, ◌||◌, not, Bool, true, false, if◌then◌else◌, Option, none, some,
}
use livox_mid360_core.Protocol.Types.{DataPacketHeader, time_no_sync}

pub data TimestampPolicy : Type 0 where
  lidar host_offset_once host_receive : TimestampPolicy

pub record TimeMapper : Type 0 where
  pub policy : TimestampPolicy
  pub offset : Option ℕ
  pub synced : Bool

abbrev pub init : TimestampPolicy → TimeMapper
init policy = record { policy = policy; offset = none; synced = false }

abbrev pub add64 : ℕ → ℕ → ℕ
add64 a b = (a + b) % 2 ^ 64

abbrev pub sub64 : ℕ → ℕ → ℕ
sub64 a b = (a + 2 ^ 64 - b) % 2 ^ 64

-- The offset that stands, unless it has to be measured.
abbrev pub measured : Option ℕ → Bool → ℕ → ℕ
measured none synced fresh = fresh
measured (some o) synced fresh = if synced then fresh else o

-- The free-running clock under `kHostOffsetOnce`.
unfoldable pub map_free : TimeMapper → ℕ → ℕ → TimeMapper × ℕ
map_free m timestamp_ns recv_time_ns =
    let o = measured m.offset m.synced (sub64 recv_time_ns timestamp_ns) in
    (record m { offset = some o; synced = false }, add64 timestamp_ns o)

unfoldable pub map_once : TimeMapper → DataPacketHeader → ℕ → TimeMapper × ℕ
unfolding map_free
map_once m h recv_time_ns =
    if not (h.time_type == time_no_sync)
    then (record m { synced = true }, h.timestamp_ns)
    else map_free m h.timestamp_ns recv_time_ns

unfoldable pub map_by : TimestampPolicy → TimeMapper → DataPacketHeader → ℕ → TimeMapper × ℕ
unfolding map_once
map_by lidar m h recv_time_ns = (m, h.timestamp_ns)
map_by host_receive m h recv_time_ns = (m, recv_time_ns)
map_by host_offset_once m h recv_time_ns = map_once m h recv_time_ns

-- `map`.
unfoldable pub map_time : TimeMapper → DataPacketHeader → ℕ → TimeMapper × ℕ
unfolding map_by
map_time m h recv_time_ns = map_by m.policy m h recv_time_ns

-- `reset`.
unfoldable pub reset : TimeMapper → TimeMapper
reset m = record m { offset = none; synced = false }
