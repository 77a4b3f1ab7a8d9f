-- ===== src/FrameAssembler/TimeMapper/Offsets.antt =====
-- The offset between the LiDAR's free-running clock and the host.
use livox_mid360_core.Prelude.{
  ℕ, ◌^◌, ◌<◌, ◌≡◌, refl, ◌⊎◌, ==_iff, true, false, none, some, List, [], ◌∷◌, arith,
}
use livox_mid360_core.Bytes.{All}
use livox_mid360_core.Protocol.Types.{DataPacketHeader, time_no_sync}
use livox_mid360_core.FrameAssembler.TimeMapper.{
  TimeMapper, host_offset_once, map_time, add64, sub64,
}

-- The mapper after a stream of packets, each with the time at which it was received.
abbrev pub run : TimeMapper → List (DataPacketHeader × ℕ) → TimeMapper
run m [] = m
run m ((h, recv) ∷ rest) = run (map_time m h recv).0 rest

abbrev pub IsFree : DataPacketHeader × ℕ → Type 0
IsFree (h, recv) = h.time_type ≡ time_no_sync

-- The mapper with the offset `o` taken from the free-running clock.
abbrev pub holding : ℕ → TimeMapper
holding o = record { policy = host_offset_once; offset = some o; synced = false }

map_time-holding :
    (o : ℕ) (h : DataPacketHeader) (recv : ℕ)
    → h.time_type ≡ time_no_sync
    → map_time (holding o) h recv ≡ (holding o, add64 h.timestamp_ns o)
unfolding map_time
map_time-holding o h recv free = rw ((==_iff h.time_type 0).1 free)

run-holding :
    (o : ℕ) (stream : List (DataPacketHeader × ℕ))
    → All IsFree stream
    → run (holding o) stream ≡ holding o
run-holding o [] free = refl
run-holding o ((h, recv) ∷ rest) free =
    rw (map_time-holding o h recv free.0) (run-holding o rest free.1)

-- Where no offset is held, or the packets before were synchronised, it is measured.
map_time_fresh :
    (m : TimeMapper) (h : DataPacketHeader) (recv : ℕ)
    → m.policy ≡ host_offset_once
    → (m.offset ≡ none) ⊎ (m.synced ≡ true)
    → h.time_type ≡ time_no_sync
    → map_time m h recv
      ≡ (holding (sub64 recv h.timestamp_ns), add64 h.timestamp_ns (sub64 recv h.timestamp_ns))
unfolding map_time
map_time_fresh m h recv once fresh free = ground (arith, (==_iff h.time_type 0).1 free)

-- Under `kHostOffsetOnce`, the first unsynchronised packet, or the first after a synchronised
-- stretch, gets the time at which it was received; every later one, while all are unsynchronised,
-- gets its own timestamp moved by that same difference, whenever it is received. These two
-- times are below 2 ^ 64.
pub map_time_once :
    (m : TimeMapper) (h₀ h : DataPacketHeader) (r₀ r : ℕ) (stream : List (DataPacketHeader × ℕ))
    → m.policy ≡ host_offset_once
    → (m.offset ≡ none) ⊎ (m.synced ≡ true)
    → All IsFree ((h₀, r₀) ∷ stream)
    → h.time_type ≡ time_no_sync
    → r₀ < 2 ^ 64
    → h₀.timestamp_ns < 2 ^ 64
    → ((map_time m h₀ r₀).1 ≡ r₀)
      × ((map_time (run m ((h₀, r₀) ∷ stream)) h r).1
          ≡ add64 h.timestamp_ns (sub64 r₀ h₀.timestamp_ns))
map_time_once m h₀ h r₀ r stream once fresh free last small small₀ =
    let o = sub64 r₀ h₀.timestamp_ns in
    let start = map_time_fresh m h₀ r₀ once fresh free.0 in
    (rw start (omega arith), rw (start, run-holding o stream free.1, map_time-holding o h r last))
