-- ===== src/Recording/Write.antt =====
-- src/lvx2.cpp, Lvx2Writer: open, write and close.
use livox_mid360_core.Prelude.{
  ℕ, zero, suc, ◌+◌, ◌-◌, ◌*◌, ◌/◌, ◌^◌, max, List, [], ◌∷◌, ◌++◌, length, replicate, get_elem?,
  Bool, true, false, ltb, ◌==◌, ◌||◌, if◌then◌else◌, Option, none, some, Result, ok, err, fault,
  ◌>>=◌, map,
}
use livox_mid360_core.Bytes.{write_le}
use livox_mid360_core.Protocol.CommandFrame.{is_empty}
use livox_mid360_core.Protocol.Types.{
  imu, cartesian32, cartesian16, spherical, DataPacketView, DataPacketHeader,
}
use livox_mid360_core.Protocol.DataPacket.{decode_spherical}
use livox_mid360_core.Recording.{
  Lvx2Error, io, invalid_argument, package_header_size, type_cartesian32, type_cartesian16,
  Lvx2DeviceInfo, Stdio, Doubles,
}
use livox_mid360_core.Recording.Writer.{
  clock_jump_ns, to_i32_bits, put_byte, file_header, DeviceClock, Writer, Step, and_then, sub_u64,
  up_u64, write_bytes, flush_frame,
}

-- After the header was written; the file is closed again when that failed.
abbrev pub keep_header : ℕ → Step (Unit {0}) → Step (Unit {0})
keep_header size (w, ok x) =
    (record w { offset = size; stats = record w.stats { bytes = size } }, ok tt)
keep_header size (w, err e) = (record w { file = none }, err e)
keep_header size (w, fault) = (w, fault)

unfoldable pub write_header : Stdio → List ℕ → Writer → Step (Unit {0})
write_header stdio hdr w = keep_header (length hdr) (write_bytes stdio hdr w)

-- `Lvx2Writer::open`.
unfoldable pub open_writer : Stdio → List Lvx2DeviceInfo → ℕ → Writer → Step (Unit {0})
unfolding write_header
open_writer stdio devices frame_duration_ms w = elim w.file [
  | some content ↦ (w, err invalid_argument)
  | none ↦ elim (is_empty devices || ltb 255 (length devices) || (frame_duration_ms == 0)) [
    | true ↦ (w, err invalid_argument)
    | false ↦ elim stdio.opens [
      | false ↦ (w, err io)
      | true ↦
          let opened : Writer = record w {
            file = some [];
            lidar_ids = map (λ (d : Lvx2DeviceInfo). d.lidar_id) devices;
            frame_duration_ms = frame_duration_ms;
            stats = record { packets = 0; frames = 0; bytes = 0; ignored = 0 };
            frame = [];
            frame_slot = none;
            clocks = map (λ (d : Lvx2DeviceInfo). record { base = none; prev = 0 }) devices;
            latest_ns = 0;
            frame_index = 0;
          } in
          and_then (opened, file_header devices frame_duration_ms)
            (λ w hdr. write_header stdio hdr w)
    ]
  ]
]

-- `spherical_to_cartesian32`: the 14 bytes of one sample.
unfoldable pub spherical_to_cartesian32 :
    {E : Type 0} → Doubles → DataPacketView → ℕ → Result E (List ℕ)
unfolding put_byte
spherical_to_cartesian32 db pkt i = do
  p ← decode_spherical pkt i
  let d = db.from_int p.depth_mm
  let theta = db.times (db.from_int p.theta_centideg) db.centideg_to_rad
  let phi = db.times (db.from_int p.phi_centideg) db.centideg_to_rad
  let st = db.sin theta
  let x = db.round (db.times (db.times d st) (db.cos phi))
  let y = db.round (db.times (db.times d st) (db.sin phi))
  let z = db.round (db.times d (db.cos theta))
  out ← write_le 4 (replicate 14 0) 0 (to_i32_bits x)
  out ← write_le 4 out 4 (to_i32_bits y)
  out ← write_le 4 out 8 (to_i32_bits z)
  out ← put_byte out 12 p.reflectivity
  put_byte out 13 p.tag

-- The samples from `i` on, with the number left.
unfoldable pub convert_samples : {E : Type 0} → Doubles → DataPacketView → ℕ → ℕ → Result E (List ℕ)
unfolding spherical_to_cartesian32
convert_samples db pkt zero i = ok []
convert_samples db pkt (suc n) i = do
  sample ← spherical_to_cartesian32 db pkt i
  rest ← convert_samples db pkt n (i + 1)
  ok (sample ++ rest)

-- The switch of `write`: nothing for an IMU packet, else the package type and its points.
unfoldable pub to_package : {E : Type 0} → Doubles → DataPacketView → Result E (Option (ℕ × List ℕ))
unfolding convert_samples
to_package db packet = elim packet.header.data_type [
  | imu ↦ ok none
  | cartesian32 ↦ ok (some (type_cartesian32, packet.samples))
  | cartesian16 ↦ ok (some (type_cartesian16, packet.samples))
  | spherical ↦ do
    points ← convert_samples db packet (length packet.samples / 10) 0
    ok (some (type_cartesian32, points))
]

abbrev pub set_at {ℓ} : {A : Type ℓ} → List A → ℕ → A → List A
set_at [] i a = []
set_at (x ∷ xs) zero a = a ∷ xs
set_at (x ∷ xs) (suc i) a = x ∷ set_at xs i a

-- `ts > prev ? ts - prev : prev - ts`.
abbrev pub distance : ℕ → ℕ → ℕ
distance ts prev = if ltb prev ts then ts - prev else prev - ts

-- The time at which the device's clock had the base of the recording.
abbrev pub base_of : DeviceClock → ℕ → ℕ → ℕ
base_of clock ts latest_ns = elim clock.base [
  | none ↦ sub_u64 ts latest_ns
  | some base ↦ if ltb clock_jump_ns (distance ts clock.prev) then sub_u64 ts latest_ns else base
]

-- `ts - base` as an `int64_t`, and 0 where that is negative.
abbrev pub time_from : ℕ → ℕ → ℕ
time_from ts base = let u = sub_u64 ts base in if ltb u (2 ^ 63) then u else 0

abbrev pub slot_of : ℕ → ℕ → ℕ
slot_of time_ns frame_duration_ms = time_ns / (frame_duration_ms * 1000000)

-- `frame_slot && slot > *frame_slot`.
abbrev pub is_past : ℕ → Option ℕ → Bool
is_past slot none = false
is_past slot (some s) = ltb s slot

-- `if (!frame_slot || slot > *frame_slot) { frame_slot = slot; }`.
abbrev pub open_slot : ℕ → Option ℕ → Option ℕ
open_slot slot none = some slot
open_slot slot (some s) = if ltb s slot then some slot else some s

-- The header of a package.
unfoldable pub package_header : {E : Type 0} → ℕ → DataPacketHeader → ℕ → ℕ → Result E (List ℕ)
unfolding put_byte
package_header lidar_id h type size = do
  ph ← put_byte (replicate package_header_size 0) 0 0
  ph ← write_le 4 ph 1 lidar_id
  ph ← put_byte ph 5 0
  ph ← put_byte ph 6 h.time_type
  ph ← write_le 8 ph 7 h.timestamp_ns
  ph ← write_le 2 ph 15 h.udp_cnt
  ph ← put_byte ph 17 type
  ph ← write_le 4 ph 18 size
  put_byte ph 22 h.frame_cnt

-- The package goes behind the others of the open frame.
unfoldable pub add_package : ℕ → DataPacketHeader → ℕ → List ℕ → ℕ → Writer → Step Bool
unfolding package_header
add_package lidar_id h type points slot w =
    and_then (w, package_header lidar_id h type (length points))
      (λ w ph. (
        record w {
          frame = w.frame ++ (ph ++ points);
          frame_slot = open_slot slot w.frame_slot;
          stats = record w.stats { packets = up_u64 w.stats.packets };
        },
        ok true,
      ))

-- The clock of the device and the newest time, after a packet at `ts`.
abbrev pub keep_clock : ℕ → DeviceClock → ℕ → Writer → Writer
keep_clock i clock ts w =
    let base = base_of clock ts w.latest_ns in
    record w {
      clocks = set_at w.clocks i (record { base = some base; prev = ts });
      latest_ns = max w.latest_ns (time_from ts base);
    }

abbrev pub slot_for : DeviceClock → ℕ → Writer → ℕ
slot_for clock ts w = slot_of (time_from ts (base_of clock ts w.latest_ns)) w.frame_duration_ms

unfoldable pub write_package :
    Stdio → ℕ → ℕ → DeviceClock → DataPacketHeader → ℕ → List ℕ → Writer → Step Bool
unfolding flush_frame add_package
write_package stdio i lidar_id clock h type points w =
    let slot = slot_for clock h.timestamp_ns w in
    let w' = keep_clock i clock h.timestamp_ns w in
    elim (is_past slot w'.frame_slot) [
      | true ↦ and_then (flush_frame stdio w') (λ w x. add_package lidar_id h type points slot w)
      | false ↦ add_package lidar_id h type points slot w'
    ]

-- `Lvx2Writer::write`.
unfoldable pub write : Stdio → Doubles → ℕ → DataPacketView → Writer → Step Bool
unfolding to_package write_package
write stdio db device_index packet w = elim w.file [
  | none ↦ (w, err invalid_argument)
  | some content ↦ elim (get_elem? w.lidar_ids device_index) [
    | none ↦ (w, err invalid_argument)
    | some lidar_id ↦
        and_then (w, to_package db packet)
          (λ w converted. elim converted [
            | none ↦
                (record w { stats = record w.stats { ignored = up_u64 w.stats.ignored } }, ok false)
            | some (type, points) ↦ elim (get_elem? w.clocks device_index) [
              | none ↦ (w, fault)
              | some clock ↦
                  write_package stdio device_index lidar_id clock packet.header type points w
            ]
          ])
  ]
]

-- What an open file holds.
abbrev pub content_of : Writer → List ℕ
content_of w = elim w.file [ none ↦ [] | some content ↦ content ]

-- The result of the flush of the last frame, and then of the stream.
abbrev pub flushed : Bool → Result Lvx2Error (Unit {0}) → Result Lvx2Error (Unit {0})
flushed fails (ok x) = if fails then err io else ok tt
flushed fails (err e) = err e
flushed fails fault = fault

-- `Lvx2Writer::close`; what the file holds is kept beside the writer.
unfoldable pub close_writer : Stdio → Writer → List ℕ × Step (Unit {0})
unfolding flush_frame
close_writer stdio w = elim w.file [
  | none ↦ ([], (w, ok tt))
  | some old ↦
      let (w', r) = flush_frame stdio w in
      (content_of w', (record w' { file = none }, flushed (stdio.fflush_fails (content_of w')) r))
]
