-- ===== src/Recording/Writer.antt =====
-- src/lvx2.cpp, Lvx2Writer.
use livox_mid360_core.Prelude.{
  ℕ, ◌+◌, ◌-◌, ◌*◌, ◌%◌, ◌^◌, min, List, [], ◌∷◌, ◌++◌, length, take, replicate, Bool, true, false,
  ◌==◌, if◌then◌else◌, Option, none, some, Result, ok, err, fault, ◌>>=◌,
}
use livox_mid360_core.Prelude.Int.{ℤ, pos, negsuc}
use livox_mid360_core.Bytes.{write_le, copy_to}
use livox_mid360_core.Protocol.CommandFrame.{is_empty}
use livox_mid360_core.Recording.{
  Lvx2Error, io, magic, file_header_size, device_info_size, frame_header_size, Lvx2DeviceInfo,
  Stdio,
}

abbrev pub signature : List ℕ
signature = 0x6C ∷ 0x69 ∷ 0x76 ∷ 0x6F ∷ 0x78 ∷ 0x5F ∷ 0x74 ∷ 0x65 ∷ 0x63 ∷ 0x68 ∷ replicate 6 0

abbrev pub clock_jump_ns : ℕ
clock_jump_ns = 1000000000

-- The bits of `static_cast<std::int32_t>` of a `long`.
abbrev pub to_i32_bits : ℤ → ℕ
to_i32_bits (pos n) = n % 2 ^ 32
to_i32_bits (negsuc n) = 2 ^ 32 - 1 - n % 2 ^ 32

-- `put_fixed(out, offset, s, n)`.
unfoldable pub put_fixed : {E : Type 0} → List ℕ → ℕ → List ℕ → ℕ → Result E (List ℕ)
put_fixed out offset s n = do
  out ← copy_to out offset (replicate n 0)
  copy_to out offset (take (min n (length s)) s)

unfoldable pub put_byte : {E : Type 0} → List ℕ → ℕ → ℕ → Result E (List ℕ)
put_byte out offset b = write_le 1 out offset b

abbrev pub flag : Bool → ℕ
flag true = 1
flag false = 0

-- One round of the loop of `open` over the devices.
unfoldable pub put_device : {E : Type 0} → List ℕ → ℕ → Lvx2DeviceInfo → Result E (List ℕ)
unfolding put_fixed put_byte
put_device hdr off d = do
  hdr ← put_fixed hdr off d.lidar_sn 16
  hdr ← put_fixed hdr (off + 16) d.hub_sn 16
  hdr ← write_le 4 hdr (off + 32) d.lidar_id
  hdr ← put_byte hdr (off + 36) d.lidar_type
  hdr ← put_byte hdr (off + 37) d.device_type
  hdr ← put_byte hdr (off + 38) (flag d.extrinsic_enable)
  hdr ← write_le 4 hdr (off + 39) d.roll_deg
  hdr ← write_le 4 hdr (off + 43) d.pitch_deg
  hdr ← write_le 4 hdr (off + 47) d.yaw_deg
  hdr ← write_le 4 hdr (off + 51) d.x_m
  hdr ← write_le 4 hdr (off + 55) d.y_m
  write_le 4 hdr (off + 59) d.z_m

unfoldable pub put_devices : {E : Type 0} → List ℕ → ℕ → List Lvx2DeviceInfo → Result E (List ℕ)
unfolding put_device
put_devices hdr off [] = ok hdr
put_devices hdr off (d ∷ ds) = do
  hdr ← put_device hdr off d
  put_devices hdr (off + device_info_size) ds

-- The file header and the device-info block.
unfoldable pub file_header : {E : Type 0} → List Lvx2DeviceInfo → ℕ → Result E (List ℕ)
unfolding put_devices
file_header devices frame_duration_ms = do
  hdr ← copy_to (replicate (file_header_size + device_info_size * length devices) 0) 0 signature
  hdr ← write_le 1 hdr 16 2
  hdr ← write_le 4 hdr 20 magic
  hdr ← write_le 4 hdr 24 frame_duration_ms
  hdr ← write_le 1 hdr 28 (length devices)
  put_devices hdr file_header_size devices

pub record DeviceClock : Type 0 where
  pub base : Option ℕ
  pub prev : ℕ

pub record Stats : Type 0 where
  pub packets : ℕ
  pub frames : ℕ
  pub bytes : ℕ
  pub ignored : ℕ

-- `Lvx2Writer::Impl`. An open file is its bytes. `latest_ns`, an `int64_t`, never falls below 0.
pub record Writer : Type 0 where
  pub file : Option (List ℕ)
  pub lidar_ids : List ℕ
  pub frame_duration_ms : ℕ
  pub stats : Stats
  pub frame : List ℕ
  pub frame_slot : Option ℕ
  pub clocks : List DeviceClock
  pub latest_ns : ℕ
  pub frame_index : ℕ
  pub offset : ℕ

abbrev pub Step {ℓ} : Type ℓ → Type ℓ
Step A = Writer × Result Lvx2Error A

abbrev pub and_then {ℓ κ} : {A : Type ℓ} {B : Type κ} → Step A → (Writer → A → Step B) → Step B
and_then (w, ok a) k = k w a
and_then (w, err e) k = (w, err e)
and_then (w, fault) k = (w, fault)

-- `x - y` on `std::uint64_t`.
abbrev pub sub_u64 : ℕ → ℕ → ℕ
sub_u64 x y = (x + 2 ^ 64 - y) % 2 ^ 64

-- `++` on `std::uint64_t`.
abbrev pub up_u64 : ℕ → ℕ
up_u64 n = (n + 1) % 2 ^ 64

unfoldable pub frame_header : {E : Type 0} → ℕ → ℕ → ℕ → Result E (List ℕ)
frame_header offset next frame_index = do
  h ← write_le 8 (replicate frame_header_size 0) 0 offset
  h ← write_le 8 h 8 next
  write_le 8 h 16 frame_index

-- After a frame was written.
abbrev pub next_frame : ℕ → Writer → Writer
next_frame next w = record w {
  offset = next;
  stats = record w.stats { bytes = next; frames = up_u64 w.stats.frames };
  frame_index = up_u64 w.frame_index;
  frame = [];
  frame_slot = none;
}

module _ (stdio : Stdio) where
  -- `write_bytes` on an open file.
  unfoldable pub write_bytes : List ℕ → Writer → Step (Unit {0})
  write_bytes [] w = (w, ok tt)
  write_bytes (b ∷ bs) w = elim w.file [
    | none ↦ (w, fault)
    | some content ↦
        let n = stdio.fwrite content (b ∷ bs) in
        (
          record w { file = some (content ++ take n (b ∷ bs)) },
          (if n == length (b ∷ bs) then ok tt else err io),
        )
  ]

  unfoldable pub flush_frame : Writer → Step (Unit {0})
  unfolding write_bytes
  flush_frame w = elim (is_empty w.frame) [
    | true ↦ (w, ok tt)
    | false ↦
        let next = (w.offset + frame_header_size + length w.frame) % 2 ^ 64 in
        and_then (w, frame_header w.offset next w.frame_index)
          (λ w h.
            and_then (write_bytes h w)
              (λ w x. and_then (write_bytes w.frame w) (λ w x. (next_frame next w, ok tt))))
  ]
