-- ===== src/Recording/Opening.antt =====
-- Opening a recording for writing, and opening it again for reading.
use livox_mid360_core.Prelude.{
  ℕ, suc, ◌+◌, ◌*◌, ◌^◌, ◌≤◌, ◌<◌, ◌≡◌, refl, sym, ap, ◌∙◌, List, [], ◌∷◌, ◌++◌, length, take, drop,
  map, false, ltb, ◌==◌, none, some, ok, arith, length-append, length-drop, take-append,
  drop-append, drop-drop,
}
use livox_mid360_core.Bytes.{All, read_le, subspan}
use livox_mid360_core.Bytes.Laws.{le_value-le_bytes, read_le_ok, subspan_ok}
use livox_mid360_core.Transport.{same_bytes_refl}
use livox_mid360_core.Recording.{Lvx2Error, Lvx2DeviceInfo, Lvx2FileHeader, Stdio}
use livox_mid360_core.Recording.Writer.{Writer, write_bytes, signature}
use livox_mid360_core.Recording.Write.{open_writer, write_header, keep_header}
use livox_mid360_core.Recording.Reader.{Reader, new_reader, read_devices, open_reader}
use livox_mid360_core.Recording.Read.{IsReliable, read_some_lem}
use livox_mid360_core.Recording.Devices.{device_size, read_device_lem}
use livox_mid360_core.Recording.Written.{write_bytes_lem}
use livox_mid360_core.Recording.RoundTrip.{IsNew, reader_behind}
use livox_mid360_core.Recording.Header.{
  device_wire, devices_wire, head_wire, IsDevice, file_header_lem,
}

read_devices_lem :
    (ds : List Lvx2DeviceInfo) (info : List ℕ) (off : ℕ)
    → All IsDevice ds
    → off ≤ length info
    → drop off info ≡ devices_wire ds
    → read_devices {E = Lvx2Error} (length ds) info off ≡ ok ds
unfolding read_devices
read_devices_lem [] info off vs inside here = refl
read_devices_lem (d ∷ ds) info off (v, vs) inside here =
    let wide = device_size d v in
    let rest = devices_wire ds in
    let long : length info ≡ off + (63 + length rest) =
      omega
        (arith, length-drop off info, ap length here, length-append (device_wire d) rest, wide) in
    let front : take 63 (device_wire d ++ rest) ≡ device_wire d =
      ap (λ k. take k (device_wire d ++ rest)) (sym wide) ∙ take-append (device_wire d) rest in
    let behind : drop (off + 63) info ≡ rest =
      sym (drop-drop 63 off info)
      ∙ ap (λ t. drop 63 t) here
      ∙ ap (λ k. drop k (device_wire d ++ rest)) (sym wide)
      ∙ drop-append (device_wire d) rest in
    rw (
      read_devices,
      subspan_ok {E = Lvx2Error} info off 63 (omega arith),
      here,
      front,
      read_device_lem d v,
      read_devices_lem ds info (off + 63) vs (omega arith) behind,
    )

length-devices_wire :
    (ds : List Lvx2DeviceInfo) → All IsDevice ds → length (devices_wire ds) ≡ 63 * length ds
length-devices_wire [] vs = refl
length-devices_wire (d ∷ ds) (v, vs) = omega (
  arith,
  device_size d v,
  length-append (device_wire d) (devices_wire ds),
  length-devices_wire ds vs,
)

-- The header of a file with these devices and this frame duration.
abbrev pub start_wire : List Lvx2DeviceInfo → ℕ → List ℕ
start_wire devices frame_duration_ms =
    head_wire (length devices) frame_duration_ms ++ devices_wire devices

-- The reader behind that header, with `rest` ahead.
abbrev pub opened_reader : List Lvx2DeviceInfo → ℕ → List ℕ → Reader
opened_reader devices frame_duration_ms rest = record new_reader {
  file = some rest;
  header = record {
    version = 2 ∷ 0 ∷ 0 ∷ 0 ∷ [];
    frame_duration_ms = frame_duration_ms;
    device_count = length devices;
  };
  devices = devices;
  frame_offset = length (start_wire devices frame_duration_ms);
}

open_reader_lem :
    (stdio : Stdio) (devices : List Lvx2DeviceInfo) (frame_duration_ms : ℕ) (rest : List ℕ)
    → IsReliable stdio
    → length devices ≤ 255
    → frame_duration_ms < 2 ^ 32
    → All IsDevice devices
    → open_reader stdio (start_wire devices frame_duration_ms ++ rest)
      ≡ ok (opened_reader devices frame_duration_ms rest)
unfolding open_reader
open_reader_lem stdio devices frame_duration_ms rest reliable few range valid =
    let n = length devices in
    let head = head_wire n frame_duration_ms in
    let info = devices_wire devices in
    let size = length-devices_wire devices valid in
    let first = read_some_lem stdio reliable head (info ++ rest) 29 refl in
    let second = read_some_lem stdio reliable info rest (63 * n) size in
    let sign = same_bytes_refl signature in
    let magic_back : read_le {E = Lvx2Error} 4 head 20 ≡ ok 0xAC0EA767 =
      read_le_ok 4 head 20 (omega arith) ∙ ap ok refl in
    let version_back : subspan {E = Lvx2Error} head 16 4 ≡ ok (2 ∷ 0 ∷ 0 ∷ 0 ∷ []) =
      subspan_ok head 16 4 (omega arith) in
    let major_back : read_le {E = Lvx2Error} 1 head 16 ≡ ok 2 =
      read_le_ok 1 head 16 (omega arith) ∙ ap ok refl in
    let duration_back : read_le {E = Lvx2Error} 4 head 24 ≡ ok frame_duration_ms =
      read_le_ok 4 head 24 (omega arith) ∙ ap ok (le_value-le_bytes 4 frame_duration_ms range) in
    let count_back : read_le {E = Lvx2Error} 1 head 28 ≡ ok n =
      read_le_ok 1 head 28 (omega arith) ∙ ap ok (le_value-le_bytes 1 n (omega arith)) in
    let whole : ltb (length info) (63 * n) ≡ false = ground (arith, size) in
    let devices_back = read_devices_lem devices info 0 valid (omega arith) refl in
    rw
      (
        open_reader, reliable.opens, first, sign, magic_back, version_back, major_back,
        duration_back, count_back, second, whole, devices_back,
      )
      (ap (λ o. ok (record (opened_reader devices frame_duration_ms rest) { frame_offset = o }))
        (omega arith))

write_header_lem :
    (stdio : Stdio) (hdr : List ℕ) (w : Writer)
    → IsReliable stdio
    → w.file ≡ some []
    → write_header stdio hdr w ≡ (
      record w {
        file = some hdr;
        offset = length hdr;
        stats = record w.stats { bytes = length hdr };
      },
      ok tt,
    )
unfolding write_header
write_header_lem stdio hdr w reliable e =
    ap (keep_header (length hdr)) (write_bytes_lem stdio reliable hdr [] w e)

abbrev pub header_of : List Lvx2DeviceInfo → ℕ → Lvx2FileHeader
header_of devices frame_duration_ms = record {
  version = 2 ∷ 0 ∷ 0 ∷ 0 ∷ [];
  frame_duration_ms = frame_duration_ms;
  device_count = length devices;
}

length-map : {A B : Type 0} (f : A → B) (xs : List A) → length (map f xs) ≡ length xs
length-map f [] = refl
length-map f (x ∷ xs) = ap suc (length-map f xs)

-- How a new recording starts, and how what begins with that is opened.
abbrev pub Starts : Stdio → List Lvx2DeviceInfo → ℕ → Writer → List ℕ → Type 0
Starts stdio devices frame_duration_ms w rest =
    (w' : Writer) × (start : List ℕ) × (open_writer stdio devices frame_duration_ms w ≡ (w', ok tt))
    × IsNew start w'
    × (w'.lidar_ids ≡ map (λ (d : Lvx2DeviceInfo). d.lidar_id) devices)
    × (length start ≡ 29 + 63 * length devices)
    × (open_reader stdio (start ++ rest)
        ≡ ok (reader_behind (header_of devices frame_duration_ms) devices start (start ++ rest)))

-- When the C library works, a closed writer that opens a recording for 1 to 255 devices, with names
-- of at most 16 characters, none of them NUL, and a frame duration above 0 is then new, behind a header
-- of 29 bytes and 63 for each device; and a file that starts with this header opens for reading with
-- the same devices and frame duration, and the reader stands behind the header.
pub open_reader-open_writer :
    (stdio : Stdio) (devices : List Lvx2DeviceInfo) (frame_duration_ms : ℕ) (w : Writer)
    (rest : List ℕ)
    → IsReliable stdio
    → w.file ≡ none
    → 0 < length devices
    → length devices ≤ 255
    → 0 < frame_duration_ms
    → frame_duration_ms < 2 ^ 32
    → All IsDevice devices
    → Starts stdio devices frame_duration_ms w rest
unfolding open_writer write_bytes
open_reader-open_writer stdio [] frame_duration_ms w rest reliable closed pos few positive range
      valid =
    absurd (omega arith)
open_reader-open_writer stdio (d ∷ ds) frame_duration_ms w rest reliable closed pos few positive
      range valid =
    let devices = d ∷ ds in
    let n = length ds in
    let start = start_wire devices frame_duration_ms in
    let not_many : ltb 255 (suc n) ≡ false = ground arith in
    let not_zero : (frame_duration_ms == 0) ≡ false = ground arith in
    let size = length-devices_wire devices valid in
    let opened : Writer = record w {
      file = some [];
      lidar_ids = map (λ (x : Lvx2DeviceInfo). x.lidar_id) devices;
      frame_duration_ms = frame_duration_ms;
      stats = record { packets = 0; frames = 0; bytes = 0; ignored = 0 };
      frame = [];
      frame_slot = none;
      clocks = map (λ (x : Lvx2DeviceInfo). record { base = none; prev = 0 }) devices;
      latest_ns = 0;
      frame_index = 0;
    } in
    let reached : open_writer stdio devices frame_duration_ms w ≡ write_header stdio start opened =
      rw
        (
          open_writer,
          closed,
          not_many,
          not_zero,
          reliable.opens,
          file_header_lem devices frame_duration_ms valid,
        )
        refl in
    let front : drop (length start) (start ++ rest) ≡ rest = drop-append start rest in
    let opens = open_reader_lem stdio devices frame_duration_ms rest reliable few range valid in
    (
      record opened {
        file = some start;
        stats = record { packets = 0; frames = 0; bytes = length start; ignored = 0 };
        offset = length start;
      },
      start,
      reached ∙ write_header_lem stdio start opened reliable refl,
      record {
        file = refl;
        frame = refl;
        offset = refl;
        frame_index = refl;
        clocks = length-map _ devices ∙ sym (length-map _ devices);
      },
      refl,
      omega (arith, size),
      opens ∙ ap (λ t. ok (opened_reader devices frame_duration_ms t)) (sym front),
    )
