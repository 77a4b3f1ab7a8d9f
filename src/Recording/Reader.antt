-- ===== src/Recording/Reader.antt =====
-- src/lvx2.cpp, Lvx2Reader. Memory for what a header announces is taken to be had.
use livox_mid360_core.Prelude.{
  ℕ, zero, suc, ◌+◌, ◌*◌, ◌%◌, ◌^◌, List, [], ◌∷◌, length, take, drop, Bool, true, false, ltb, ◌==◌,
  ◌||◌, ◌&&◌, not, if◌then◌else◌, Option, none, some, Result, ok, err, fault, ◌>>=◌, ◌>>◌, fail_if,
}
use livox_mid360_core.Bytes.{subspan, read_le}
use livox_mid360_core.Protocol.Types.{DataType, cartesian32, cartesian16, sample_size}
use livox_mid360_core.Protocol.Acks.{until_nul}
use livox_mid360_core.Transport.{same_bytes}
use livox_mid360_core.Recording.{
  Lvx2Error, io, invalid_argument, unsupported_data_type, bad_file, magic, file_header_size,
  device_info_size, frame_header_size, package_header_size, type_cartesian32, type_cartesian16,
  Lvx2DeviceInfo, Lvx2FileHeader, Lvx2Packet, Stdio,
}
use livox_mid360_core.Recording.Writer.{signature, sub_u64}

-- `Lvx2Reader::Impl`. An open file is the bytes ahead.
pub record Reader : Type 0 where
  pub file : Option (List ℕ)
  pub header : Lvx2FileHeader
  pub devices : List Lvx2DeviceInfo
  pub frame : List ℕ
  pub pos : ℕ
  pub frame_index : ℕ
  pub frame_offset : ℕ
  pub truncated : Bool
  pub done : Bool

-- `get_fixed(in, offset, n)`.
unfoldable pub get_fixed : {E : Type 0} → List ℕ → ℕ → ℕ → Result E (List ℕ)
get_fixed in_span offset n = do p ← subspan in_span offset n; ok (until_nul p)

unfoldable pub read_device : {E : Type 0} → List ℕ → Result E Lvx2DeviceInfo
unfolding get_fixed
read_device d = do
  lidar_sn ← get_fixed d 0 16
  hub_sn ← get_fixed d 16 16
  lidar_id ← read_le 4 d 32
  lidar_type ← read_le 1 d 36
  device_type ← read_le 1 d 37
  extrinsic_enable ← read_le 1 d 38
  roll_deg ← read_le 4 d 39
  pitch_deg ← read_le 4 d 43
  yaw_deg ← read_le 4 d 47
  x_m ← read_le 4 d 51
  y_m ← read_le 4 d 55
  z_m ← read_le 4 d 59
  ok (record {
    lidar_sn = lidar_sn;
    hub_sn = hub_sn;
    lidar_id = lidar_id;
    lidar_type = lidar_type;
    device_type = device_type;
    extrinsic_enable = not (extrinsic_enable == 0);
    roll_deg = roll_deg;
    pitch_deg = pitch_deg;
    yaw_deg = yaw_deg;
    x_m = x_m;
    y_m = y_m;
    z_m = z_m;
  })

-- The loop of `open` over the device-info block, with the devices left and the offset of the next.
unfoldable pub read_devices : {E : Type 0} → ℕ → List ℕ → ℕ → Result E (List Lvx2DeviceInfo)
unfolding read_device
read_devices zero info off = ok []
read_devices (suc n) info off = do
  d ← subspan info off device_info_size
  dev ← read_device d
  devs ← read_devices n info (off + device_info_size)
  ok (dev ∷ devs)

abbrev pub new_reader : Reader
new_reader = record {
  file = none;
  header = record { version = 2 ∷ 0 ∷ 0 ∷ 0 ∷ []; frame_duration_ms = 50; device_count = 0 };
  devices = [];
  frame = [];
  pos = 0;
  frame_index = 0;
  frame_offset = 0;
  truncated = false;
  done = false;
}

abbrev pub package_type : ℕ → Option DataType
package_type type =
    if type == type_cartesian32
    then some cartesian32
    else if type == type_cartesian16
    then some cartesian16
    else none

-- A package whose header lies in the frame, with the position behind it, or `none` when its points
-- are cut short.
unfoldable pub read_package : List ℕ → ℕ → ℕ → Result Lvx2Error (Option (Lvx2Packet × ℕ))
read_package frame pos frame_index = do
  ph ← subspan frame pos package_header_size
  lidar_id ← read_le 4 ph 1
  lidar_type ← read_le 1 ph 5
  timestamp_type ← read_le 1 ph 6
  timestamp_ns ← read_le 8 ph 7
  udp_counter ← read_le 2 ph 15
  type ← read_le 1 ph 17
  size ← read_le 4 ph 18
  frame_counter ← read_le 1 ph 22
  elim (package_type type) [
    | none ↦ err unsupported_data_type
    | some data_type ↦ do
      fail_if (not (size % sample_size data_type == 0)) bad_file
      let end = pos + package_header_size + size
      elim (ltb (length frame) end) [
        | true ↦ ok none
        | false ↦ do
          points ← subspan frame (pos + package_header_size) size
          ok (
              some (
                record {
                  frame_index = frame_index;
                  lidar_id = lidar_id;
                  lidar_type = lidar_type;
                  timestamp_type = timestamp_type;
                  timestamp_ns = timestamp_ns;
                  udp_counter = udp_counter;
                  data_type = data_type;
                  frame_counter = frame_counter;
                  points = points;
                },
                end,
              ))
      ]
  ]

-- A partial package header at the end of a cut frame.
abbrev pub note_partial : Reader → Reader
note_partial r = record r { truncated = (if r.pos == length r.frame then r.truncated else true) }

module _ (stdio : Stdio) where
  -- `read_some`: the bytes read and those ahead.
  unfoldable pub read_some : List ℕ → ℕ → Result Lvx2Error (List ℕ × List ℕ)
  read_some rest n = do
    let k = stdio.fread rest n
    fail_if (not (k == n) && stdio.ferror rest n) io
    ok (take k rest, drop k rest)

  -- `Lvx2Reader::open` of a file with this content, on a reader of any state.
  unfoldable pub open_reader : List ℕ → Result Lvx2Error Reader
  unfolding read_some read_devices
  open_reader content = do
    fail_if (not stdio.opens) io
    (hdr, rest) ← read_some content file_header_size
    fail_if (ltb (length hdr) file_header_size || not (same_bytes (take 16 hdr) signature)) bad_file
    m ← read_le 4 hdr 20
    fail_if (not (m == magic)) bad_file
    version ← subspan hdr 16 4
    major ← read_le 1 hdr 16
    fail_if (not (major == 2)) bad_file
    frame_duration_ms ← read_le 4 hdr 24
    device_count ← read_le 1 hdr 28
    (info, rest) ← read_some rest (device_info_size * device_count)
    fail_if (ltb (length info) (device_info_size * device_count)) bad_file
    devices ← read_devices device_count info 0
    ok (record new_reader {
      file = some rest;
      header = record {
        version = version;
        frame_duration_ms = frame_duration_ms;
        device_count = device_count;
      };
      devices = devices;
      frame_offset = length hdr + length info;
    })

  -- `load_frame` with these bytes ahead: the reader, and whether there is a frame.
  unfoldable pub load_frame : List ℕ → Reader → Result Lvx2Error (Reader × Bool)
  unfolding read_some
  load_frame rest r = do
    (h, rest) ← read_some rest frame_header_size
    elim (length h == 0) [
      | true ↦ ok (record r { file = some rest }, false)
      | false ↦ elim (ltb (length h) frame_header_size) [
        | true ↦ ok (record r { file = some rest; truncated = true }, false)
        | false ↦ do
          current ← read_le 8 h 0
          next ← read_le 8 h 8
          frame_index ← read_le 8 h 16
          fail_if (not (current == r.frame_offset)) bad_file
          fail_if (ltb next ((current + frame_header_size) % 2 ^ 64)) bad_file
          let size = sub_u64 (sub_u64 next current) frame_header_size
          (frame, rest) ← read_some rest size
          ok (
            record r {
              file = some rest;
              frame = frame;
              pos = 0;
              frame_index = frame_index;
              frame_offset = next;
              truncated = (if ltb (length frame) size then true else r.truncated);
            },
            true,
          )
      ]
    ]

  -- The loop of `next_packet`, with the rounds left. After an error the reader is given up.
  unfoldable pub next_package : ℕ → Reader → Result Lvx2Error (Reader × Option Lvx2Packet)
  unfolding load_frame read_package
  next_package zero r = fault
  next_package (suc n) r = elim r.done [
    | true ↦ ok (r, none)
    | false ↦ elim (ltb (length r.frame) (r.pos + package_header_size)) [
      | true ↦ elim r.file [
        | none ↦ err invalid_argument
        | some rest ↦ do
          (r', more) ← load_frame rest (note_partial r)
          elim more [ true ↦ next_package n r' | false ↦ ok (record r' { done = true }, none) ]
      ]
      | false ↦ do
        found ← read_package r.frame r.pos r.frame_index
        elim found [
          | none ↦ ok (record r { truncated = true; done = true }, none)
          | some (p, end) ↦ ok (record r { pos = end }, some p)
        ]
    ]
  ]

  -- `Lvx2Reader::next_packet`: every round but the last takes a frame header from the file.
  unfoldable pub next_packet : Reader → Result Lvx2Error (Reader × Option Lvx2Packet)
  unfolding next_package
  next_packet r = elim r.file [
    | none ↦ err invalid_argument
    | some rest ↦ next_package (length rest + 2) r
  ]
