-- ===== src/Protocol/DataPacket.antt =====
-- src/protocol.cpp, "Data packet".
pub mod Parse
pub mod Samples
pub mod Timestamps
use livox_mid360_core.Prelude.{
  ℕ, zero, suc, ◌+◌, ◌-◌, ◌*◌, ◌/◌, ◌%◌, ◌^◌, List, [], ◌∷◌, ◌++◌, length, ltb, leb, ◌==◌, not,
  ◌&&◌, ◌||◌, Bool, true, false, if◌then◌else◌, Result, ok, err, ◌>>=◌, ◌>>◌, fail_if,
}
use livox_mid360_core.Prelude.Int.{ℤ, pos, negsuc}
use livox_mid360_core.Bytes.{subspan, read_le}
use livox_mid360_core.Crc
use livox_mid360_core.Crc.{crc32_init}
use livox_mid360_core.Protocol.Types.{
  protocol_version, data_packet_header_size, ParseError, too_short, bad_version, length_mismatch,
  unknown_data_type, bad_dot_num, bad_crc32, DataType, imu, cartesian32, cartesian16, spherical,
  DataPacketHeader, DataPacketView, sample_size, CartesianPoint, SphericalPoint, ImuSample,
}

-- `static_cast<DataType>` of a byte that is at most 3.
abbrev pub to_data_type : ℕ → DataType
to_data_type zero = imu
to_data_type (suc zero) = cartesian32
to_data_type (suc (suc zero)) = cartesian16
to_data_type _ = spherical

abbrev pub same_type : DataType → DataType → Bool
same_type imu imu = true
same_type cartesian32 cartesian32 = true
same_type cartesian16 cartesian16 = true
same_type spherical spherical = true
same_type _ _ = false

-- The checksum covers the timestamp and the samples; 0 means that there is none.
unfoldable pub check_crc32 : List ℕ → List ℕ → ℕ → Bool → Result ParseError (Unit {0})
check_crc32 packet samples crc32 verify_crc =
    if verify_crc && not (crc32 == 0)
    then (do
      covered ← subspan packet 28 (8 + length samples)
      fail_if (not (Crc.crc32 covered crc32_init == crc32)) bad_crc32)
    else ok tt

unfoldable pub parse_data_packet : List ℕ → Bool → Result ParseError DataPacketView
parse_data_packet packet verify_crc = do
  fail_if (ltb (length packet) data_packet_header_size) too_short
  version ← read_le 1 packet 0
  fail_if (not (version == protocol_version)) bad_version
  packet_length ← read_le 2 packet 1
  fail_if (ltb packet_length data_packet_header_size || ltb (length packet) packet_length)
      length_mismatch
  time_interval ← read_le 2 packet 3
  dot_num ← read_le 2 packet 5
  udp_cnt ← read_le 2 packet 7
  frame_cnt ← read_le 1 packet 9
  raw_type ← read_le 1 packet 10
  fail_if (ltb 3 raw_type) unknown_data_type
  time_type ← read_le 1 packet 11
  reserved ← subspan packet 12 12
  crc32 ← read_le 4 packet 24
  timestamp_ns ← read_le 8 packet 28
  samples ← subspan packet data_packet_header_size (packet_length - data_packet_header_size)
  fail_if (not (length samples == dot_num * sample_size (to_data_type raw_type))) bad_dot_num
  check_crc32 packet samples crc32 verify_crc
  ok (record {
    header = record {
      version = version;
      packet_length = packet_length;
      time_interval = time_interval;
      dot_num = dot_num;
      udp_cnt = udp_cnt;
      frame_cnt = frame_cnt;
      data_type = to_data_type raw_type;
      time_type = time_type;
      reserved = reserved;
      crc32 = crc32;
      timestamp_ns = timestamp_ns;
    };
    samples = samples;
  })

-- The integer that the bits of an `int16_t` or `int32_t` of `w` bytes stand for.
abbrev pub to_signed : ℕ → ℕ → ℤ
to_signed w v = if ltb v (2 ^ (8 * w - 1)) then pos v else negsuc (2 ^ (8 * w) - v - 1)

unfoldable pub decode_cartesian32 : {E : Type 0} → DataPacketView → ℕ → Result E CartesianPoint
decode_cartesian32 p i = do
  let o = i * 14
  x ← read_le 4 p.samples o
  y ← read_le 4 p.samples (o + 4)
  z ← read_le 4 p.samples (o + 8)
  reflectivity ← read_le 1 p.samples (o + 12)
  tag ← read_le 1 p.samples (o + 13)
  ok (record {
    x = to_signed 4 x;
    y = to_signed 4 y;
    z = to_signed 4 z;
    reflectivity = reflectivity;
    tag = tag;
  })

unfoldable pub decode_cartesian16 : {E : Type 0} → DataPacketView → ℕ → Result E CartesianPoint
decode_cartesian16 p i = do
  let o = i * 8
  x ← read_le 2 p.samples o
  y ← read_le 2 p.samples (o + 2)
  z ← read_le 2 p.samples (o + 4)
  reflectivity ← read_le 1 p.samples (o + 6)
  tag ← read_le 1 p.samples (o + 7)
  ok (record {
    x = to_signed 2 x;
    y = to_signed 2 y;
    z = to_signed 2 z;
    reflectivity = reflectivity;
    tag = tag;
  })

unfoldable pub decode_spherical : {E : Type 0} → DataPacketView → ℕ → Result E SphericalPoint
decode_spherical p i = do
  let o = i * 10
  depth_mm ← read_le 4 p.samples o
  theta_centideg ← read_le 2 p.samples (o + 4)
  phi_centideg ← read_le 2 p.samples (o + 6)
  reflectivity ← read_le 1 p.samples (o + 8)
  tag ← read_le 1 p.samples (o + 9)
  ok (record {
    depth_mm = depth_mm;
    theta_centideg = theta_centideg;
    phi_centideg = phi_centideg;
    reflectivity = reflectivity;
    tag = tag;
  })

unfoldable pub decode_imu : {E : Type 0} → DataPacketView → ℕ → Result E ImuSample
decode_imu p i = do
  let o = i * 24
  gyro_x ← read_le 4 p.samples o
  gyro_y ← read_le 4 p.samples (o + 4)
  gyro_z ← read_le 4 p.samples (o + 8)
  acc_x ← read_le 4 p.samples (o + 12)
  acc_y ← read_le 4 p.samples (o + 16)
  acc_z ← read_le 4 p.samples (o + 20)
  ok (record {
    gyro_x = gyro_x;
    gyro_y = gyro_y;
    gyro_z = gyro_z;
    acc_x = acc_x;
    acc_y = acc_y;
    acc_z = acc_z;
  })

-- The loop of `decode_all` from sample `i` on, with the samples left.
unfoldable pub decode_from {ℓ} :
    {E : Type 0} {T : Type ℓ} → (ℕ → Result E T) → ℕ → ℕ → List T → Result E (List T)
decode_from f zero i out = ok out
decode_from f (suc n) i out = do v ← f i; decode_from f n (i + 1) (out ++ (v ∷ []))

unfoldable pub decode_all {ℓ} :
    {E : Type 0} {T : Type ℓ}
    → DataPacketView
    → DataType
    → (DataPacketView → ℕ → Result E T)
    → Result E (List T)
unfolding decode_from
decode_all p expect f =
    if same_type p.header.data_type expect then decode_from (f p) p.header.dot_num 0 [] else ok []

unfoldable pub sample_timestamp_ns : DataPacketHeader → ℕ → ℕ
sample_timestamp_ns h i =
    let span_ns = h.time_interval * 100 in
    if leb h.dot_num 1 || i == 0
    then h.timestamp_ns
    else (h.timestamp_ns + span_ns * i % 2 ^ 64 / (h.dot_num - 1)) % 2 ^ 64
