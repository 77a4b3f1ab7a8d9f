-- ===== src/Tests/Wire.antt =====
-- Checksums, command frames and point packets.
use livox_mid360_core.Prelude.{
  ℕ, ◌+◌, ◌*◌, ◌^◌, ◌≡◌, refl, List, [], ◌∷◌, ◌++◌, length, drop, replicate, ok, err, arith, false,
  true, Safe, if◌then◌else◌, ltb, ◌≤◌,
}
use livox_mid360_core.Bytes.{read_le, subspan}
use livox_mid360_core.Crc.{
  crc32, crc16_ccitt_false, crc16_round, crc16_rounds, crc32_round, crc32_rounds,
}
use livox_mid360_core.Crc.Bitwise.{
  crc32-crc32_bitwise, crc16-crc16_bitwise, crc32_bitwise, crc16_bitwise,
}
use livox_mid360_core.Protocol.Types.{
  data_too_large, buffer_too_small, CommandFrameSpec, DataPacketView, DataPacketHeader, cartesian16,
  cartesian32, spherical, imu,
}
use livox_mid360_core.Protocol.CommandFrame.{parse_command_frame, encode_command_frame}
use livox_mid360_core.Protocol.CommandFrame.Parse.{IsViewOf, parse_command_frame-Safe}
use livox_mid360_core.Protocol.CommandFrame.Encode.{frame_wire, encode_command_frame_outcome}
use livox_mid360_core.Protocol.CommandFrame.RoundTrip.{
  view_of, parse_command_frame-encode_command_frame,
}
use livox_mid360_core.Protocol.DataPacket.{
  parse_data_packet, check_crc32, decode_cartesian32, decode_cartesian16, decode_spherical,
  decode_imu, sample_timestamp_ns,
}
use livox_mid360_core.Protocol.DataPacket.Parse.{IsPacketOf, parse_data_packet-Safe}
use livox_mid360_core.Protocol.DataPacket.Samples.{DecodesAll, parse_data_packet-DecodesAll}
use livox_mid360_core.Protocol.DataPacket.Timestamps.{sample_timestamp_ns_order}

-- Known values of the checksum tables.
crc16_entry : crc16_rounds 8 (1 * 2 ^ 8) ≡ 0x1021
unfolding crc16_rounds crc16_round
crc16_entry = refl

crc32_entry : crc32_rounds 8 1 ≡ 0x77073096
unfolding crc32_rounds crc32_round
crc32_entry = refl

abbrev digits : List ℕ
digits = 0x31 ∷ 0x32 ∷ []

crc32-crc32_bitwise_example : crc32 digits 0 ≡ crc32_bitwise digits 0
crc32-crc32_bitwise_example = crc32-crc32_bitwise digits 0 (omega arith, (omega arith, tt))

crc16-crc16_bitwise_example : crc16_ccitt_false digits 0xFFFF ≡ crc16_bitwise digits 0xFFFF
crc16-crc16_bitwise_example =
    crc16-crc16_bitwise digits 0xFFFF (omega arith, (omega arith, tt)) (omega arith)

abbrev buffer : List ℕ
buffer = replicate 30 9

abbrev inquire : CommandFrameSpec
inquire = record {
  seq_num = 7;
  cmd_id = 0x0101;
  cmd_type = 0;
  sender_type = 0;
  payload = 1 ∷ 2 ∷ [];
}

parse_command_frame-Safe_example : Safe (IsViewOf digits) (parse_command_frame digits)
parse_command_frame-Safe_example = parse_command_frame-Safe digits

encode_command_frame_outcome_example : encode_command_frame buffer inquire ≡ (
    if ltb 1376 (length inquire.payload)
    then err data_too_large
    else if ltb (length buffer) (24 + length inquire.payload)
    then err buffer_too_small
    else ok (
      frame_wire inquire ++ drop (24 + length inquire.payload) buffer,
      24 + length inquire.payload,
    ))
encode_command_frame_outcome_example = encode_command_frame_outcome buffer inquire

parse_command_frame-encode_command_frame_example :
    (written : List ℕ) × (encode_command_frame buffer inquire ≡ ok (written, 26))
    × (drop 26 written ≡ drop 26 buffer)
    × (parse_command_frame written ≡ ok (view_of inquire))
parse_command_frame-encode_command_frame_example =
    parse_command_frame-encode_command_frame buffer inquire
      (record {
        seq_num = omega arith;
        cmd_id = omega arith;
        cmd_type = omega arith;
        sender_type = omega arith;
      })
      (omega arith) (omega arith)

-- A packet of one point in centimetres, whose checksum field is not right.
abbrev pub packet : List ℕ
packet =
    0
    ∷ 44
    ∷ 0
    ∷ 10
    ∷ 0
    ∷ 1
    ∷ 0
    ∷ 5
    ∷ 0
    ∷ 3
    ∷ 2
    ∷ 0
    ∷ (replicate 12 0
        ++ (replicate 4 0 ++ (9 ∷ replicate 7 0 ++ (1 ∷ 0 ∷ 2 ∷ 0 ∷ 3 ∷ 0 ∷ 77 ∷ 0 ∷ []))))

abbrev pub packet_view : DataPacketView
packet_view = record {
  header = record {
    version = 0;
    packet_length = 44;
    time_interval = 10;
    dot_num = 1;
    udp_cnt = 5;
    frame_cnt = 3;
    data_type = cartesian16;
    time_type = 0;
    reserved = replicate 12 0;
    crc32 = 0;
    timestamp_ns = 9;
  };
  samples = 1 ∷ 0 ∷ 2 ∷ 0 ∷ 3 ∷ 0 ∷ 77 ∷ 0 ∷ [];
}

pub packet_parses : parse_data_packet packet false ≡ ok packet_view
unfolding parse_data_packet read_le subspan check_crc32
packet_parses = refl

parse_data_packet-Safe_example : Safe (IsPacketOf packet) (parse_data_packet packet true)
parse_data_packet-Safe_example = parse_data_packet-Safe packet true

parse_data_packet-DecodesAll_example :
    DecodesAll packet_view cartesian32 decode_cartesian32
    × DecodesAll packet_view cartesian16 decode_cartesian16
    × DecodesAll packet_view spherical decode_spherical
    × DecodesAll packet_view imu decode_imu
parse_data_packet-DecodesAll_example =
    parse_data_packet-DecodesAll packet false packet_view packet_parses

abbrev spread : DataPacketHeader
spread = record packet_view.header { dot_num = 4; timestamp_ns = 100 }

sample_timestamp_ns_order_example :
    (sample_timestamp_ns spread 0 ≡ 100)
    × (sample_timestamp_ns spread 1 ≤ sample_timestamp_ns spread 2)
    × (sample_timestamp_ns spread 3 ≡ 1100)
sample_timestamp_ns_order_example =
    sample_timestamp_ns_order spread 1 2
      (record { interval = omega arith; count = omega arith; fits = omega arith }) (omega arith)
      (omega arith) (omega arith)
