-- ===== src/Protocol/Types.antt =====
-- Constants, enumerations and structs of include/livox/mid360/protocol.hpp. An enumeration that the
-- code casts from any byte, without a check, is the byte, with names for the values that it lists.
use livox_mid360_core.Prelude.{ℕ, ◌-◌, List}
use livox_mid360_core.Prelude.Int.{ℤ}

abbrev pub command_sof : ℕ
command_sof = 0xAA

abbrev pub protocol_version : ℕ
protocol_version = 0

abbrev pub command_header_size : ℕ
command_header_size = 24

abbrev pub command_frame_max_size : ℕ
command_frame_max_size = 1400

abbrev pub command_data_max_size : ℕ
command_data_max_size = command_frame_max_size - command_header_size

abbrev pub data_packet_header_size : ℕ
data_packet_header_size = 36

pub data ParseError : Type 0 where
  too_short bad_sof bad_version length_mismatch bad_crc16 bad_crc32 : ParseError
  unknown_data_type bad_dot_num truncated key_num_mismatch : ParseError

pub data EncodeError : Type 0 where
  data_too_large buffer_too_small : EncodeError

-- `CmdType`.
abbrev pub cmd_type_req : ℕ
cmd_type_req = 0x00

abbrev pub cmd_type_ack : ℕ
cmd_type_ack = 0x01

-- `SenderType`.
abbrev pub sender_host : ℕ
sender_host = 0x00

abbrev pub sender_lidar : ℕ
sender_lidar = 0x01

-- `CmdId`.
abbrev pub cmd_discovery : ℕ
cmd_discovery = 0x0000

abbrev pub cmd_param_config : ℕ
cmd_param_config = 0x0100

abbrev pub cmd_param_inquire : ℕ
cmd_param_inquire = 0x0101

abbrev pub cmd_reboot : ℕ
cmd_reboot = 0x0200

abbrev pub cmd_factory_reset : ℕ
cmd_factory_reset = 0x0201

abbrev pub cmd_set_gps_timestamp : ℕ
cmd_set_gps_timestamp = 0x0202

-- `WorkState`.
abbrev pub work_state_error : ℕ
work_state_error = 0x04

abbrev pub work_state_upgrade : ℕ
work_state_upgrade = 0x08

-- `RetCode`.
abbrev pub ret_success : ℕ
ret_success = 0x00

abbrev pub ret_param_not_support : ℕ
ret_param_not_support = 0x20

abbrev pub ret_param_reboot_effect : ℕ
ret_param_reboot_effect = 0x21

-- `TimeType`.
abbrev pub time_no_sync : ℕ
time_no_sync = 0

-- `DataType`: the parser refuses every other byte.
pub data DataType : Type 0 where
  imu cartesian32 cartesian16 spherical : DataType

pub record CommandHeader : Type 0 where
  pub frame_length : ℕ
  pub seq_num : ℕ
  pub cmd_id : ℕ
  pub cmd_type : ℕ
  pub sender_type : ℕ
  pub resv : List ℕ
  pub crc16 : ℕ
  pub crc32 : ℕ

pub record CommandFrameView : Type 0 where
  pub header : CommandHeader
  pub payload : List ℕ

pub record CommandFrameSpec : Type 0 where
  pub seq_num : ℕ
  pub cmd_id : ℕ
  pub cmd_type : ℕ
  pub sender_type : ℕ
  pub payload : List ℕ

pub record DataPacketHeader : Type 0 where
  pub version : ℕ
  pub packet_length : ℕ
  pub time_interval : ℕ
  pub dot_num : ℕ
  pub udp_cnt : ℕ
  pub frame_cnt : ℕ
  pub data_type : DataType
  pub time_type : ℕ
  pub reserved : List ℕ
  pub crc32 : ℕ
  pub timestamp_ns : ℕ

pub record DataPacketView : Type 0 where
  pub header : DataPacketHeader
  pub samples : List ℕ

-- Bytes per sample.
abbrev pub sample_size : DataType → ℕ
sample_size imu = 24
sample_size cartesian32 = 14
sample_size cartesian16 = 8
sample_size spherical = 10

pub record CartesianPoint : Type 0 where
  pub x : ℤ
  pub y : ℤ
  pub z : ℤ
  pub reflectivity : ℕ
  pub tag : ℕ

pub record SphericalPoint : Type 0 where
  pub depth_mm : ℕ
  pub theta_centideg : ℕ
  pub phi_centideg : ℕ
  pub reflectivity : ℕ
  pub tag : ℕ

-- Each `float` is its 32 bits.
pub record ImuSample : Type 0 where
  pub gyro_x : ℕ
  pub gyro_y : ℕ
  pub gyro_z : ℕ
  pub acc_x : ℕ
  pub acc_y : ℕ
  pub acc_z : ℕ

pub record KeyValue : Type 0 where
  pub key : ℕ
  pub value : List ℕ
