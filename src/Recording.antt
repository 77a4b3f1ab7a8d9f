-- ===== src/Recording.antt =====
-- include/livox/mid360/lvx2.hpp and src/lvx2.cpp: the recordings. A file is the list of its bytes;
-- what the C library does on a read, a write or a flush is a parameter.
pub mod Writer
pub mod Write
pub mod Reader
pub mod Layout
pub mod Read
pub mod ReadAll
pub mod Written
pub mod WriteAll
pub mod RoundTrip
pub mod Header
pub mod Devices
pub mod Opening
use livox_mid360_core.Prelude.{ℕ, List, Bool}
use livox_mid360_core.Prelude.Int.{ℤ}
use livox_mid360_core.Protocol.Types.{DataType, cartesian32}

-- The kinds; the errno value and the text of an error are left out.
pub data Lvx2Error : Type 0 where
  io invalid_argument unsupported_data_type bad_file : Lvx2Error

abbrev pub file_header_size : ℕ
file_header_size = 29

abbrev pub device_info_size : ℕ
device_info_size = 63

abbrev pub frame_header_size : ℕ
frame_header_size = 24

abbrev pub package_header_size : ℕ
package_header_size = 27

abbrev pub magic : ℕ
magic = 0xAC0EA767

abbrev pub type_cartesian32 : ℕ
type_cartesian32 = 1

abbrev pub type_cartesian16 : ℕ
type_cartesian16 = 2

-- Each `float` is its 32 bits, each string the list of its characters.
pub record Lvx2DeviceInfo : Type 0 where
  pub lidar_sn : List ℕ
  pub hub_sn : List ℕ
  pub lidar_id : ℕ
  pub lidar_type : ℕ
  pub device_type : ℕ
  pub extrinsic_enable : Bool
  pub roll_deg : ℕ
  pub pitch_deg : ℕ
  pub yaw_deg : ℕ
  pub x_m : ℕ
  pub y_m : ℕ
  pub z_m : ℕ

pub record Lvx2FileHeader : Type 0 where
  pub version : List ℕ
  pub frame_duration_ms : ℕ
  pub device_count : ℕ

pub record Lvx2Packet : Type 0 where
  pub frame_index : ℕ
  pub lidar_id : ℕ
  pub lidar_type : ℕ
  pub timestamp_type : ℕ
  pub timestamp_ns : ℕ
  pub udp_counter : ℕ
  pub data_type : DataType
  pub frame_counter : ℕ
  pub points : List ℕ

-- The C library on a stream. `opens` is `fopen`; `fwrite` of some bytes behind what the file has
-- writes that many; `fflush` fails or not; `fread` of up to `n` bytes, with `rest` ahead, gives that
-- many and sets the error flag or not.
pub record Stdio : Type 0 where
  pub opens : Bool
  pub fwrite : List ℕ → List ℕ → ℕ
  pub fflush_fails : List ℕ → Bool
  pub fread : List ℕ → ℕ → ℕ
  pub ferror : List ℕ → ℕ → Bool

-- The arithmetic of `double` that turns spherical samples, with `round` for `lround`.
pub record Doubles : Type 1 where
  pub Double : Type 0
  pub from_int : ℕ → Double
  pub times : Double → Double → Double
  pub sin : Double → Double
  pub cos : Double → Double
  pub centideg_to_rad : Double
  pub round : Double → ℤ
