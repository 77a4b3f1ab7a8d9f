-- ===== src/FrameAssembler/Points.antt =====
-- `Point`, `Frame` (include/livox/mid360/frame.hpp) and `convert_point`. The arithmetic of `float`
-- is a parameter: the type, the operations that the code uses, and its constants.
pub mod Adding
use livox_mid360_core.Prelude.{
  ℕ, zero, suc, ◌+◌, ◌-◌, ◌*◌, ◌%◌, ◌^◌, List, [], ◌∷◌, ◌++◌, leb, min, max, if◌then◌else◌, Result,
  ok, ◌>>=◌,
}
use livox_mid360_core.Prelude.Int.{ℤ, pos}
use livox_mid360_core.Protocol.Types.{
  DataType, imu, cartesian32, cartesian16, spherical, DataPacketView, CartesianPoint,
  SphericalPoint,
}
use livox_mid360_core.Protocol.DataPacket.{
  decode_cartesian32, decode_cartesian16, decode_spherical, sample_timestamp_ns,
}
use livox_mid360_core.FrameAssembler.TimeMapper.{add64, sub64}

pub record Floats : Type 1 where
  pub Float : Type 0
  pub zero_float : Float
  pub from_int : ℤ → Float
  pub times : Float → Float → Float
  pub sin : Float → Float
  pub cos : Float → Float
  pub milli : Float
  pub centi : Float
  pub centideg_to_rad : Float

pub record Point (F : Type 0) : Type 0 where
  pub x : F
  pub y : F
  pub z : F
  pub reflectivity : ℕ
  pub tag : ℕ
  pub line : ℕ
  pub offset_ns : ℕ

pub record Frame (F : Type 0) : Type 0 where
  pub index : ℕ
  pub base_time_ns : ℕ
  pub end_time_ns : ℕ
  pub points : List (Point F)
  pub packets : ℕ
  pub dropped_packets : ℕ
  pub frame_cnt : ℕ
  pub source_type : DataType
  pub time_type : ℕ

abbrev pub empty_frame : {F : Type 0} → Frame F
empty_frame = record {
  index = 0;
  base_time_ns = 0;
  end_time_ns = 0;
  points = [];
  packets = 0;
  dropped_packets = 0;
  frame_cnt = 0;
  source_type = cartesian32;
  time_type = 0;
}

module _ (fl : Floats) where
  open fl use {Float, zero_float, from_int, times, sin, cos, milli, centi, centideg_to_rad}

  abbrev pub scaled : Float → CartesianPoint → ℕ → Point Float
  scaled unit p i = record {
    x = times (from_int p.x) unit;
    y = times (from_int p.y) unit;
    z = times (from_int p.z) unit;
    reflectivity = p.reflectivity;
    tag = p.tag;
    line = i % 4;
    offset_ns = 0;
  }

  abbrev pub from_spherical : SphericalPoint → ℕ → Point Float
  from_spherical p i =
      let d = times (from_int (pos p.depth_mm)) milli in
      let theta = times (from_int (pos p.theta_centideg)) centideg_to_rad in
      let phi = times (from_int (pos p.phi_centideg)) centideg_to_rad in
      let st = sin theta in
      record {
        x = times (times d st) (cos phi);
        y = times (times d st) (sin phi);
        z = times d (cos theta);
        reflectivity = p.reflectivity;
        tag = p.tag;
        line = i % 4;
        offset_ns = 0;
      }

  abbrev no_point : ℕ → Point Float
  no_point i = record {
    x = zero_float;
    y = zero_float;
    z = zero_float;
    reflectivity = 0;
    tag = 0;
    line = i % 4;
    offset_ns = 0;
  }

  unfoldable pub convert_as : {E : Type 0} → DataType → DataPacketView → ℕ → Result E (Point Float)
  convert_as cartesian32 pkt i = do p ← decode_cartesian32 pkt i; ok (scaled milli p i)
  convert_as cartesian16 pkt i = do p ← decode_cartesian16 pkt i; ok (scaled centi p i)
  convert_as spherical pkt i = do p ← decode_spherical pkt i; ok (from_spherical p i)
  convert_as imu pkt i = ok (no_point i)

  -- `convert_point`, on a point that `resize` has just made, so that its offset is 0.
  unfoldable pub convert_point : {E : Type 0} → DataPacketView → ℕ → Result E (Point Float)
  unfolding convert_as
  convert_point pkt i = convert_as pkt.header.data_type pkt i

  -- The time of sample `i`, and its distance from the frame's base.
  abbrev pub sample_time : DataPacketView → ℕ → ℕ → ℕ
  sample_time pkt t₀ i = add64 t₀ (sub64 (sample_timestamp_ns pkt.header i) pkt.header.timestamp_ns)

  abbrev pub offset_from : ℕ → ℕ → ℕ
  offset_from base ts = min (if leb base ts then ts - base else 0) 0xFFFFFFFF

  -- The loop of `append` from sample `i` on, with the samples left.
  unfoldable pub append_from :
      {E : Type 0} → DataPacketView → ℕ → ℕ → ℕ → Frame Float → Result E (Frame Float)
  append_from pkt t₀ zero i cur = ok cur
  append_from pkt t₀ (suc n) i cur = do
    p ← convert_point pkt i
    let ts = sample_time pkt t₀ i
    let point : Point Float = record p { offset_ns = offset_from cur.base_time_ns ts }
    append_from pkt t₀ n (i + 1)
        (record cur { points = cur.points ++ (point ∷ []); end_time_ns = max cur.end_time_ns ts })

  -- `append`.
  unfoldable pub append : {E : Type 0} → DataPacketView → ℕ → Frame Float → Result E (Frame Float)
  unfolding append_from
  append pkt t₀ cur = append_from pkt t₀ pkt.header.dot_num 0 cur
