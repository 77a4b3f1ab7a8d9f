-- ===== src/Tests/Recordings.antt =====
-- A recording of two packets, in two frames.
use livox_mid360_core.Prelude.{
  ℕ, refl, inr, min, List, [], ◌∷◌, length, replicate, none, some, true, false, arith,
}
use livox_mid360_core.Prelude.Int.{ℤ, pos, ◌*ℤ◌}
use livox_mid360_core.Protocol.Types.{DataPacketView, cartesian16}
use livox_mid360_core.Recording.{Stdio, Doubles, Lvx2DeviceInfo}
use livox_mid360_core.Recording.Writer.{Writer}
use livox_mid360_core.Recording.Read.{IsReliable}
use livox_mid360_core.Recording.Opening.{Starts, open_reader-open_writer}
use livox_mid360_core.Recording.RoundTrip.{PlaysBack, read_packets-write_packets}

abbrev working_stdio : Stdio
working_stdio = record {
  opens = true;
  fwrite = λ content bs. length bs;
  fflush_fails = λ content. false;
  fread = λ rest n. min n (length rest);
  ferror = λ rest n. false;
}

working_stdio-IsReliable : IsReliable working_stdio
working_stdio-IsReliable = record {
  opens = refl;
  writes = λ content bs. refl;
  flushes = λ content. refl;
  reads = λ rest n. refl;
  no_error = λ rest n. refl;
}

-- Any arithmetic will do for Cartesian packets.
abbrev whole_numbers : Doubles
whole_numbers = record {
  Double = ℤ;
  from_int = pos;
  times = ◌*ℤ◌;
  sin = λ x. x;
  cos = λ x. x;
  centideg_to_rad = pos 1;
  round = λ x. x;
}

abbrev file_start : List ℕ
file_start = replicate 92 0

abbrev new_writer : Writer
new_writer = record {
  file = some file_start;
  lidar_ids = 0xC0A80164 ∷ [];
  frame_duration_ms = 50;
  stats = record { packets = 0; frames = 0; bytes = 92; ignored = 0 };
  frame = [];
  frame_slot = none;
  clocks = record { base = none; prev = 0 } ∷ [];
  latest_ns = 0;
  frame_index = 0;
  offset = 92;
}

abbrev packet_at : ℕ → DataPacketView
packet_at t = record {
  header = record {
    version = 0;
    packet_length = 44;
    time_interval = 0;
    dot_num = 1;
    udp_cnt = 7;
    frame_cnt = 3;
    data_type = cartesian16;
    time_type = 0;
    reserved = replicate 12 0;
    crc32 = 0;
    timestamp_ns = t;
  };
  samples = replicate 8 1;
}

read_packets-write_packets_example :
    PlaysBack working_stdio whole_numbers new_writer file_start
      ((0, packet_at 1000) ∷ (0, packet_at 60001000) ∷ [])
      (record { version = 2 ∷ 0 ∷ 0 ∷ 0 ∷ []; frame_duration_ms = 50; device_count = 1 })
      []
read_packets-write_packets_example =
    read_packets-write_packets working_stdio whole_numbers new_writer file_start
      ((0, packet_at 1000) ∷ (0, packet_at 60001000) ∷ [])
      (record { version = 2 ∷ 0 ∷ 0 ∷ 0 ∷ []; frame_duration_ms = 50; device_count = 1 }) []
      working_stdio-IsReliable
      (record { file = refl; frame = refl; offset = refl; frame_index = refl; clocks = refl })
      (
        (
          omega arith,
          inr refl,
          record {
            lidar_id = omega arith;
            lidar_type = refl;
            timestamp_type = omega arith;
            timestamp_ns = omega arith;
            udp_counter = omega arith;
            frame_counter = omega arith;
            known_type = omega arith;
            size = omega arith;
            whole = omega arith;
          },
        ),
        (
          (
            omega arith,
            inr refl,
            record {
              lidar_id = omega arith;
              lidar_type = refl;
              timestamp_type = omega arith;
              timestamp_ns = omega arith;
              udp_counter = omega arith;
              frame_counter = omega arith;
              known_type = omega arith;
              size = omega arith;
              whole = omega arith;
            },
          ),
          tt,
        ),
      )
      (omega arith)

abbrev mid360_device : Lvx2DeviceInfo
mid360_device = record {
  lidar_sn = 0x34 ∷ 0x37 ∷ [];
  hub_sn = [];
  lidar_id = 0xC0A80164;
  lidar_type = 0;
  device_type = 9;
  extrinsic_enable = false;
  roll_deg = 0;
  pitch_deg = 0;
  yaw_deg = 0;
  x_m = 0;
  y_m = 0;
  z_m = 0;
}

abbrev closed_writer : Writer
closed_writer = record new_writer { file = none; clocks = [] }

open_reader-open_writer_example :
    Starts working_stdio (mid360_device ∷ []) 50 closed_writer (1 ∷ 2 ∷ [])
open_reader-open_writer_example =
    open_reader-open_writer working_stdio (mid360_device ∷ []) 50 closed_writer (1 ∷ 2 ∷ [])
      working_stdio-IsReliable refl (omega arith) (omega arith) (omega arith) (omega arith)
      (
        record {
          lidar_sn = (omega arith, (omega arith, tt));
          hub_sn = tt;
          lidar_sn_size = omega arith;
          hub_sn_size = omega arith;
          lidar_id = omega arith;
          lidar_type = omega arith;
          device_type = omega arith;
          roll_deg = omega arith;
          pitch_deg = omega arith;
          yaw_deg = omega arith;
          x_m = omega arith;
          y_m = omega arith;
          z_m = omega arith;
        },
        tt,
      )
