-- ===== src/Tests/Frames.antt =====
-- The frame assembler and its parts.
use livox_mid360_core.Prelude.{ℕ, ◌≡◌, refl, inl, List, [], ◌∷◌, replicate, arith}
use livox_mid360_core.Protocol.Types.{DataPacketHeader, cartesian32}
use livox_mid360_core.FrameAssembler.DropCounter.Gaps.{at, observe_all, observe_all-missing}
use livox_mid360_core.FrameAssembler.TimeMapper.{init, host_offset_once, map_time, add64, sub64}
use livox_mid360_core.FrameAssembler.TimeMapper.Offsets.{run, map_time_once}
use livox_mid360_core.Prelude.{false, true}
use livox_mid360_core.Prelude.{◌+◌}
use livox_mid360_core.Prelude.Int.{ℤ, pos}
use livox_mid360_core.FrameAssembler.DropCounter.{observe}
use livox_mid360_core.FrameAssembler.TimeMapper.{lidar}
use livox_mid360_core.FrameAssembler.Points.{Floats}
use livox_mid360_core.FrameAssembler.Points.Adding.{IsParsed}
use livox_mid360_core.FrameAssembler.State.{Assembler, FramePolicy, frame_counter, fresh}
use livox_mid360_core.FrameAssembler.Push.{push}
use livox_mid360_core.FrameAssembler.TimeMapper.{map_time}
use livox_mid360_core.FrameAssembler.Push.Outcome.{Takes, push-Takes}
use livox_mid360_core.FrameAssembler.Push.Runs.{
  Operation, push_packet, flush_frame, discard_frame, switch_policy, rebase_clocks, Runs,
  run_operations, run-IsLedger,
}
use livox_mid360_core.Tests.Wire.{packet, packet_view, packet_parses}
use livox_mid360_core.Protocol.Types.{cartesian16}
use livox_mid360_core.FrameAssembler.Points.{offset_from, sample_time}
use livox_mid360_core.FrameAssembler.Push.{closes_always}
use livox_mid360_core.FrameAssembler.Push.Offsets.{offset_from-sample_time}

observe_all-missing_example :
    observe_all (at 65530) 65530 ((0, false) ∷ (3, false) ∷ (0, true) ∷ (2, true) ∷ [])
    ≡ (at 65539, 5)
observe_all-missing_example =
    observe_all-missing 65530 ((0, false) ∷ (3, false) ∷ (0, true) ∷ (2, true) ∷ [])
      (omega arith, (omega arith, (omega arith, (omega arith, tt))))

abbrev header_at : ℕ → DataPacketHeader
header_at t = record {
  version = 0;
  packet_length = 36;
  time_interval = 10;
  dot_num = 0;
  udp_cnt = 0;
  frame_cnt = 0;
  data_type = cartesian32;
  time_type = 0;
  reserved = replicate 12 0;
  crc32 = 0;
  timestamp_ns = t;
}

map_time_once_example :
    ((map_time (init host_offset_once) (header_at 100) 5000).1 ≡ 5000)
    × ((map_time
          (run (init host_offset_once) ((header_at 100, 5000) ∷ (header_at 200, 6000) ∷ []))
          (header_at 300)
          9000).1
        ≡ add64 300 (sub64 5000 100))
map_time_once_example =
    map_time_once (init host_offset_once) (header_at 100) (header_at 300) 5000 9000
      ((header_at 200, 6000) ∷ []) refl (inl refl) (refl, (refl, tt)) refl (omega arith)
      (omega arith)

-- Whole numbers in the place of `float`.
abbrev pub whole : Floats
whole = record {
  Float = ℤ;
  zero_float = pos 0;
  from_int = λ x. x;
  times = λ x y. x;
  sin = λ x. x;
  cos = λ x. x;
  milli = pos 0;
  centi = pos 0;
  centideg_to_rad = pos 0;
}

abbrev pub by_counter : FramePolicy
by_counter = record { mode = frame_counter; window = pos 100000000 }

abbrev started : Assembler ℤ
started = fresh by_counter lidar

parsed : IsParsed packet_view
parsed = (packet, false, packet_parses)

push-Takes_example :
    Takes whole started packet_view
      (map_time started.time packet_view.header 5000).1
      (push whole started packet_view 5000)
push-Takes_example = push-Takes whole started packet_view 5000 parsed refl (unfold observe in refl)

-- Frame 4 is delivered and frame 5 open when a packet of frame 3 arrives.
abbrev later : Assembler ℤ
later = record started {
  have_prev = true;
  prev_frame_cnt = 5;
  drops = record { have = true; last = 9 };
}

abbrev operations : List Operation
operations =
    push_packet packet_view 5000
    ∷ flush_frame
    ∷ push_packet packet_view 6000
    ∷ discard_frame
    ∷ switch_policy by_counter
    ∷ rebase_clocks
    ∷ []

run-IsLedger_example : Runs whole 0 0 (run_operations whole started operations)
run-IsLedger_example =
    run-IsLedger whole by_counter lidar operations (parsed, (tt, (parsed, (tt, (tt, (tt, tt))))))

abbrev receiving : Assembler ℤ
receiving = record started {
  cur = record started.cur { source_type = cartesian16; base_time_ns = 4 };
}

offset_from-sample_time_example :
    4 + offset_from whole 4 (sample_time whole packet_view 9 0) ≡ sample_time whole packet_view 9 0
offset_from-sample_time_example =
    offset_from-sample_time whole receiving packet_view 9 0
      (record { interval = omega arith; count = omega arith; fits = omega arith })
      (unfold closes_always in refl) (omega arith) (omega arith) (omega arith)
