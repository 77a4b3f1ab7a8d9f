-- ===== src/Tests/Devices.antt =====
-- The connection, the pushes, the log port and the data path of a device.
use livox_mid360_core.Prelude.{
  ℕ, ◌+◌, ◌*◌, ◌<◌, ◌≤◌, ◌≡◌, ◌⊎◌, refl, List, [], ◌∷◌, length, Option, none, some, true, false, ok,
  arith,
}
use livox_mid360_core.Prelude.Int.{ℤ, pos}
use livox_mid360_core.FirmwareLog.{FirmwareLogPushHeader, file_begin, file_end}
use livox_mid360_core.FrameAssembler.TimeMapper.{lidar}
use livox_mid360_core.FrameAssembler.Push.Runs.{points_in, Numbered}
use livox_mid360_core.FrameAssembler.Push.Runs
use livox_mid360_core.Transport.{Endpoint}
use livox_mid360_core.Event.{
  disconnected, reconnected, firmware_log_gap, push_timeout, reboot_requested, user,
}
use livox_mid360_core.Info.{LidarStatus}
use livox_mid360_core.Device.Connection.{
  opened, lose, declare_disconnected, finish_attempt, begin_attempt,
}
use livox_mid360_core.Device.Connection.Threads.{
  enter_loss, Move, loses, expires, advances, raises, begins, finishes, fails, hears, arms, advance,
  moves,
}
use livox_mid360_core.Device.Connection.Keeping.{IsLedger, Alternates}
use livox_mid360_core.Device.Connection.Ledger.{
  any_overtakes, opened_threads, history, moves-opened,
}
use livox_mid360_core.Device.Push.{Pushed, nothing_pushed, observe_run}
use livox_mid360_core.Device.Push.Chain.{walk, known, walk-observe_run}
use livox_mid360_core.Device.Push.Latest.{IsLatest, observe_run-IsLatest}
use livox_mid360_core.Device.Log.{no_file, track_run}
use livox_mid360_core.Device.Log.Gaps.{jumps, track_run-gaps}
use livox_mid360_core.Device.Streams.{
  Streams, Requests, Output, StreamOptions, new_streams, Input, receives_data, receives_debug,
  wakes, handle_all, stats_tick,
}
use livox_mid360_core.Device.Streams.Kept.{frames_of}
use livox_mid360_core.Device.Streams.Ledger.{handle_all-IsLedger}
use livox_mid360_core.Device.Streams.Periods.{stats_tick_due}
use livox_mid360_core.Tests.Wire.{packet}
use livox_mid360_core.Tests.Frames.{whole, by_counter}

-- A push is overdue at 600, an attempt fails, and the next one succeeds.
abbrev lost_and_found : List Move
lost_and_found =
    hears 100 false false
    ∷ expires 600
    ∷ advances 0 1
    ∷ advances 0 1
    ∷ loses user
    ∷ advances 0 1
    ∷ advances 0 1
    ∷ raises
    ∷ begins
    ∷ fails
    ∷ begins
    ∷ finishes 900 3
    ∷ raises
    ∷ arms 950
    ∷ loses reboot_requested
    ∷ advances 0 5
    ∷ []

events_raised :
    history (moves true 500 lost_and_found (opened_threads 0))
    ≡ disconnected 1 push_timeout ∷ reconnected 3 2 ∷ []
unfolding moves advance lose enter_loss finish_attempt begin_attempt
events_raised = refl

-- An attempt succeeds before the loss is queued.
abbrev overtaken : List Move
overtaken =
    loses user
    ∷ begins
    ∷ finishes 900 3
    ∷ advances 0 4
    ∷ advances 0 4
    ∷ advances 0 4
    ∷ advances 0 4
    ∷ raises
    ∷ []

recovery_raised_first :
    history (moves true 500 overtaken (opened_threads 0))
    ≡ reconnected 3 1 ∷ disconnected 4 user ∷ []
unfolding moves advance lose enter_loss finish_attempt begin_attempt
recovery_raised_first = refl

-- A loss that no step of another thread comes between is `declare_disconnected`.
loss_alone :
    (moves true 500
      (loses user ∷ advances 0 7 ∷ advances 0 7 ∷ advances 0 7 ∷ advances 0 7 ∷ [])
      (opened_threads 0)).0
    ≡ record { connection = (declare_disconnected true user 7 (opened 0)).0; losing = [] }
unfolding moves advance lose enter_loss declare_disconnected
loss_alone = refl

moves-opened_example :
    IsLedger
      (moves true 500 lost_and_found (opened_threads 0)).1
      (moves true 500 lost_and_found (opened_threads 0)).0
    × ((any_overtakes true 500 lost_and_found (opened_threads 0) ≡ true)
        ⊎ Alternates
            (moves true 500 lost_and_found (opened_threads 0)).1
            (moves true 500 lost_and_found (opened_threads 0)).0)
moves-opened_example = moves-opened true 500 lost_and_found 0

abbrev tells : Option ℕ → Option ℕ → LidarStatus
tells state boots = record {
  time_ns = 0;
  cur_work_state = state;
  core_temp = none;
  powerup_cnt = boots;
  local_time_now = none;
  last_sync_time = none;
  time_offset = none;
  time_sync_type = none;
  lidar_diag_status = none;
  fw_type = none;
  hms_code = none;
}

abbrev told : List (ℕ × LidarStatus)
told =
    (10, tells (some 1) none)
    ∷ (20, tells none (some 8))
    ∷ (30, tells (some 4) none)
    ∷ (40, tells (some 1) (some 9))
    ∷ []

abbrev sampling : Pushed
sampling = record nothing_pushed { status = some (tells (some 2) none) }

walk-observe_run_example :
    walk 2 (observe_run told sampling).1 ≡ known (observe_run told sampling).0.status
walk-observe_run_example = walk-observe_run told 2 sampling refl

observe_run-IsLatest_example : IsLatest told (observe_run told nothing_pushed).0.status
observe_run-IsLatest_example = observe_run-IsLatest told

abbrev chunk : ℕ → ℕ → ℕ → FirmwareLogPushHeader
chunk file flags index = record {
  log_type = 0;
  file_index = file;
  file_num = 1;
  flags = flags;
  timestamp = 0;
  rsvd = 0;
  trans_index = index;
  data_length = 0;
}

-- One chunk of the first file is missing, and the second file begins.
abbrev chunks : List (ℕ × FirmwareLogPushHeader)
chunks = (2, chunk 1 0 5) ∷ (3, chunk 1 4 7) ∷ (4, chunk 2 2 1) ∷ []

track_run-gaps_example :
    (track_run ((1, chunk 1 2 4) ∷ chunks) no_file).1 ≡ jumps (chunk 1 2 4) chunks
track_run-gaps_example = track_run-gaps 1 (chunk 1 2 4) chunks

one_gap : jumps (chunk 1 2 4) chunks ≡ firmware_log_gap 1 6 7 3 ∷ []
unfolding file_begin file_end
one_gap = refl

abbrev point_port : Endpoint
point_port = record { ip = 192 ∷ 168 ∷ 1 ∷ 100 ∷ []; port = 56300 }

abbrev nothing_asked : Requests
nothing_asked = record { discards = false; rebases = false; policy = none }

abbrev unchecked : StreamOptions
unchecked = record { verify_crc = false; timestamps = lidar }

abbrev inputs : List Input
inputs =
    receives_data nothing_asked packet point_port 5000 5000
    ∷ receives_data nothing_asked (1 ∷ []) point_port 5100 5100
    ∷ receives_debug (7 ∷ 8 ∷ []) point_port 5200
    ∷ wakes nothing_asked 200000000
    ∷ wakes (record { discards = true; rebases = true; policy = some by_counter }) 300000000
    ∷ []

handle_all-IsLedger_example :
    (s : Streams ℤ) × (outs : List (Output ℤ)) × (handle_all whole unchecked inputs
        (new_streams by_counter lidar)
      ≡ ok (s, outs))
    × Runs.IsLedger s.assembler (points_in (frames_of outs)) (length (frames_of outs))
    × Numbered 0 (frames_of outs)
handle_all-IsLedger_example = handle_all-IsLedger whole unchecked by_counter inputs

stats_tick_due_example :
    (k : ℕ) × (stats_tick (pos 100) 1234 1000 ≡ (1000 + k * 100, true))
    × (1234 < 1000 + k * 100)
    × (1000 + k * 100 ≤ 1234 + 100)
stats_tick_due_example = stats_tick_due 100 1234 1000 (omega arith) (omega arith)
