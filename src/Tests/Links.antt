-- ===== src/Tests/Links.antt =====
-- A device that is opened, lost and found again, and its commands on the log port.
use livox_mid360_core.Prelude.{
  ℕ, ◌==◌, if◌then◌else◌, ◌≡◌, ◌↔◌, refl, List, [], ◌∷◌, replicate, none, some, true, false, Result,
  ok, arith,
}
use livox_mid360_core.Prelude.Int.{pos}
use livox_mid360_core.Protocol.Types.{
  cmd_param_config, cmd_type_ack, sender_lidar, CommandFrameView,
}
use livox_mid360_core.Protocol.CommandFrame.Encode.{frame_wire}
use livox_mid360_core.Transport.{Datagram, network_unreachable}
use livox_mid360_core.Hms.{HmsCode}
use livox_mid360_core.Bytes.{write_le, copy_to, subspan, read_le}
use livox_mid360_core.Protocol.CommandFrame.{encode_command_frame}
use livox_mid360_core.Protocol.Acks.{parse_simple_ack}
use livox_mid360_core.Event.{DeviceError}
use livox_mid360_core.Session.Types.{DiscoveredDevice}
use livox_mid360_core.Session.Request.{woke, Attempt}
use livox_mid360_core.Session.Connect.{last_poll}
use livox_mid360_core.Session.Commands.Inquire.{values_ack}
use livox_mid360_core.Session.Discover.{received}
use livox_mid360_core.Context.{Context, new_context, find_receiver}
use livox_mid360_core.Context.Gone.{has_receiver}
use livox_mid360_core.Device.Commands.{Device}
use livox_mid360_core.Device.Commands.LogControl.{LogAttempt, cmd_collection_log, send_log_control}
use livox_mid360_core.Device.Commands.LogControl.Outcome.{LogEnds, send_log_control_outcome}
use livox_mid360_core.Device.Reconnect.{
  ReconnectOptions, AttemptEnv, Search, Connect, attempt_locked,
}
use livox_mid360_core.Device.Reconnect.Ends.{Attempted, attempt_locked-Attempted}
use livox_mid360_core.Device.Open.{OpenOptions, OpenEnv, open_device}
use livox_mid360_core.Device.Open.Registers.{Opened, open_device-Opened}
use livox_mid360_core.Device.Push.{raw_codes, hms_events, hms_after}
use livox_mid360_core.Device.Push.Codes.{SameItems, hms_events-SameItems}
use livox_mid360_core.Tests.Sessions.{lidar, discovery_answer, opened}
use livox_mid360_core.Tests.Host.{plain, device, options, answers}

abbrev serial : List ℕ
serial = replicate 16 65

abbrev hears_one : Datagram → ℕ → Attempt
hears_one d i = record { stopped = false; send_failed = none; waits = woke false (d ∷ []) ∷ [] }

-- The answer to the first request of a session, which asks for the serial number.
abbrev serial_answer : Datagram
serial_answer = record {
  bytes = frame_wire (values_ack 1 (record { key = 0x8000; value = serial } ∷ []));
  from = lidar;
}

-- The answer to its second one, which writes the setup.
abbrev setup_answer : Datagram
setup_answer = record {
  bytes = frame_wire (record {
    seq_num = 2;
    cmd_id = cmd_param_config;
    cmd_type = cmd_type_ack;
    sender_type = sender_lidar;
    payload = 0 ∷ 0 ∷ 0 ∷ [];
  });
  from = lidar;
}

abbrev connects : Connect
connects = record { opening = opened; reads = hears_one serial_answer }

abbrev found : DiscoveredDevice
found = record {
  serial_number = serial;
  ip = lidar.ip;
  cmd_port = 56100;
  dev_type = 9;
  from = lidar;
}

abbrev open_options : OpenOptions
open_options = record {
  host_setup = plain;
  session = record { verify_serial = true; request_attempts = 1 };
  window = pos 100;
  stats_interval = pos 1000;
  push_timeout = pos 3000;
  initial_backoff = pos 500;
  max_backoff = pos 8000;
  discovery_timeout = pos 1000;
  push_port = 56201;
  point_port = 56301;
  imu_port = 56401;
}

abbrev open_env : OpenEnv
open_env = record {
  connect = connects;
  local_ip = options.local_ip;
  setup = record {
    writes = hears_one setup_answer;
    mode = hears_one setup_answer;
    polls = last_poll (hears_one setup_answer);
  };
  now = 5;
}

abbrev after_open : Context × Result DeviceError Device
after_open = open_device open_options open_env 1 7 found new_context

open_device-Opened_example : Opened open_options open_env 1 7 found new_context after_open
unfolding has_receiver
open_device-Opened_example = open_device-Opened open_options open_env 1 7 found new_context refl

-- The device was at another address and is lost; its last address is not reachable.
abbrev before_loss : Device
before_loss = record device {
  serial = serial;
  session = record device.session { serial = serial; lidar = record { ip = 1 ∷ []; port = 56100 } };
  info = record found { ip = 1 ∷ [] };
  connection = record device.connection { connected = false; disconnects = 1 };
}

abbrev known_at_old : Context
known_at_old = record new_context {
  entries = record { ip = 1 ∷ []; receiver = 1; serial = serial; device = some 7 } ∷ [];
}

abbrev finds : Search
finds = record {
  opening = opened;
  sends = λ i. none;
  rounds = received (discovery_answer ∷ []) ∷ [];
}

abbrev nothing_heard : ℕ → LogAttempt
nothing_heard i = record { stopped = false; send_failed = none; heard = []; interrupted = false }

abbrev moved_env : AttemptEnv
moved_env = record {
  first = record {
    opening = record opened {
      socket_failed = some (record { code = network_unreachable; errno_value = pos 101 });
    };
    reads = hears_one serial_answer;
  };
  stopping = false;
  by_ip = finds;
  by_targets = finds;
  second = connects;
  local_ip = options.local_ip;
  setup = open_env.setup;
  mode = answers 0;
  log0 = record { write = hears_one setup_answer; attempts = nothing_heard };
  log1 = record { write = hears_one setup_answer; attempts = nothing_heard };
  debug_data = record { write = hears_one setup_answer; attempts = nothing_heard };
  now = 90;
  time = 91;
}

abbrev by_broadcast : ReconnectOptions
by_broadcast = record { discovery_targets = []; discovery_port = 56000 }

abbrev after_attempt : Device × Context × Result DeviceError (Unit {0})
after_attempt = attempt_locked options by_broadcast moved_env 1 before_loss known_at_old

attempt_locked-Attempted_example : Attempted 90 91 1 before_loss known_at_old after_attempt
unfolding find_receiver
attempt_locked-Attempted_example =
    attempt_locked-Attempted options by_broadcast moved_env 1 before_loss known_at_old refl
      (record {
        known = refl;
        reached = record { reads_serial = refl; reaches = refl };
        listed =
            (record { ip = 1 ∷ []; receiver = 1; serial = serial; device = some 7 }, refl, refl);
      })

-- The acknowledgement of the third attempt follows one of another command.
abbrev log_ack : ℕ → CommandFrameView
log_ack cmd = record {
  header = record {
    frame_length = 25;
    seq_num = 1;
    cmd_id = cmd;
    cmd_type = 1;
    sender_type = 1;
    resv = [];
    crc16 = 0;
    crc32 = 0;
  };
  payload = 0 ∷ [];
}

abbrev third_answers : ℕ → LogAttempt
third_answers i =
    if i == 3
    then record (nothing_heard i) { heard = log_ack 0x0303 ∷ log_ack 0x0301 ∷ [] }
    else nothing_heard i

send_log_control_outcome_example :
    LogEnds cmd_collection_log (0 ∷ 1 ∷ []) 56500 3 third_answers device
send_log_control_outcome_example =
    send_log_control_outcome cmd_collection_log (0 ∷ 1 ∷ []) 56500 3 third_answers device
      (omega arith)

third_answered :
    (send_log_control cmd_collection_log (0 ∷ 1 ∷ []) 56500 3 third_answers device).1 ≡ ok tt
unfolding send_log_control encode_command_frame write_le copy_to subspan parse_simple_ack read_le
third_answered = refl

abbrev code : ℕ → HmsCode
code raw = record { abnormal_id = raw; level = 1; reserved = 0; raw = raw }

-- Two codes change their slots.
hms_events-SameItems_example :
    (hms_events 5 (some (code 2 ∷ code 1 ∷ [])) (hms_after (some (code 1 ∷ code 2 ∷ [])) []) ≡ [])
    ↔ SameItems (raw_codes (code 2 ∷ code 1 ∷ [])) (raw_codes (code 1 ∷ code 2 ∷ []))
hms_events-SameItems_example =
    hms_events-SameItems 5 (code 2 ∷ code 1 ∷ []) (code 1 ∷ code 2 ∷ []) []
