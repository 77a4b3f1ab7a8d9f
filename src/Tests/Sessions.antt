-- ===== src/Tests/Sessions.antt =====
-- Requests, inquiries and discovery.
use livox_mid360_core.Prelude.{
  ℕ, suc, ◌≡◌, refl, List, [], ◌∷◌, ◌++◌, replicate, Option, none, some, false, ok, arith, Safe,
}
use livox_mid360_core.Protocol.Types.{
  KeyValue, cmd_param_inquire, cmd_discovery, cmd_type_ack, sender_lidar,
}
use livox_mid360_core.Protocol.CommandFrame.Encode.{frame_wire}
use livox_mid360_core.Transport.{Endpoint, Datagram, network_unreachable}
use livox_mid360_core.Session.Types.{RawAck, mid360}
use livox_mid360_core.Session.Request.{woke, Attempt, Session, request}
use livox_mid360_core.Session.Request.Quiet.{IsQuiet, heard_in, answer_or_timeout, request_quiet}
use livox_mid360_core.Session.Request.Answers.{IsFirst}
use livox_mid360_core.Session.Request.Outcome.{RequestEnds, request_outcome}
use livox_mid360_core.Session.Connect.{Opening}
use livox_mid360_core.Session.Commands.{inquire}
use livox_mid360_core.Session.Commands.Inquire.{values_payload, values_ack, inquire-values_ack}
use livox_mid360_core.Session.Discover.{DiscoveryOptions, Round, received, discover}
use livox_mid360_core.Session.Discover.Outcome.{IsDiscovery, discover-IsDiscovery}
use livox_mid360_core.Prelude.Int.{pos}

abbrev pub lidar : Endpoint
lidar = record { ip = 192 ∷ 168 ∷ 1 ∷ 100 ∷ []; port = 56100 }

abbrev pub session : Session
session = record {
  lidar = lidar;
  default_attempts = 3;
  stats = record { requests = 0; retries = 0; timeouts = 0; late_acks = 0; bad_frames = 0 };
  serial = [];
  next_seq = 4294967295;
  sent = [];
}

abbrev working : List KeyValue
working = record { key = 0x8006; value = 1 ∷ [] } ∷ []

abbrev ack_datagram : Datagram
ack_datagram = record { bytes = frame_wire (values_ack 4294967295 working); from = lidar }

-- A bad frame comes first, then the acknowledgement.
abbrev pub answering : ℕ → Attempt
answering i = record {
  stopped = false;
  send_failed = none;
  waits =
      woke false [] ∷ woke false (record { bytes = 1 ∷ []; from = lidar } ∷ ack_datagram ∷ []) ∷ [];
}

-- The first send works and nothing comes, the second fails.
abbrev failing : ℕ → Attempt
failing i = record {
  stopped = false;
  send_failed = elim i [
    | suc (suc n) ↦ some (record { code = network_unreachable; errno_value = pos 101 })
    | _ ↦ none
  ];
  waits = woke false [] ∷ [];
}

abbrev silent : ℕ → Attempt
silent i = record { stopped = false; send_failed = none; waits = woke false [] ∷ [] }

request_outcome_example : RequestEnds cmd_param_inquire (1 ∷ []) (some 3) failing session
request_outcome_example = request_outcome cmd_param_inquire (1 ∷ []) (some 3) failing session

silent-IsQuiet : (i : ℕ) → IsQuiet (silent i)
silent-IsQuiet i = record { running = refl; sends = refl; waits = (refl, tt) }

answering-IsQuiet : (i : ℕ) → IsQuiet (answering i)
answering-IsQuiet i = record { running = refl; sends = refl; waits = (refl, (refl, tt)) }

request_quiet_example :
    (r : Option RawAck) × IsFirst 4294967295 cmd_param_inquire lidar.ip (heard_in 2 0 silent) r
    × ((request cmd_param_inquire (1 ∷ []) (some 2) silent session).1
        ≡ answer_or_timeout cmd_param_inquire 2 r)
request_quiet_example =
    request_quiet cmd_param_inquire (1 ∷ []) (some 2) silent session (omega arith)
      (λ i a b. silent-IsQuiet i)

abbrev working_ack : RawAck
working_ack = record {
  cmd_id = cmd_param_inquire;
  seq_num = 4294967295;
  payload = values_payload working;
}

abbrev only_answering : ℕ → Attempt
only_answering i = record {
  stopped = false;
  send_failed = none;
  waits = woke false (ack_datagram ∷ []) ∷ [];
}

inquire-values_ack_example :
    (inquire (some 1) only_answering session (0x8006 ∷ [])).1
    ≡ ok (record { ret_code = 0; values = working; raw = values_payload working })
inquire-values_ack_example =
    inquire-values_ack (0x8006 ∷ []) (some 1) only_answering session working [] [] ack_datagram
      (omega arith) (omega arith) ((omega arith, omega arith), tt) (omega arith) (omega arith)
      (λ i a b. record { running = refl; sends = refl; waits = (refl, tt) }) refl refl refl refl

abbrev pub discovery_answer : Datagram
discovery_answer = record {
  bytes = frame_wire (record {
    seq_num = 1;
    cmd_id = cmd_discovery;
    cmd_type = cmd_type_ack;
    sender_type = sender_lidar;
    payload = 0 ∷ 9 ∷ (replicate 16 65 ++ (192 ∷ 168 ∷ 1 ∷ 100 ∷ 0x24 ∷ 0xDB ∷ []));
  });
  from = lidar;
}

abbrev rounds : List Round
rounds = received (discovery_answer ∷ []) ∷ received (discovery_answer ∷ []) ∷ []

abbrev all_mid360 : DiscoveryOptions
all_mid360 = record { targets = []; wanted_type = some mid360 }

abbrev pub opened : Opening
opened = record { socket_failed = none; poller_failed = none; add_failed = none }

discover-IsDiscovery_example :
    Safe (IsDiscovery all_mid360 rounds) (discover all_mid360 opened (λ i. none) rounds)
discover-IsDiscovery_example = discover-IsDiscovery all_mid360 opened (λ i. none) rounds
