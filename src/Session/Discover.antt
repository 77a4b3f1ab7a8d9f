-- ===== src/Session/Discover.antt =====
-- src/session.cpp, discover: one request to all, and the answers collected until the deadline.
pub mod Answered
pub mod Found
pub mod Outcome
use livox_mid360_core.Prelude.{
  suc, ℕ, List, [], ◌∷◌, ◌++◌, length, replicate, ◌&&◌, ◌||◌, not, Bool, true, false, Option, none,
  some, if◌then◌else◌, Result, ok, err, fault,
}
use livox_mid360_core.Protocol.Types.{cmd_discovery, too_short}
use livox_mid360_core.Protocol.CommandFrame.{build_command_frame, is_empty}
use livox_mid360_core.Transport.{
  Endpoint, broadcast, TransportError, Datagram, same_bytes, same_endpoint,
}
use livox_mid360_core.Session.Types.{
  SessionError, error_of, transport_error, bad_response_error, cancelled, DeviceType, device_type,
  same_device_type, DiscoveredDevice,
}
use livox_mid360_core.Session.Acks.{parse_discovered_device}
use livox_mid360_core.Session.Request.{request_spec}
use livox_mid360_core.Session.Connect.{Opening}

-- What `discover` reads of `DiscoveryOptions`; the address to bind goes to the sockets.
pub record DiscoveryOptions : Type 0 where
  pub targets : List Endpoint
  pub wanted_type : Option DeviceType

-- One round of the loop before the deadline: whether a stop was requested, and the wait with the
-- datagrams of both sockets in the order in which they are read.
pub data Round : Type 0 where
  stop_requested : Round
  round_failed : TransportError → Round
  received : List Datagram → Round

-- `found`, and `answered` for each target.
pub record Findings : Type 0 where
  pub found : List DiscoveredDevice
  pub answered : List Bool

abbrev pub wants : Option DeviceType → DiscoveredDevice → Bool
wants none dev = true
wants (some t) dev = same_device_type (device_type dev) t

unfoldable pub is_duplicate : List DiscoveredDevice → DiscoveredDevice → Bool
is_duplicate [] dev = false
is_duplicate (f ∷ found) dev =
    same_bytes f.serial_number dev.serial_number || is_duplicate found dev

-- The targets that the sender stands for are marked.
unfoldable pub mark_answered : List Endpoint → Endpoint → List Bool → List Bool
mark_answered (t ∷ targets) from (b ∷ answered) =
    (b || (same_endpoint t from || same_bytes t.ip from.ip)) ∷ mark_answered targets from answered
mark_answered _ from answered = answered

-- A device that one datagram announces.
unfoldable pub take_device : DiscoveryOptions → Endpoint → DiscoveredDevice → Findings → Findings
unfolding mark_answered
take_device options from dev f =
    let wanted = wants options.wanted_type dev in
    let dup = is_duplicate f.found dev in
    record {
      found = (if wanted && not dup then f.found ++ (dev ∷ []) else f.found);
      answered = mark_answered options.targets from f.answered;
    }

unfoldable pub take_datagrams :
    DiscoveryOptions → List Datagram → Findings → Result SessionError Findings
unfolding take_device
take_datagrams options [] f = ok f
take_datagrams options (d ∷ ds) f = elim (parse_discovered_device d.bytes d.from) [
  | ok dev ↦ take_datagrams options ds (take_device options d.from dev f)
  | err x ↦ take_datagrams options ds f
  | fault ↦ fault
]

abbrev pub all_true : List Bool → Bool
all_true [] = true
all_true (b ∷ bs) = b && all_true bs

abbrev pub all_answered : DiscoveryOptions → Findings → Bool
all_answered options f = not (is_empty options.targets) && all_true f.answered

-- The loop; with no round left the deadline is over.
unfoldable pub collect : DiscoveryOptions → List Round → Findings → Result SessionError Findings
unfolding take_datagrams
collect options [] f = ok f
collect options (stop_requested ∷ rounds) f = err (error_of cancelled 0 0)
collect options (round_failed e ∷ rounds) f = err (transport_error e 0 1)
collect options (received ds ∷ rounds) f = elim (take_datagrams options ds f) [
  | ok f' ↦ elim (all_answered options f') [ true ↦ ok f' | false ↦ collect options rounds f' ]
  | err e ↦ err e
  | fault ↦ fault
]

-- The sends, with how each ends, up to the first failure.
unfoldable pub send_all : List Endpoint → (ℕ → Option TransportError) → ℕ → Option TransportError
send_all [] sends i = none
send_all (t ∷ targets) sends i = elim (sends i) [
  | none ↦ send_all targets sends (suc i)
  | some e ↦ some e
]

abbrev pub discovery_port : ℕ
discovery_port = 56000

abbrev pub targets_of : DiscoveryOptions → List Endpoint
targets_of options =
    if is_empty options.targets then broadcast discovery_port ∷ [] else options.targets

-- The request to every target, then the loop.
unfoldable pub ask_and_collect :
    DiscoveryOptions
    → (ℕ → Option TransportError)
    → List Round
    → Result SessionError (List DiscoveredDevice)
ask_and_collect options sends rounds =
    elim (build_command_frame (request_spec 1 cmd_discovery [])) [
      | ok frame ↦ elim (send_all (targets_of options) sends 0) [
        | some e ↦ err (transport_error e 0 1)
        | none ↦
            elim (collect options rounds
              (record { found = []; answered = replicate (length (targets_of options)) false })) [
                | ok f ↦ ok f.found
                | err e ↦ err e
                | fault ↦ fault
              ]
      ]
      | err e ↦ err (bad_response_error too_short 0 0)
      | fault ↦ fault
    ]

unfoldable pub discover :
    DiscoveryOptions
    → Opening
    → (ℕ → Option TransportError)
    → List Round
    → Result SessionError (List DiscoveredDevice)
unfolding ask_and_collect
discover options o sends rounds = elim o.socket_failed [
  | some e ↦ err (transport_error e 0 0)
  | none ↦ elim o.poller_failed [
    | some e ↦ err (transport_error e 0 0)
    | none ↦ elim o.add_failed [
      | some e ↦ err (transport_error e 0 0)
      | none ↦ ask_and_collect options sends rounds
    ]
  ]
]
