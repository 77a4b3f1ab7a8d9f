-- ===== src/Session/Acks.antt =====
-- src/session.cpp, namespace detail: what one received datagram is.
use livox_mid360_core.Prelude.{
  ℕ, List, [], ◌∷◌, ◌==◌, not, ◌&&◌, ◌||◌, Bool, false, Option, none, some, if◌then◌else◌, Result,
  ok, err, fault, ◌>>=◌, ◌>>◌, fail_if,
}
use livox_mid360_core.Protocol.CommandFrame.{parse_command_frame, is_empty}
use livox_mid360_core.Protocol.Types.{
  truncated, CommandFrameView, KeyValue, cmd_type_ack, cmd_discovery, ret_success,
  ret_param_not_support, ret_param_reboot_effect,
}
use livox_mid360_core.Protocol.Acks.{
  DiscoveryAck, parse_discovery_ack, serial_number_view, ParamConfigAck, parse_param_config_ack,
  parse_param_inquire_ack, SimpleAck, parse_simple_ack,
}
use livox_mid360_core.Keys.{find_key, key_cur_work_state}
use livox_mid360_core.Keys.Scalars.{decode_work_state}
use livox_mid360_core.Transport.{Endpoint, same_bytes}
use livox_mid360_core.Session.Types.{
  SessionError, bad_response_error, rejected, DiscoveredDevice, RawAck, InquireResult,
}

pub data AckMismatch : Type 0 where
  bad_frame not_ack late : AckMismatch

-- An error of one call as an error of the caller.
abbrev pub or_fail {ℓ} : {E F : Type 0} {A : Type ℓ} → (E → F) → Result E A → Result F A
or_fail f (ok a) = ok a
or_fail f (err e) = err (f e)
or_fail f fault = fault

unfoldable pub match_ack : List ℕ → Endpoint → ℕ → ℕ → List ℕ → Result AckMismatch CommandFrameView
match_ack datagram from seq cmd_id lidar_ip = do
  view ← or_fail (λ e. bad_frame) (parse_command_frame datagram)
  fail_if (not (view.header.cmd_type == cmd_type_ack)) not_ack
  fail_if
      (not (view.header.seq_num == seq)
        || not (view.header.cmd_id == cmd_id)
        || not (same_bytes from.ip lidar_ip))
      late
  ok view

-- `std::nullopt` is the error.
unfoldable pub parse_discovered_device : List ℕ → Endpoint → Result (Unit {0}) DiscoveredDevice
parse_discovered_device datagram from = do
  view ← or_fail (λ e. tt) (parse_command_frame datagram)
  fail_if (not (view.header.cmd_id == cmd_discovery) || not (view.header.cmd_type == cmd_type_ack))
      tt
  ack ← or_fail (λ e. tt) (parse_discovery_ack view.payload)
  fail_if (not (ack.ret_code == ret_success)) tt
  ok (record {
    serial_number = serial_number_view ack;
    ip = ack.lidar_ip;
    cmd_port = ack.cmd_port;
    dev_type = ack.dev_type;
    from = from;
  })

unfoldable pub to_discovery_ack : RawAck → Result SessionError DiscoveryAck
to_discovery_ack ack = do
  a ← or_fail (λ e. bad_response_error e ack.cmd_id 0) (parse_discovery_ack ack.payload)
  fail_if (not (a.ret_code == ret_success)) (rejected a.ret_code 0 ack.cmd_id 0)
  ok a

unfoldable pub to_config_ack : RawAck → Result SessionError ParamConfigAck
to_config_ack ack = do
  a ← or_fail (λ e. bad_response_error e ack.cmd_id 0) (parse_param_config_ack ack.payload)
  fail_if (not (a.ret_code == ret_success) && not (a.ret_code == ret_param_reboot_effect))
      (rejected a.ret_code a.error_key ack.cmd_id 0)
  ok a

-- The lambda `answered`.
unfoldable pub answered : List KeyValue → ℕ → Bool
answered [] k = false
answered (kv ∷ kvs) k = ((kv.key == k) && not (is_empty kv.value)) || answered kvs k

-- `find_if_not(requested, answered)`.
unfoldable pub first_missing : List KeyValue → List ℕ → Option ℕ
first_missing values [] = none
first_missing values (k ∷ keys) =
    let rest = first_missing values keys in if answered values k then rest else some k

abbrev pub first_key : List KeyValue → ℕ
first_key [] = 0
first_key (kv ∷ kvs) = kv.key

-- The key that a refusal names.
unfoldable pub refused_key : ℕ → List KeyValue → List ℕ → ℕ
refused_key ret values requested =
    if ret == ret_param_not_support
    then elim (first_missing values requested) [ none ↦ first_key values | some k ↦ k ]
    else first_key values

unfoldable pub to_inquire_result : RawAck → List ℕ → Result SessionError InquireResult
unfolding refused_key
to_inquire_result ack requested = do
  a ← or_fail (λ e. bad_response_error e ack.cmd_id 0) (parse_param_inquire_ack ack.payload)
  fail_if (not (a.ret_code == ret_success))
      (rejected a.ret_code (refused_key a.ret_code a.values requested) ack.cmd_id 0)
  ok (record { ret_code = a.ret_code; values = a.values; raw = ack.payload })

unfoldable pub to_simple_ack : RawAck → Result SessionError SimpleAck
to_simple_ack ack = do
  a ← or_fail (λ e. bad_response_error e ack.cmd_id 0) (parse_simple_ack ack.payload)
  fail_if (not (a.ret_code == ret_success)) (rejected a.ret_code 0 ack.cmd_id 0)
  ok a

-- A value that the result lacks, or that does not decode, is reported alike.
unfoldable pub to_work_state : InquireResult → Result SessionError ℕ
to_work_state result = elim (find_key result.values key_cur_work_state) [
  | none ↦ err (bad_response_error truncated 0x0101 0)
  | some v ↦ or_fail (λ e. bad_response_error truncated 0x0101 0) (decode_work_state v)
]
