-- ===== src/Session/Commands.antt =====
-- src/session.cpp: the typed commands, connecting, and the wait for a working state.
pub mod Inquire
use livox_mid360_core.Prelude.{ℕ, List, [], ◌∷◌, Option, none, some, Result, ok, err, fault}
use livox_mid360_core.Protocol.Types.{
  KeyValue, truncated, cmd_discovery, cmd_param_config, cmd_param_inquire, cmd_reboot,
  cmd_factory_reset, cmd_set_gps_timestamp,
}
use livox_mid360_core.Protocol.KeyValues.{encode_param_config_request, encode_param_inquire_request}
use livox_mid360_core.Protocol.Acks.{
  DiscoveryAck, ParamConfigAck, SimpleAck, encode_reboot_request, encode_factory_reset_request,
  encode_set_gps_timestamp_request,
}
use livox_mid360_core.Keys.{find_key, key_sn, key_cur_work_state}
use livox_mid360_core.Keys.Scalars.{decode_string}
use livox_mid360_core.Session.Types.{SessionError, bad_response_error, InquireResult}
use livox_mid360_core.Session.Acks.{
  to_discovery_ack, to_config_ack, to_inquire_result, to_simple_ack, to_work_state,
}
use livox_mid360_core.Session.Request.{Attempt, Session, Call, request}

-- `if (!r) { return unexpected(r.error()); }`, the session kept.
abbrev pub and_then {ℓ κ} : {A : Type ℓ} {B : Type κ} → Call A → (Session → A → Call B) → Call B
and_then (s, ok a) k = k s a
and_then (s, err e) k = (s, err e)
and_then (s, fault) k = (s, fault)

module _ (opts : Option ℕ) (env : ℕ → Attempt) (s : Session) where
  unfoldable pub discovery_ack : Call DiscoveryAck
  discovery_ack = and_then (request cmd_discovery [] opts env s) (λ s' a. (s', to_discovery_ack a))

  unfoldable pub configure : List KeyValue → Call ParamConfigAck
  configure kvs =
      and_then (s, encode_param_config_request kvs)
        (λ s payload.
          and_then (request cmd_param_config payload opts env s) (λ s' a. (s', to_config_ack a)))

  unfoldable pub inquire : List ℕ → Call InquireResult
  inquire keys =
      and_then (s, encode_param_inquire_request keys)
        (λ s payload.
          and_then (request cmd_param_inquire payload opts env s)
            (λ s' a. (s', to_inquire_result a keys)))

  unfoldable pub reboot : ℕ → Call SimpleAck
  reboot timeout_ms =
      and_then (s, encode_reboot_request timeout_ms)
        (λ s payload.
          and_then (request cmd_reboot payload opts env s) (λ s' a. (s', to_simple_ack a)))

  unfoldable pub factory_reset : Call SimpleAck
  factory_reset =
      and_then (request cmd_factory_reset encode_factory_reset_request opts env s)
        (λ s' a. (s', to_simple_ack a))

  unfoldable pub set_gps_time : ℕ → Call SimpleAck
  set_gps_time pps_time_ns =
      and_then (s, encode_set_gps_timestamp_request pps_time_ns)
        (λ s payload.
          and_then (request cmd_set_gps_timestamp payload opts env s)
            (λ s' a. (s', to_simple_ack a)))

  unfoldable pub work_state : Call ℕ
  unfolding inquire
  work_state = and_then (inquire (key_cur_work_state ∷ [])) (λ s' r. (s', to_work_state r))

-- `Session::read_serial`.
unfoldable pub read_serial : (ℕ → Attempt) → Session → Call (Unit {0})
unfolding inquire
read_serial env s = and_then (inquire none env s (key_sn ∷ [])) (λ s' r.
    elim (find_key r.values key_sn) [
      | none ↦ (s', err (bad_response_error truncated 0x0101 1))
      | some sn ↦ (record s' { serial = decode_string sn }, ok tt)
    ])
