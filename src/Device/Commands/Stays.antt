-- ===== src/Device/Commands/Stays.antt =====
-- What the commands of a device leave alone.
pub mod Logs
use livox_mid360_core.Prelude.{
  ℕ, zero, suc, ◌+◌, ◌==◌, ◌≡◌, refl, ◌∙◌, Bool, Bool-cases, Option-cases, true, false, inl, inr,
  if◌then◌else◌, List, [], ◌∷◌, ◌++◌, Option, none, some, Result, ok, err, fault,
}
use livox_mid360_core.Prelude.Int.{pos, ltb_ℤ}
use livox_mid360_core.Keys.Values.{encode_host_ip_config}
use livox_mid360_core.Protocol.Types.{EncodeError}
use livox_mid360_core.Config.{no_address}
use livox_mid360_core.Transport.{Endpoint, same_bytes}
use livox_mid360_core.Session.Types.{SessionError}
use livox_mid360_core.Session.Request.{Session, Call, Attempt}
use livox_mid360_core.Session.Peer.{
  SamePeer, KeepsPeer, same_peer, configure-KeepsPeer, wait_for_state-KeepsPeer,
}
use livox_mid360_core.DebugData.{DebugDataControlRequest, encode_debug_data_control}
use livox_mid360_core.Keys.{key_log_host_ip_cfg}
use livox_mid360_core.Session.Commands
use livox_mid360_core.Event.{DeviceError}
use livox_mid360_core.Device.Log.{LogState}
use livox_mid360_core.Device.Commands.{
  CommandOptions, CommandEnv, Device, DeviceCall, then_do, wrapped, mode_acknowledged,
  set_mode_locked,
}
use livox_mid360_core.Device.Commands.LogControl.{
  LogAttempt, LogCall, lidar_log_source_port, judge_log, send_log_frame, expect_ack, next_log_seq,
  hear, try_log, or_next, log_attempts, log_frame, send_log_control, log_wrapped,
}
use livox_mid360_core.Device.Commands.Logging.{
  LogEnv, host_address, log_key_unsupported, log_host_written, request_log, write_log_host,
  log_control_locked, debug_data_target, port_or_zero, debug_data_control_locked,
}

-- A call that leaves the connection and the device, and keeps the session with it.
pub record SameDevice (d d' : Device) : Type 0 where
  pub same_connection : d'.connection ≡ d.connection
  pub same_info : d'.info ≡ d.info
  pub same_number : d'.serial ≡ d.serial
  pub same_session : SamePeer d.session d'.session

pub same_device : (d : Device) → SameDevice d d
same_device d = record {
  same_connection = refl;
  same_info = refl;
  same_number = refl;
  same_session = same_peer d.session;
}

-- What else a step changes does not count.
pub alike :
    (d d' d'' : Device)
    → SameDevice d d'
    → d''.connection ≡ d'.connection
    → d''.info ≡ d'.info
    → d''.serial ≡ d'.serial
    → SamePeer d.session d''.session
    → SameDevice d d''
alike d d' d'' v c i n s = record {
  same_connection = c ∙ v.same_connection;
  same_info = i ∙ v.same_info;
  same_number = n ∙ v.same_number;
  same_session = s;
}

pub record Stays {ℓ} {E : Type 0} {A : Type ℓ} (d : Device) (x : Device × Result E A) : Type 0 where
  pub device : SameDevice d x.0

pub stays {ℓ} :
    {E : Type 0} {A : Type ℓ} (d d' : Device) (r : Result E A) → SameDevice d d' → Stays d (d', r)
stays d d' r v = record { device = v }

pub then_do-Stays {ℓ κ} :
    {A : Type ℓ} {B : Type κ} (d : Device) (x : DeviceCall A) (k : Device → A → DeviceCall B)
    → Stays d x
    → ((d' : Device) (a : A) → SameDevice d d' → Stays d (k d' a))
    → Stays d (then_do x k)
then_do-Stays d (d', ok a) k v w = w d' a v.device
then_do-Stays d (d', err e) k v w = stays d d' (err e) v.device
then_do-Stays d (d', fault) k v w = stays d d' fault v.device

module _ (options : CommandOptions) (d : Device) where
  -- A call of the session.
  pub wrapped-Stays :
      {A : Type 0} (env : CommandEnv) (d' : Device) (x : Call A)
      → SameDevice d d'
      → KeepsPeer d.session x
      → Stays d (wrapped options env d' x)
  wrapped-Stays env d' (s, ok a) v w =
      stays d _ (ok a) (alike d d' (record d' { session = s }) v refl refl refl w.peer)
  wrapped-Stays env d' (s, err e) v w =
      stays d _ (err _) (alike d d' (record d' { session = s }) v refl refl refl w.peer)
  wrapped-Stays env d' (s, fault) v w =
      stays d _ fault (alike d d' (record d' { session = s }) v refl refl refl w.peer)

  mode_acknowledged-Stays :
      (env : CommandEnv) (target : ℕ) (d' : Device)
      → SameDevice d d'
      → Stays d (mode_acknowledged options env target d')
  unfolding mode_acknowledged
  mode_acknowledged-Stays env target d' v = elim (Bool-cases (ltb_ℤ (pos 0) options.wait_timeout)) [
    | inl waits ↦ rw waits (
        wrapped-Stays env _ _ (alike d d' _ v refl refl refl v.same_session)
          (wait_for_state-KeepsPeer d.session target env.polls d'.session v.same_session))
    | inr goes ↦ rw goes (stays d _ _ (alike d d' _ v refl refl refl v.same_session))
  ]

  pub set_mode_locked-Stays :
      (env : CommandEnv) (target : ℕ) (d' : Device)
      → SameDevice d d'
      → Stays d (set_mode_locked options env target d')
  unfolding set_mode_locked
  set_mode_locked-Stays env target d' v =
      then_do-Stays d _ _
        (wrapped-Stays env d' _ v
          (configure-KeepsPeer d.session env.opts env.request d'.session _ v.same_session))
        (λ d'' ack w. mode_acknowledged-Stays env target d'' w)
