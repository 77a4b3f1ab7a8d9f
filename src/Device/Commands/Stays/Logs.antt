-- ===== src/Device/Commands/Stays/Logs.antt =====
-- What the commands on the log port leave alone.
use livox_mid360_core.Prelude.{
  ℕ, zero, suc, ◌==◌, refl, Bool, Bool-cases, Option-cases, true, false, inl, inr, if◌then◌else◌,
  List, [], ◌∷◌, Option, Result, ok, err, fault,
}
use livox_mid360_core.Keys.Values.{encode_host_ip_config}
use livox_mid360_core.Protocol.Types.{EncodeError}
use livox_mid360_core.Config.{no_address}
use livox_mid360_core.Transport.{Endpoint, same_bytes}
use livox_mid360_core.Session.Types.{SessionError}
use livox_mid360_core.Session.Request.{Call}
use livox_mid360_core.Session.Peer.{KeepsPeer, configure-KeepsPeer}
use livox_mid360_core.DebugData.{DebugDataControlRequest, encode_debug_data_control}
use livox_mid360_core.Keys.{key_log_host_ip_cfg}
use livox_mid360_core.Session.Commands
use livox_mid360_core.Event.{DeviceError}
use livox_mid360_core.Device.Log.{LogState}
use livox_mid360_core.Device.Commands.{CommandOptions, Device, DeviceCall}
use livox_mid360_core.Device.Commands.LogControl.{
  LogAttempt, LogCall, lidar_log_source_port, judge_log, send_log_frame, expect_ack, next_log_seq,
  hear, try_log, or_next, log_attempts, log_frame, send_log_control, log_wrapped,
}
use livox_mid360_core.Device.Commands.Logging.{
  LogEnv, host_address, log_key_unsupported, log_host_written, request_log, write_log_host,
  log_control_locked, debug_data_target, port_or_zero, debug_data_control_locked,
}
use livox_mid360_core.Device.Commands.Stays.{SameDevice, Stays, stays, alike, then_do-Stays}

or_next-Stays :
    (d : Device) (x : LogCall Bool) (k : Device → LogCall (Unit {0}))
    → Stays d x
    → ((d' : Device) → SameDevice d d' → Stays d (k d'))
    → Stays d (or_next x k)
or_next-Stays d (d', ok true) k v w = stays d d' (ok tt) v.device
or_next-Stays d (d', ok false) k v w = w d' v.device
or_next-Stays d (d', err e) k v w = stays d d' (err e) v.device
or_next-Stays d (d', fault) k v w = stays d d' fault v.device

log_wrapped-Stays : (d : Device) (x : LogCall (Unit {0})) → Stays d x → Stays d (log_wrapped x)
log_wrapped-Stays d (d', ok a) v = stays d d' (ok a) v.device
log_wrapped-Stays d (d', err e) v = stays d d' (err _) v.device
log_wrapped-Stays d (d', fault) v = stays d d' fault v.device

module _ (d : Device) (cmd : ℕ) (frame : List ℕ) (to : Endpoint) where
  try_log-Stays :
      (n : ℕ) (a : LogAttempt) (d' : Device)
      → SameDevice d d'
      → Stays d (try_log cmd frame to n a d')
  unfolding try_log
  try_log-Stays n a d' v = elim (Bool-cases a.stopped) [
    | inl stop ↦ rw stop (stays d d' _ v)
    | inr runs ↦ elim (Option-cases a.send_failed) [
      | inr (e, failed) ↦ rw (runs, failed) (stays d d' _ v)
      | inl sent ↦ rw (runs, sent) (listened (hear a.heard d'.log))
    ]
  ]
    where
      listened :
          (x : Result (Unit {0}) LogState)
          → Stays {E = SessionError} d (elim x as (λ _. LogCall Bool) [
            | ok l ↦
                (record (send_log_frame frame to d') { log = l }, judge_log cmd n a.interrupted l)
            | err e ↦ (d', fault)
            | fault ↦ (d', fault)
          ])
      listened (ok l) = stays d _ _ (alike d d' _ v refl refl refl v.same_session)
      listened (err e) = stays d d' _ v
      listened fault = stays d d' _ v

  log_attempts-Stays :
      (most : ℕ) (env : ℕ → LogAttempt) (n attempt : ℕ) (d' : Device)
      → SameDevice d d'
      → Stays d (log_attempts cmd frame to most env n attempt d')
  unfolding log_attempts
  log_attempts-Stays most env zero attempt d' v = stays d d' _ v
  log_attempts-Stays most env (suc n) attempt d' v =
      or_next-Stays d _ _ (try_log-Stays attempt (env attempt) d' v)
        (λ d'' w. log_attempts-Stays most env n (suc attempt) d'' w)

module _ (d : Device) where
  send_log_control-Stays :
      (cmd : ℕ) (payload : List ℕ) (port most : ℕ) (env : ℕ → LogAttempt) (d' : Device)
      → SameDevice d d'
      → Stays d (send_log_control cmd payload port most env d')
  unfolding send_log_control
  send_log_control-Stays cmd payload port most env d' v =
      framed (log_frame cmd d'.log_next_seq payload)
    where
      begun : Device
      begun = record d' {
        log_next_seq = next_log_seq d'.log_next_seq;
        log = expect_ack cmd d'.log_next_seq d'.log;
      }

      begins : SameDevice d begun
      begins = alike d d' begun v refl refl refl v.same_session

      framed :
          (x : Result EncodeError (List ℕ))
          → Stays {E = SessionError} d (elim x as (λ _. LogCall (Unit {0})) [
            | ok frame ↦
                log_attempts cmd frame
                  (record { ip = d'.info.ip; port = port })
                  most
                  env
                  most
                  1
                  begun
            | err e ↦ (begun, fault)
            | fault ↦ (begun, fault)
          ])
      framed (ok frame) = log_attempts-Stays d cmd frame _ most env most 1 begun begins
      framed (err e) = stays d begun _ begins
      framed fault = stays d begun _ begins

  log_host_written-Stays :
      {A : Type 0} (d' : Device) (x : Call A)
      → SameDevice d d'
      → KeepsPeer d.session x
      → Stays d (log_host_written d' x)
  log_host_written-Stays d' (s, ok a) v w =
      stays d _ (ok _) (alike d d' (record d' { session = s }) v refl refl refl w.peer)
  log_host_written-Stays d' (s, err e) v w = elim (Bool-cases (log_key_unsupported e)) [
    | inl old ↦
        rw old (stays d _ _ (alike d d' (record d' { session = s }) v refl refl refl w.peer))
    | inr bad ↦
        rw bad (stays d _ _ (alike d d' (record d' { session = s }) v refl refl refl w.peer))
  ]
  log_host_written-Stays d' (s, fault) v w =
      stays d _ fault (alike d d' (record d' { session = s }) v refl refl refl w.peer)

  request_log-SameDevice :
      (log_type : ℕ) (enable : Bool) (d' : Device)
      → SameDevice d d'
      → SameDevice d (request_log log_type enable d')
  request_log-SameDevice log_type enable d' v = elim (Bool-cases (log_type == 0)) [
    | inl zeroth ↦ rw zeroth (alike d d' _ v refl refl refl v.same_session)
    | inr other ↦ elim (Bool-cases (log_type == 1)) [
      | inl first ↦ rw (other, first) (alike d d' _ v refl refl refl v.same_session)
      | inr none_of ↦ rw (other, none_of) v
    ]
  ]

module _ (options : CommandOptions) (opts : Option ℕ) (env : LogEnv) (d : Device) where
  write_log_host-Stays :
      (d' : Device) → SameDevice d d' → Stays d (write_log_host options opts env d')
  unfolding write_log_host
  write_log_host-Stays d' v = elim (Bool-cases (same_bytes (host_address options d') no_address)) [
    | inl missing ↦ rw missing (stays d d' _ v)
    | inr given ↦ rw given (
        written (
          encode_host_ip_config (record {
            ip = host_address options d';
            dst_port = options.log_port;
            src_port = lidar_log_source_port;
          })))
  ]
    where
      written :
          (x : Result SessionError (List ℕ))
          → Stays {E = DeviceError} d (elim x as (λ _. DeviceCall (Unit {0})) [
            | ok value ↦ log_host_written d' (
                Commands.configure opts env.write d'.session
                  (record { key = key_log_host_ip_cfg; value = value } ∷ []))
            | err e ↦ (d', fault)
            | fault ↦ (d', fault)
          ])
      written (ok value) =
          log_host_written-Stays d d' _ v
            (configure-KeepsPeer d.session opts env.write d'.session _ v.same_session)
      written (err e) = stays d d' _ v
      written fault = stays d d' _ v

  pub log_control_locked-Stays :
      (log_type : ℕ) (enable : Bool) (d' : Device)
      → SameDevice d d'
      → Stays d (log_control_locked options opts env log_type enable d')
  unfolding log_control_locked
  log_control_locked-Stays log_type enable d' v = then_do-Stays d _ _ (host enable) (λ d'' x w.
      then_do-Stays d _ _
        (log_wrapped-Stays d _ (send_log_control-Stays d _ _ _ _ env.attempts d'' w))
        (λ d3 y u. stays d _ _ (request_log-SameDevice d log_type enable d3 u)))
    where
      host :
          (b : Bool)
          → Stays {E = DeviceError} {A = Unit {0}} d
              (if b then write_log_host options opts env d' else (d', ok tt))
      host true = write_log_host-Stays d' v
      host false = stays d d' _ v

  abbrev debug_data_request : Bool → List ℕ → DebugDataControlRequest
  debug_data_request enable ip = record {
    enable = enable;
    host_ip = ip;
    host_port = port_or_zero options opts env options.debug_data_port;
    reserved = 0;
  }

  pub debug_data_control_locked-Stays :
      (enable : Bool) (d' : Device)
      → SameDevice d d'
      → Stays d (debug_data_control_locked options opts env enable d')
  unfolding debug_data_control_locked
  debug_data_control_locked-Stays enable d' v =
      then_do-Stays d (d', debug_data_target options opts env enable d') _ (stays d d' _ v)
        (λ d2 ip w.
          then_do-Stays d (d2, encode_debug_data_control (debug_data_request enable ip)) _
            (stays d d2 _ w)
            (λ d3 payload u.
              then_do-Stays d _ _
                (log_wrapped-Stays d _ (send_log_control-Stays d _ _ _ _ env.attempts d3 u))
                (λ d4 y t. stays d _ _ (alike d d4 _ t refl refl refl t.same_session))))
