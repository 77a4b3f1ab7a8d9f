-- ===== src/Session/Peer.antt =====
-- src/session.cpp: which LiDAR a session is with.
use livox_mid360_core.Prelude.{
  ℕ, ◌==◌, ◌≡◌, refl, Bool, Bool-cases, true, false, inl, inr, List, [], ◌∷◌, Option, Option-cases,
  none, some, Result, ok, err, fault,
}
use livox_mid360_core.Prelude.Int.{ℤ, pos, ltb_ℤ}
use livox_mid360_core.Protocol.Types.{KeyValue, cmd_param_config, cmd_param_inquire}
use livox_mid360_core.Keys.{key_cur_work_state}
use livox_mid360_core.Protocol.KeyValues.{encode_param_config_request, encode_param_inquire_request}
use livox_mid360_core.Transport.{Datagram, same_bytes}
use livox_mid360_core.Session.Types.{SessionError}
use livox_mid360_core.Session.Request.{wait_failed, woke, Attempt, Session, Call, request}
use livox_mid360_core.Session.Request.Outcome.{request_outcome}
use livox_mid360_core.Session.Commands.{and_then, configure, inquire, work_state}
use livox_mid360_core.Session.Connect.{
  Polls, last_poll, next_poll, count_strays, judge_state, wait_for_state, is_stuck,
}
use livox_mid360_core.Config.{
  SetupCalls, HostSetup, request_mode, write_setup, apply_host_setup, host_setup_key_values,
  address_or, no_address, is_requestable_opt, fov_out_of_range, needs_reboot,
}

-- The same LiDAR: its address and the serial number that was read.
pub record SamePeer (s s' : Session) : Type 0 where
  pub same_lidar : s'.lidar ≡ s.lidar
  pub same_serial : s'.serial ≡ s.serial

abbrev pub same_peer : (s : Session) → SamePeer s s
same_peer s = record { same_lidar = refl; same_serial = refl }

-- A call that keeps the LiDAR.
pub record KeepsPeer {ℓ} {A : Type ℓ} (s : Session) (x : Call A) : Type 0 where
  pub peer : SamePeer s x.0

keeps {ℓ} :
    {A : Type ℓ} (s s' : Session) (r : Result SessionError A) → SamePeer s s' → KeepsPeer s (s', r)
keeps s s' r v = record { peer = v }

and_then-KeepsPeer {ℓ κ} :
    {A : Type ℓ} {B : Type κ} (s : Session) (x : Call A) (k : Session → A → Call B)
    → KeepsPeer s x
    → ((s' : Session) (a : A) → SamePeer s s' → KeepsPeer s (k s' a))
    → KeepsPeer s (and_then x k)
and_then-KeepsPeer s (s', ok a) k v w = w s' a v.peer
and_then-KeepsPeer s (s', err e) k v w = keeps s s' (err e) v.peer
and_then-KeepsPeer s (s', fault) k v w = keeps s s' fault v.peer

module _ (b : Session) where
  request-KeepsPeer :
      (cmd_id : ℕ) (payload : List ℕ) (opts : Option ℕ) (env : ℕ → Attempt) (s : Session)
      → SamePeer b s
      → KeepsPeer b (request cmd_id payload opts env s)
  request-KeepsPeer cmd_id payload opts env s v =
      let (stats, k, r, e, h) = request_outcome cmd_id payload opts env s in
      rw e (keeps b _ r (record { same_lidar = v.same_lidar; same_serial = v.same_serial }))

  pub configure-KeepsPeer :
      (opts : Option ℕ) (env : ℕ → Attempt) (s : Session) (kvs : List KeyValue)
      → SamePeer b s
      → KeepsPeer b (configure opts env s kvs)
  unfolding configure
  configure-KeepsPeer opts env s kvs v =
      and_then-KeepsPeer b (s, encode_param_config_request kvs) _ (keeps b s _ v)
        (λ s' payload w.
          and_then-KeepsPeer b _ _ (request-KeepsPeer cmd_param_config payload opts env s' w)
            (λ s'' a u. keeps b s'' _ u))

  pub inquire-KeepsPeer :
      (opts : Option ℕ) (env : ℕ → Attempt) (s : Session) (keys : List ℕ)
      → SamePeer b s
      → KeepsPeer b (inquire opts env s keys)
  unfolding inquire
  inquire-KeepsPeer opts env s keys v =
      and_then-KeepsPeer b (s, encode_param_inquire_request keys) _ (keeps b s _ v)
        (λ s' payload w.
          and_then-KeepsPeer b _ _ (request-KeepsPeer cmd_param_inquire payload opts env s' w)
            (λ s'' a u. keeps b s'' _ u))

  work_state-KeepsPeer :
      (env : ℕ → Attempt) (s : Session) → SamePeer b s → KeepsPeer b (work_state none env s)
  unfolding work_state
  work_state-KeepsPeer env s v =
      and_then-KeepsPeer b _ _ (inquire-KeepsPeer none env s (key_cur_work_state ∷ []) v)
        (λ s' r w. keeps b s' _ w)

  count_strays-SamePeer :
      (ds : List Datagram) (s : Session) → SamePeer b s → SamePeer b (count_strays ds s)
  unfolding count_strays
  count_strays-SamePeer [] s v = v
  count_strays-SamePeer (d ∷ ds) s v =
      count_strays-SamePeer ds _ (record { same_lidar = v.same_lidar; same_serial = v.same_serial })

  judge_state-KeepsPeer :
      (target ws : ℕ) (s : Session) (rest : Call (Unit {0}))
      → SamePeer b s
      → KeepsPeer b rest
      → KeepsPeer b (judge_state target ws s rest)
  judge_state-KeepsPeer target ws s rest v w = elim (Bool-cases (ws == target)) [
    | inl there ↦ rw there (keeps b s _ v)
    | inr other ↦ elim (Bool-cases (is_stuck ws)) [
      | inl stuck ↦ rw (other, stuck) (keeps b s _ v)
      | inr goes ↦ rw (other, goes) w
    ]
  ]

  pub wait_for_state-KeepsPeer :
      (target : ℕ) (polls : Polls) (s : Session)
      → SamePeer b s
      → KeepsPeer b (wait_for_state target polls s)
  unfolding wait_for_state
  wait_for_state-KeepsPeer target (last_poll env) s v =
      and_then-KeepsPeer b _ _ (work_state-KeepsPeer env s v)
        (λ s' ws w. judge_state-KeepsPeer target ws s' _ w (keeps b s' _ w))
  wait_for_state-KeepsPeer target (next_poll env (wait_failed e) rest) s v =
      and_then-KeepsPeer b _ _ (work_state-KeepsPeer env s v)
        (λ s' ws w. judge_state-KeepsPeer target ws s' _ w (keeps b s' _ w))
  wait_for_state-KeepsPeer target (next_poll env (woke true ds) rest) s v =
      and_then-KeepsPeer b _ _ (work_state-KeepsPeer env s v)
        (λ s' ws w. judge_state-KeepsPeer target ws s' _ w (keeps b s' _ w))
  wait_for_state-KeepsPeer target (next_poll env (woke false ds) rest) s v =
      and_then-KeepsPeer b _ _ (work_state-KeepsPeer env s v) (λ s' ws w.
        judge_state-KeepsPeer target ws s' _ w
          (wait_for_state-KeepsPeer target rest _ (count_strays-SamePeer ds s' w)))

module _ (b : Session) (calls : SetupCalls) (opts : Option ℕ) where
  request_mode-KeepsPeer :
      (mode : Option ℕ) (wait : ℤ) (reboot : Bool) (s : Session)
      → SamePeer b s
      → KeepsPeer b (request_mode calls opts mode wait reboot s)
  unfolding request_mode
  request_mode-KeepsPeer none wait reboot s v = keeps b s _ v
  request_mode-KeepsPeer (some mode) wait reboot s v =
      and_then-KeepsPeer b _ _ (configure-KeepsPeer b opts calls.mode s _ v) (λ s' ack w.
        elim (Bool-cases (ltb_ℤ (pos 0) wait)) [
          | inl waits ↦ rw waits (
              and_then-KeepsPeer b _ _ (wait_for_state-KeepsPeer b mode calls.polls s' w)
                (λ s'' x u. keeps b s'' _ u))
          | inr goes ↦ rw goes (keeps b s' _ w)
        ])

  write_setup-KeepsPeer :
      (setup : HostSetup) (ip : List ℕ) (s : Session)
      → SamePeer b s
      → KeepsPeer b (write_setup calls opts setup ip s)
  unfolding write_setup
  write_setup-KeepsPeer setup ip s v =
      and_then-KeepsPeer b (s, host_setup_key_values setup ip) _ (keeps b s _ v)
        (λ s' kvs w.
          and_then-KeepsPeer b _ _ (configure-KeepsPeer b opts calls.writes s' kvs w) (λ s'' ack u.
            request_mode-KeepsPeer setup.work_tgt_mode setup.wait_timeout (needs_reboot ack) s'' u))

  pub apply_host_setup-KeepsPeer :
      (local_ip : List ℕ) (setup : HostSetup) (s : Session)
      → SamePeer b s
      → KeepsPeer b (apply_host_setup calls opts local_ip setup s)
  unfolding apply_host_setup
  apply_host_setup-KeepsPeer local_ip setup s v =
      elim (Bool-cases (same_bytes (address_or local_ip setup.ip) no_address)) [
        | inl missing ↦ rw missing (keeps b s _ v)
        | inr given ↦ elim (Bool-cases (is_requestable_opt setup.work_tgt_mode)) [
          | inr refused ↦ rw (given, refused) (keeps b s _ v)
          | inl fine ↦ elim (Option-cases (fov_out_of_range setup.fov)) [
            | inr (bad, out) ↦ rw (given, fine, out) (keeps b s _ v)
            | inl in_range ↦
                rw (given, fine, in_range)
                  (write_setup-KeepsPeer setup (address_or local_ip setup.ip) s v)
          ]
        ]
      ]
