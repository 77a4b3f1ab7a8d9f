-- ===== src/Session/Request/Outcome.antt =====
-- How a request ends, whatever the sockets, the clock and other threads do.
use mathlib.Core.List.{append_assoc, append-nil}
use livox_mid360_core.Prelude.{
  ℕ, zero, suc, ◌+◌, ◌-◌, ◌≤◌, ◌<◌, ◌≡◌, refl, sym, ap, ◌⊎◌, inl, inr, List, [], ◌∷◌, ◌++◌, length,
  replicate, Option, some, Option-cases, Bool-cases, true, Result, ok, err, arith, ltb,
}
use livox_mid360_core.Prelude.Int.{pos}
use livox_mid360_core.Protocol.CommandFrame.Encode.{
  frame_wire, build_command_frame_lem, build_command_frame_too_large,
}
use livox_mid360_core.Transport.{message_too_long, TransportError, Endpoint}
use livox_mid360_core.Session.Types.{
  SessionError, error_of, transport_error, cancelled, timeout, SessionStats, count_up, RawAck,
}
use livox_mid360_core.Session.Request.{
  Wait, Attempt, Session, Call, try_once, attempts_from, count_retry, request, request_spec,
  seq_after, begin_request, attempts_of, send_frame, go_on, retry_stats,
}
use livox_mid360_core.Session.Request.Answers.{Any, IsAnswer}
use livox_mid360_core.Session.Request.Waits.{
  heard, IsFailure, IsStop, Awaited, expired, heard_answer, wait_error, stopped_waiting,
  await_ack_lem,
}

module _ (seq cmd_id : ℕ) (ip : List ℕ) (total : ℕ) (env : ℕ → Attempt) where
  -- How a request for `total` attempts ends after `k` frames were sent. An answer, a failed wait or a
  -- cancellation while waiting is that of the last attempt; before an attempt, it is of the next one.
  pub data Outcome : ℕ → Result SessionError RawAck → Type 0 where
    answered :
        (k : ℕ) (a : RawAck)
        → 0 < k
        → k ≤ total
        → Any (IsAnswer seq cmd_id ip a) (heard (env k).waits)
        → Outcome k (ok a)
    timed_out : Outcome total (err (error_of timeout cmd_id total))
    stopped_before :
        (k : ℕ)
        → k < total
        → (env (suc k)).stopped ≡ true
        → Outcome k (err (error_of cancelled cmd_id k))
    stopped_while :
        (k : ℕ)
        → 0 < k
        → k ≤ total
        → Any IsStop (env k).waits
        → Outcome k (err (error_of cancelled cmd_id k))
    not_sent :
        (k : ℕ) (e : TransportError)
        → k < total
        → (env (suc k)).send_failed ≡ some e
        → Outcome k (err (transport_error e cmd_id (suc k)))
    not_heard :
        (k : ℕ) (e : TransportError)
        → 0 < k
        → k ≤ total
        → Any (IsFailure e) (env k).waits
        → Outcome k (err (transport_error e cmd_id k))

-- The session after `j` more sends of the frame, with other counters.
abbrev pub after_sends : List ℕ → ℕ → SessionStats → Session → Session
after_sends frame j stats s = record s {
  stats = stats;
  sent = s.sent ++ replicate j (frame, s.lidar);
}

no_sends : (frame : List ℕ) (s : Session) → after_sends frame 0 s.stats s ≡ s
no_sends frame s = ap (λ l. record s { sent = l }) (append-nil s.sent)

-- Nothing was sent.
stop_here :
    {A : Type 0} (frame : List ℕ) (stats : SessionStats) (s : Session) (r : A)
    → ◌≡◌ {A = Session × A} (record s { stats = stats }, r) (after_sends frame 0 stats s, r)
stop_here frame stats s r =
    ap (λ (l : List (List ℕ × Endpoint)). (record s { stats = stats; sent = l }, r))
      (sym (append-nil s.sent))

-- A send that is followed by `j` others.
send_then :
    (frame : List ℕ) (j : ℕ) (stats : SessionStats) (s : Session)
    → after_sends frame j stats (send_frame frame s) ≡ after_sends frame (suc j) stats s
send_then frame j stats s =
    ap (λ (l : List (List ℕ × Endpoint)). record s { stats = stats; sent = l })
      (append_assoc s.sent ((frame, s.lidar) ∷ []) (replicate j (frame, s.lidar)))

module _ (seq cmd_id : ℕ) (frame : List ℕ) (total : ℕ) (env : ℕ → Attempt) where
  -- `k` frames were sent before, and `c` is what the code does from then on.
  Ends : ℕ → Session → Call RawAck → Type 0
  Ends k s c =
      (stats : SessionStats) × (j : ℕ) × (r : Result SessionError RawAck) × (c
        ≡ (after_sends frame j stats s, r))
      × Outcome seq cmd_id s.lidar.ip total env (k + j) r

  Ends-now :
      (k : ℕ) (stats : SessionStats) (s : Session) (r : Result SessionError RawAck)
      → Outcome seq cmd_id s.lidar.ip total env k r
      → Ends k s (record s { stats = stats }, r)
  unfolding Ends
  Ends-now k stats s r h =
      let none_more : k + 0 ≡ k = omega arith in
      (stats, 0, r, stop_here frame stats s r, rw none_more h)

  -- One send, and then what was given.
  Ends-sent :
      (k : ℕ) (s : Session) (c : Call RawAck) → Ends (suc k) (send_frame frame s) c → Ends k s c
  unfolding Ends
  Ends-sent k s c (stats, j, r, e, h) =
      let count : suc k + j ≡ k + suc j = omega arith in
      (stats, suc j, r, rw (← send_then frame j stats s) e, rw (← count) h)

  Ends-Awaited :
      (k : ℕ) (s : Session) (stats : SessionStats) (ws : List Wait)
      (r : Result SessionError (Option RawAck)) (rest : Session → Call RawAck)
      → suc k ≤ total
      → ws ≡ (env (suc k)).waits
      → Awaited seq cmd_id (suc k) s.lidar.ip ws r
      → ((stats' : SessionStats) → Ends (suc k) s (rest (record s { stats = stats' })))
      → Ends (suc k) s (go_on (λ a. a) (record s { stats = stats }, r) rest)
  Ends-Awaited k s stats ws r rest room same expired go = go stats
  Ends-Awaited k s stats ws r rest room same (heard_answer a h) go =
      Ends-now (suc k) stats s (ok a) (answered (suc k) a (omega arith) room (rw (← same) h))
  Ends-Awaited k s stats ws r rest room same (wait_error e h) go =
      Ends-now (suc k) stats s (err _) (not_heard (suc k) e (omega arith) room (rw (← same) h))
  Ends-Awaited k s stats ws r rest room same (stopped_waiting h) go =
      Ends-now (suc k) stats s (err _) (stopped_while (suc k) (omega arith) room (rw (← same) h))

  attempts_from-Ends :
      (m k : ℕ) (s : Session)
      → total ≡ k + m
      → Ends k s (attempts_from seq cmd_id frame m (suc k) env s)
  unfolding attempts_from try_once Ends
  attempts_from-Ends zero k s e =
      let stats = record s.stats { timeouts = count_up s.stats.timeouts } in
      let last : total ≡ k = omega arith in
      let back : suc k - 1 ≡ k = omega arith in
      rw (attempts_from, back)
        (Ends-now k stats s (err (error_of timeout cmd_id k)) (rw (← last) timed_out))
  attempts_from-Ends (suc m) k s e = elim (Bool-cases (env (suc k)).stopped) [
    | inl stop ↦
        let back : suc k - 1 ≡ k = omega arith in
        rw (attempts_from, try_once, stop, back)
          (Ends-now k s.stats s (err (error_of cancelled cmd_id k))
            (stopped_before k (omega arith) stop))
    | inr free ↦ elim (Option-cases (env (suc k)).send_failed) [
      | inr (x, failed) ↦
          rw (attempts_from, try_once, free, failed)
            (Ends-now k (retry_stats (suc k) s.stats) s (err (transport_error x cmd_id (suc k)))
              (not_sent k x (omega arith) failed))
      | inl fine ↦
          let start = send_frame frame (count_retry (suc k) s) in
          let (stats, r, e', h) = await_ack_lem seq cmd_id (suc k) (env (suc k)).waits start in
          rw (attempts_from, try_once, free, fine, e')
            (Ends-sent k s _ (
              Ends-Awaited k (send_frame frame s) stats (env (suc k)).waits r _ (omega arith) refl h
                (λ stats'.
                  attempts_from-Ends m (suc k) (record (send_frame frame s) { stats = stats' })
                    (omega arith))))
    ]
  ]

abbrev pub too_long : ℕ → SessionError
too_long cmd_id = transport_error (record { code = message_too_long; errno_value = pos 0 }) cmd_id 0

-- How a request leaves the session, how often its frame went out, and what it returned.
abbrev pub RequestEnds : ℕ → List ℕ → Option ℕ → (ℕ → Attempt) → Session → Type 0
RequestEnds cmd_id payload opts env s =
    (stats : SessionStats) × (k : ℕ) × (r : Result SessionError RawAck) × (request cmd_id payload
        opts env s
      ≡ (
        record s {
          next_seq = seq_after s.next_seq;
          stats = stats;
          sent =
              s.sent ++ replicate k (frame_wire (request_spec s.next_seq cmd_id payload), s.lidar);
        },
        r,
      ))
    × (((1376 < length payload) × (k ≡ 0) × (r ≡ err (too_long cmd_id)))
        ⊎ ((length payload ≤ 1376)
            × Outcome s.next_seq cmd_id s.lidar.ip (attempts_of opts s) env k r))

-- Whatever the sockets, the clock and other threads do, a request ends without a fault. Data above
-- 1376 bytes is refused and nothing is sent. Otherwise the one frame of the request goes `k` times to
-- the LiDAR, at most once per attempt, and the result is one of `Outcome`: an acknowledgement is the
-- data of a valid frame from the LiDAR, with this number and command, read in the last attempt; a
-- timeout comes after all attempts; every other error has its cause. The next request has the next
-- number.
pub request_outcome :
    (cmd_id : ℕ) (payload : List ℕ) (opts : Option ℕ) (env : ℕ → Attempt) (s : Session)
    → RequestEnds cmd_id payload opts env s
unfolding request Ends
request_outcome cmd_id payload opts env s = elim (Bool-cases (ltb 1376 (length payload))) [
  | inl long ↦
      let stats = (begin_request s).stats in
      let over : 1376 < length payload = ground arith in
      (
        stats,
        0,
        err (too_long cmd_id),
        rw (request, build_command_frame_too_large (request_spec s.next_seq cmd_id payload) over)
            (stop_here [] stats (begin_request s) (err (too_long cmd_id))),
        inl (over, refl, refl),
      )
  | inr short ↦
      let fits : length payload ≤ 1376 = ground arith in
      let spec = request_spec s.next_seq cmd_id payload in
      let (stats, k, r, e, h) =
        attempts_from-Ends s.next_seq cmd_id (frame_wire spec) (attempts_of opts s) env
          (attempts_of opts s) 0 (begin_request s) (omega arith) in
      let from_none : k ≡ 0 + k = omega arith in
      (stats, k, r, rw (request, build_command_frame_lem spec fits) e, inr (fits, rw from_none h))
]
