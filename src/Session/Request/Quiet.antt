-- ===== src/Session/Request/Quiet.antt =====
-- What a request returns when no call fails and nothing cancels it.
use livox_mid360_core.Prelude.{
  ℕ, zero, suc, ◌+◌, ◌-◌, ◌≤◌, ◌<◌, ◌≡◌, refl, ap, ◌∙◌, inl, inr, List, [], ◌∷◌, ◌++◌, length,
  Option, none, some, Option-cases, false, Result, ok, err, arith,
}
use livox_mid360_core.Bytes.{All}
use livox_mid360_core.Protocol.CommandFrame.Encode.{frame_wire, build_command_frame_lem}
use livox_mid360_core.Transport.{Datagram}
use livox_mid360_core.Session.Types.{SessionError, error_of, timeout, SessionStats, RawAck}
use livox_mid360_core.Session.Request.{
  Wait, wait_failed, woke, Attempt, Session, await_ack, try_once, attempts_from, count_retry,
  send_frame, request, request_spec, begin_request, attempts_of,
}
use livox_mid360_core.Session.Request.Answers.{
  Any, IsAnswer, first_answer, IsFirst, first_answer-IsFirst, first_answer-append,
  IsAnswer-first_answer, read_datagrams_lem,
}
use livox_mid360_core.Session.Request.Waits.{heard}

abbrev pub IsQuietWait : Wait → Type 0
IsQuietWait (wait_failed e) = ⊥
IsQuietWait (woke stop ds) = stop ≡ false

-- Nothing fails and nothing cancels.
pub record IsQuiet (a : Attempt) : Type 0 where
  pub running : a.stopped ≡ false
  pub sends : a.send_failed ≡ none
  pub waits : All IsQuietWait a.waits

-- What can be read in the `n` attempts after the `k`th, in order.
abbrev pub heard_in : ℕ → ℕ → (ℕ → Attempt) → List Datagram
heard_in zero k env = []
heard_in (suc n) k env = heard (env (suc k)).waits ++ heard_in n (suc k) env

await_ack_quiet :
    (seq cmd_id attempt : ℕ) (ws : List Wait) (s : Session)
    → All IsQuietWait ws
    → (stats : SessionStats) × (await_ack seq cmd_id attempt ws s
        ≡ (record s { stats = stats }, ok (first_answer seq cmd_id s.lidar.ip (heard ws))))
unfolding await_ack
await_ack_quiet seq cmd_id attempt [] s q = (s.stats, refl)
await_ack_quiet seq cmd_id attempt (wait_failed e ∷ ws) s (q, qs) = elim q [ ]
await_ack_quiet seq cmd_id attempt (woke stop ds ∷ ws) s (q, qs) =
    let ip = s.lidar.ip in
    let (stats, e) = read_datagrams_lem seq cmd_id ds s in
    let joined = first_answer-append seq cmd_id ip ds (heard ws) in
    elim (Option-cases (first_answer seq cmd_id ip ds)) [
      | inl nothing ↦
          let (stats', e') =
            await_ack_quiet seq cmd_id attempt ws (record s { stats = stats }) qs in
          (stats', rw (q, joined, e, nothing) e')
      | inr (a, found) ↦ (stats, rw (q, joined, e, found) refl)
    ]

-- The result that the datagrams read call for.
abbrev pub answer_or_timeout : ℕ → ℕ → Option RawAck → Result SessionError RawAck
answer_or_timeout cmd_id attempts (some a) = ok a
answer_or_timeout cmd_id attempts none = err (error_of timeout cmd_id attempts)

attempts_from_quiet :
    (seq cmd_id : ℕ) (frame : List ℕ) (env : ℕ → Attempt) (n k : ℕ) (s : Session)
    → ((i : ℕ) → k < i → i ≤ k + n → IsQuiet (env i))
    → (attempts_from seq cmd_id frame n (suc k) env s).1
      ≡ answer_or_timeout cmd_id (k + n) (first_answer seq cmd_id s.lidar.ip (heard_in n k env))
unfolding attempts_from try_once
attempts_from_quiet seq cmd_id frame env zero k s q =
    let last : k + 0 ≡ suc k - 1 = omega arith in rw (attempts_from, last) refl
attempts_from_quiet seq cmd_id frame env (suc n) k s q =
    let ip = s.lidar.ip in
    let now = q (suc k) (omega arith) (omega arith) in
    let start = send_frame frame (count_retry (suc k) s) in
    let (stats, e) = await_ack_quiet seq cmd_id (suc k) (env (suc k)).waits start now.waits in
    let count : k + suc n ≡ suc k + n = omega arith in
    let joined =
      first_answer-append seq cmd_id ip (heard (env (suc k)).waits) (heard_in n (suc k) env) in
    let rest =
      attempts_from_quiet seq cmd_id frame env n (suc k) (record start { stats = stats })
        (λ i a b. q i (omega arith) (omega arith)) in
    elim (Option-cases (first_answer seq cmd_id ip (heard (env (suc k)).waits))) [
      | inl nothing ↦
          rw (attempts_from, heard_in, try_once, now.running, now.sends, joined, e, nothing, count)
            rest
      | inr (a, found) ↦
          rw (attempts_from, heard_in, try_once, now.running, now.sends, joined, e, found) refl
    ]

pub request-first_answer :
    (cmd_id : ℕ) (payload : List ℕ) (opts : Option ℕ) (env : ℕ → Attempt) (s : Session)
    → length payload ≤ 1376
    → ((i : ℕ) → 0 < i → i ≤ attempts_of opts s → IsQuiet (env i))
    → (request cmd_id payload opts env s).1
      ≡ answer_or_timeout cmd_id
          (attempts_of opts s)
          (first_answer s.next_seq cmd_id s.lidar.ip (heard_in (attempts_of opts s) 0 env))
unfolding request
request-first_answer cmd_id payload opts env s small q =
    let n = attempts_of opts s in
    let spec = request_spec s.next_seq cmd_id payload in
    let from_none : 0 + n ≡ n = omega arith in
    rw (request, build_command_frame_lem spec small)
      (attempts_from_quiet s.next_seq cmd_id (frame_wire spec) env n 0 (begin_request s)
          (λ i a b. q i a (omega arith))
        ∙ ap
            (λ m.
              answer_or_timeout cmd_id m
                (first_answer s.next_seq cmd_id s.lidar.ip (heard_in n 0 env)))
            from_none)

-- When no attempt fails or is cancelled, a request with data of at most 1376 bytes returns the first
-- acknowledgement of it among all that is read in its attempts: the first valid frame from the LiDAR
-- with its command and number. It returns a timeout when there is none.
pub request_quiet :
    (cmd_id : ℕ) (payload : List ℕ) (opts : Option ℕ) (env : ℕ → Attempt) (s : Session)
    → length payload ≤ 1376
    → ((i : ℕ) → 0 < i → i ≤ attempts_of opts s → IsQuiet (env i))
    → (r : Option RawAck) × IsFirst s.next_seq cmd_id s.lidar.ip
        (heard_in (attempts_of opts s) 0 env)
        r
      × ((request cmd_id payload opts env s).1 ≡ answer_or_timeout cmd_id (attempts_of opts s) r)
request_quiet cmd_id payload opts env s small q =
    let ds = heard_in (attempts_of opts s) 0 env in
    (
      first_answer s.next_seq cmd_id s.lidar.ip ds,
      first_answer-IsFirst s.next_seq cmd_id s.lidar.ip ds,
      request-first_answer cmd_id payload opts env s small q,
    )

-- When no attempt fails or is cancelled and an acknowledgement of the request is among what is read
-- in its attempts, the request returns an acknowledgement: it does not time out.
pub request_live :
    (cmd_id : ℕ) (payload : List ℕ) (opts : Option ℕ) (env : ℕ → Attempt) (s : Session) (a : RawAck)
    → length payload ≤ 1376
    → ((i : ℕ) → 0 < i → i ≤ attempts_of opts s → IsQuiet (env i))
    → Any (IsAnswer s.next_seq cmd_id s.lidar.ip a) (heard_in (attempts_of opts s) 0 env)
    → (b : RawAck) × ((request cmd_id payload opts env s).1 ≡ ok b)
request_live cmd_id payload opts env s a small q h =
    let (b, e) = IsAnswer-first_answer s.next_seq cmd_id s.lidar.ip _ a h in
    (b, request-first_answer cmd_id payload opts env s small q ∙ ap (answer_or_timeout cmd_id _) e)
