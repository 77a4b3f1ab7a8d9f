-- ===== src/Device/Commands/LogControl/Attempts.antt =====
-- How the attempts of a command on the log port end.
use mathlib.Core.List.{append_assoc}
use livox_mid360_core.Prelude.{
  ℕ, zero, suc, ◌+◌, ◌-◌, ◌<◌, ◌≤◌, ◌≡◌, ◌==◌, ◌∙◌, refl, sym, ap, Bool, Bool-cases, true, false,
  inl, inr, List, [], ◌∷◌, ◌++◌, replicate, Option, Option-cases, none, some, Result, ok, err,
  arith, if◌then◌else◌, leb, leb→le, subst,
}
use livox_mid360_core.Protocol.Types.{ret_success}
use livox_mid360_core.Transport.{Endpoint, TransportError}
use livox_mid360_core.Session.Types.{
  SessionError, error_of, transport_error, rejected, cancelled, timeout, bad_response,
}
use livox_mid360_core.Device.Log.{LogState}
use livox_mid360_core.Device.Commands.{Device}
use livox_mid360_core.Device.Commands.LogControl.{
  LogAttempt, LogCall, hear, judge_log, send_log_frame, try_log, or_next, log_attempts,
}
use livox_mid360_core.Device.Commands.LogControl.Hearing.{
  first_answer, handed_over, IsWaiting, hear-first_answer,
}

module _ (cmd seq most : ℕ) (env : ℕ → LogAttempt) where
  -- In the attempts up to the `k`-th nothing that was heard answers the command.
  abbrev pub Unanswered : ℕ → Type 0
  Unanswered k = (i : ℕ) → 0 < i → i ≤ k → first_answer cmd seq (env i).heard ≡ none

  -- How a command for `most` attempts ends after `k` frames were sent.
  pub data Outcome : ℕ → Result SessionError (Unit {0}) → Type 0 where
    acknowledged :
        (k : ℕ)
        → k < most
        → Unanswered k
        → first_answer cmd seq (env (suc k)).heard ≡ some (some ret_success)
        → Outcome (suc k) (ok tt)
    refused :
        (k ret : ℕ)
        → k < most
        → Unanswered k
        → (ret == ret_success) ≡ false
        → first_answer cmd seq (env (suc k)).heard ≡ some (some ret)
        → Outcome (suc k) (err (rejected ret 0 cmd (suc k)))
    cut_off :
        (k : ℕ)
        → k < most
        → Unanswered k
        → first_answer cmd seq (env (suc k)).heard ≡ some none
        → Outcome (suc k) (err (error_of bad_response cmd (suc k)))
    stopped_before :
        (k : ℕ)
        → k < most
        → Unanswered k
        → (env (suc k)).stopped ≡ true
        → Outcome k (err (error_of cancelled cmd k))
    stopped_after :
        (k : ℕ)
        → k < most
        → Unanswered (suc k)
        → (env (suc k)).interrupted ≡ true
        → Outcome (suc k) (err (error_of cancelled cmd (suc k)))
    not_sent :
        (k : ℕ) (e : TransportError)
        → k < most
        → Unanswered k
        → (env (suc k)).send_failed ≡ some e
        → Outcome k (err (transport_error e cmd (suc k)))
    timed_out : Unanswered most → Outcome most (err (error_of timeout cmd most))

-- The device after `k` sends of a frame, with another hand-off.
abbrev pub after_log_sends : List ℕ → Endpoint → ℕ → LogState → Device → Device
after_log_sends frame to k l d = record d {
  log = l;
  log_sent = d.log_sent ++ replicate k (frame, to);
}

replicate_snoc {ℓ} : {A : Type ℓ} (k : ℕ) (x : A) → replicate k x ++ (x ∷ []) ≡ replicate (suc k) x
replicate_snoc zero x = refl
replicate_snoc (suc k) x = ap (λ xs. x ∷ xs) (replicate_snoc k x)

one_more :
    (frame : List ℕ) (to : Endpoint) (k : ℕ) (l l' : LogState) (d : Device)
    → record (send_log_frame frame to (after_log_sends frame to k l d)) { log = l' }
      ≡ after_log_sends frame to (suc k) l' d
one_more frame to k l l' d =
    ap (λ (xs : List (List ℕ × Endpoint)). record d { log = l'; log_sent = xs })
      (append_assoc d.log_sent (replicate k (frame, to)) ((frame, to) ∷ [])
        ∙ ap (λ xs. d.log_sent ++ xs) (replicate_snoc k (frame, to)))

module _ (cmd : ℕ) (frame : List ℕ) (to : Endpoint) where
  try_log_stopped :
      (n : ℕ) (a : LogAttempt) (d : Device)
      → a.stopped ≡ true
      → try_log cmd frame to n a d ≡ (d, err (error_of cancelled cmd (n - 1)))
  unfolding try_log
  try_log_stopped n a d h = rw h

  try_log_not_sent :
      (n : ℕ) (a : LogAttempt) (e : TransportError) (d : Device)
      → a.stopped ≡ false
      → a.send_failed ≡ some e
      → try_log cmd frame to n a d ≡ (d, err (transport_error e cmd n))
  unfolding try_log
  try_log_not_sent n a e d h f = rw (h, f)

  try_log_heard :
      (n : ℕ) (a : LogAttempt) (l : LogState) (d : Device)
      → a.stopped ≡ false
      → a.send_failed ≡ none
      → hear a.heard d.log ≡ ok l
      → try_log cmd frame to n a d
        ≡ (record (send_log_frame frame to d) { log = l }, judge_log cmd n a.interrupted l)
  unfolding try_log
  try_log_heard n a l d h f e = rw (h, f, e)

judge_log_code :
    (cmd n ret : ℕ) (b : Bool) (l : LogState)
    → judge_log cmd n b (record l { ack = some ret })
      ≡ (if ret == ret_success then ok true else err (rejected ret 0 cmd n))
unfolding judge_log
judge_log_code cmd n ret b l = refl

judge_log_bad :
    (cmd n : ℕ) (b : Bool) (l : LogState)
    → l.ack ≡ none
    → judge_log cmd n b (record l { ack_bad = true }) ≡ err (error_of bad_response cmd n)
unfolding judge_log
judge_log_bad cmd n b l h = rw h

judge_log_quiet :
    (cmd n : ℕ) (b : Bool) (l : LogState)
    → l.ack ≡ none
    → l.ack_bad ≡ false
    → judge_log cmd n b l ≡ (if b then err (error_of cancelled cmd n) else ok false)
unfolding judge_log
judge_log_quiet cmd n b l h g = rw (h, g)

module _ (cmd seq : ℕ) (frame : List ℕ) (to : Endpoint) (most : ℕ) (env : ℕ → LogAttempt)
    (d : Device) where
  -- What the loop comes to, from a device from which frames were sent.
  abbrev pub Ends : LogCall (Unit {0}) → Type 0
  Ends c =
      (k : ℕ) × (l : LogState) × (r : Result SessionError (Unit {0})) × (c
        ≡ (after_log_sends frame to k l d, r))
      × Outcome cmd seq most env k r

  still-Unanswered :
      (k : ℕ)
      → Unanswered cmd seq most env k
      → first_answer cmd seq (env (suc k)).heard ≡ none
      → Unanswered cmd seq most env (suc k)
  still-Unanswered k quiet h i p q = elim (Bool-cases (leb i k)) [
    | inl early ↦ quiet i p (leb→le i k early)
    | inr last ↦ subst (λ j. first_answer cmd seq (env j).heard ≡ none) (ground (arith, last, q)) h
  ]

  -- An attempt whose frame was sent, by what is heard in it.
  abbrev Sent : ℕ → LogState → Option (Option ℕ) → LogCall Bool
  Sent k l fa = (
    after_log_sends frame to (suc k) (handed_over cmd seq fa l) d,
    judge_log cmd (suc k) (env (suc k)).interrupted (handed_over cmd seq fa l),
  )

  judged :
      (k : ℕ) (l : LogState) (fa : Option (Option ℕ)) (again : Device → LogCall (Unit {0}))
      → k < most
      → IsWaiting cmd seq l
      → Unanswered cmd seq most env k
      → first_answer cmd seq (env (suc k)).heard ≡ fa
      → (Unanswered cmd seq most env (suc k) → Ends (again (after_log_sends frame to (suc k) l d)))
      → Ends (or_next (Sent k l fa) again)
  judged k l none again less w quiet h next =
      rw (judge_log_quiet cmd (suc k) (env (suc k)).interrupted l w.no_ack w.not_bad)
        (interrupted (env (suc k)).interrupted refl)
    where
      interrupted :
          (b : Bool)
          → (env (suc k)).interrupted ≡ b
          → Ends (
              or_next
                (
                  after_log_sends frame to (suc k) l d,
                  (if b then err (error_of cancelled cmd (suc k)) else ok false),
                )
                again)
      interrupted true i = (suc k, l, _, refl, stopped_after k less (still-Unanswered k quiet h) i)
      interrupted false i = next (still-Unanswered k quiet h)
  judged k l (some none) again less w quiet h next =
      rw (judge_log_bad cmd (suc k) (env (suc k)).interrupted l w.no_ack)
        (suc k, record l { ack_bad = true }, _, refl, cut_off k less quiet h)
  judged k l (some (some ret)) again less w quiet h next =
      rw (judge_log_code cmd (suc k) ret (env (suc k)).interrupted l)
        (coded (ret == ret_success) refl)
    where
      coded :
          (b : Bool)
          → (ret == ret_success) ≡ b
          → Ends (
              or_next
                (
                  after_log_sends frame to (suc k) (record l { ack = some ret }) d,
                  (if b then ok true else err (rejected ret 0 cmd (suc k))),
                )
                again)
      coded true e = (
        suc k,
        record l { ack = some ret },
        _,
        refl,
        acknowledged k less quiet (h ∙ ap (λ r. some (some r)) (ground (arith, e))),
      )
      coded false e = (suc k, record l { ack = some ret }, _, refl, refused k ret less quiet e h)

  pub log_attempts-Ends :
      (n k : ℕ) (l : LogState)
      → k + n ≡ most
      → IsWaiting cmd seq l
      → Unanswered cmd seq most env k
      → Ends (log_attempts cmd frame to most env n (suc k) (after_log_sends frame to k l d))
  unfolding log_attempts
  log_attempts-Ends zero k l total w quiet =
      let all : k ≡ most = omega (arith, total) in
      (
        k,
        l,
        err (error_of timeout cmd most),
        refl,
        subst (λ j. Outcome cmd seq most env j (err (error_of timeout cmd most))) (sym all)
            (timed_out (subst (Unanswered cmd seq most env) all quiet)),
      )
  log_attempts-Ends (suc n) k l total w quiet =
      let less : k < most = omega (arith, total) in
      elim (Bool-cases (env (suc k)).stopped) [
        | inl stop ↦ rw (try_log_stopped cmd frame to (suc k) (env (suc k)) _ stop) (
          k,
          l,
          err (error_of cancelled cmd (suc k - 1)),
          refl,
          subst (λ j. Outcome cmd seq most env k (err (error_of cancelled cmd j))) (omega arith)
              (stopped_before k less quiet stop),
        )
        | inr runs ↦ elim (Option-cases (env (suc k)).send_failed) [
          | inr (e, failed) ↦
              rw (try_log_not_sent cmd frame to (suc k) (env (suc k)) e _ runs failed)
                (k, l, _, refl, not_sent k e less quiet failed)
          | inl sent ↦
              rw
                (try_log_heard cmd frame to (suc k) (env (suc k)) _ (after_log_sends frame to k l d)
                  runs sent (hear-first_answer cmd seq (env (suc k)).heard l w))
                (rw
                  (one_more frame to k l
                    (handed_over cmd seq (first_answer cmd seq (env (suc k)).heard) l) d)
                  (judged k l (first_answer cmd seq (env (suc k)).heard) _ less w quiet refl
                    (λ quiet'. log_attempts-Ends n (suc k) l (omega (arith, total)) w quiet')))
        ]
      ]
