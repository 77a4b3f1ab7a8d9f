-- ===== src/Session/Request/Waits.antt =====
-- How the waits of one attempt end.
use livox_mid360_core.Prelude.{
  ℕ, ◌≡◌, refl, inl, inr, List, [], ◌∷◌, ◌++◌, Option, none, some, Option-cases, true, false,
  Result, ok, err,
}
use livox_mid360_core.Transport.{TransportError, Datagram}
use livox_mid360_core.Session.Types.{
  SessionError, error_of, transport_error, cancelled, SessionStats, RawAck,
}
use livox_mid360_core.Session.Request.{Wait, wait_failed, woke, Session, await_ack}
use livox_mid360_core.Session.Request.Answers.{
  Any, Any-append_left, Any-append_right, IsAnswer, first_answer, first_answer-IsAnswer,
  read_datagrams_lem,
}

-- What can be read in the waits, in order.
abbrev pub heard : List Wait → List Datagram
heard [] = []
heard (wait_failed e ∷ ws) = heard ws
heard (woke stop ds ∷ ws) = ds ++ heard ws

abbrev pub IsFailure : TransportError → Wait → Type 0
IsFailure e w = w ≡ wait_failed e

abbrev pub IsStop : Wait → Type 0
IsStop w = (ds : List Datagram) × (w ≡ woke true ds)

-- How the waits of an attempt end.
pub data Awaited (seq cmd_id attempt : ℕ) (ip : List ℕ) (ws : List Wait)
    : Result SessionError (Option RawAck) → Type 0 where
  expired : Awaited seq cmd_id attempt ip ws (ok none)
  heard_answer :
      (a : RawAck)
      → Any (IsAnswer seq cmd_id ip a) (heard ws)
      → Awaited seq cmd_id attempt ip ws (ok (some a))
  wait_error :
      (e : TransportError)
      → Any (IsFailure e) ws
      → Awaited seq cmd_id attempt ip ws (err (transport_error e cmd_id attempt))
  stopped_waiting :
      Any IsStop ws → Awaited seq cmd_id attempt ip ws (err (error_of cancelled cmd_id attempt))

-- What holds of the later waits holds of all.
Awaited-cons :
    {seq cmd_id attempt : ℕ} {ip : List ℕ} (ds : List Datagram) (ws : List Wait)
    {r : Result SessionError (Option RawAck)}
    → Awaited seq cmd_id attempt ip ws r
    → Awaited seq cmd_id attempt ip (woke false ds ∷ ws) r
Awaited-cons ds ws expired = expired
Awaited-cons ds ws (heard_answer a h) = heard_answer a (Any-append_right _ ds (heard ws) h)
Awaited-cons ds ws (wait_error e h) = wait_error e (inr h)
Awaited-cons ds ws (stopped_waiting h) = stopped_waiting (inr h)

pub await_ack_lem :
    (seq cmd_id attempt : ℕ) (ws : List Wait) (s : Session)
    → (stats : SessionStats) × (r : Result SessionError (Option RawAck)) × (await_ack seq cmd_id
          attempt ws s
        ≡ (record s { stats = stats }, r))
      × Awaited seq cmd_id attempt s.lidar.ip ws r
unfolding await_ack
await_ack_lem seq cmd_id attempt [] s = (s.stats, ok none, refl, expired)
await_ack_lem seq cmd_id attempt (wait_failed e ∷ ws) s =
    (s.stats, err (transport_error e cmd_id attempt), refl, wait_error e (inl refl))
await_ack_lem seq cmd_id attempt (woke true ds ∷ ws) s =
    (s.stats, err (error_of cancelled cmd_id attempt), refl, stopped_waiting (inl (ds, refl)))
await_ack_lem seq cmd_id attempt (woke false ds ∷ ws) s =
    let (stats, e) = read_datagrams_lem seq cmd_id ds s in
    elim (Option-cases (first_answer seq cmd_id s.lidar.ip ds)) [
      | inl nothing ↦
          let (stats', r, e', h) =
            await_ack_lem seq cmd_id attempt ws (record s { stats = stats }) in
          (stats', r, rw (e, nothing) e', Awaited-cons ds ws h)
      | inr (a, found) ↦ (
        stats,
        ok (some a),
        rw (e, found) refl,
        heard_answer a (
            Any-append_left _ ds (heard ws)
              (first_answer-IsAnswer seq cmd_id s.lidar.ip ds a found)),
      )
    ]
