-- ===== src/Device/Connection/Threads.antt =====
-- src/device.cpp, the connection state machine between threads, step by step.
--
-- A loss is several steps, since `declare_disconnected` clears `connected` before it takes
-- `conn_mutex`; `Threads` has the losses that are in the middle of it. The other operations are one
-- step each, and an attempt two, since its network calls lie between them.
use livox_mid360_core.Prelude.{
  ℕ, zero, suc, Bool, if◌then◌else◌, List, [], ◌∷◌, ◌++◌, Option, none, some,
}
use livox_mid360_core.Event.{Event, DisconnectReason, push_timeout, command_timeout}
use livox_mid360_core.Device.Connection.{
  Connection, lose, count_loss, reset_attempts, request_discard, queue_loss, is_stale, is_overdue,
  raise, begin_attempt, finish_attempt, fail_attempt, note_push, arm_reboot, disarm_reboot,
  forget_reboot, take_requests,
}

-- A call of `declare_disconnected` after its exchange: the step that comes next.
pub data Loss : Type 0 where
  uncounted unreset undiscarded unqueued : DisconnectReason → Loss

-- That step, and what is left of the call.
unfoldable pub step_loss : Bool → ℕ → Loss → Connection → Connection × Option Loss
step_loss reconnect_enabled time (uncounted reason) c = (count_loss c, some (unreset reason))
step_loss reconnect_enabled time (unreset reason) c = (reset_attempts c, some (undiscarded reason))
step_loss reconnect_enabled time (undiscarded reason) c =
    (request_discard c, some (unqueued reason))
step_loss reconnect_enabled time (unqueued reason) c =
    (queue_loss reconnect_enabled reason time c, none)

-- The connection, with the calls of `declare_disconnected` that threads are in the middle of.
pub record Threads : Type 0 where
  pub connection : Connection
  pub losing : List Loss

-- A thread enters `declare_disconnected`.
unfoldable pub enter_loss : DisconnectReason → Threads → Threads
unfolding lose
enter_loss reason s =
    let (c, won) = lose s.connection in
    record { connection = c; losing = (if won then uncounted reason ∷ s.losing else s.losing) }

abbrev pub left_of : Option Loss → List Loss → List Loss
left_of none ls = ls
left_of (some l) ls = l ∷ ls

-- Call `k` goes one step on.
unfoldable pub advance : Bool → ℕ → ℕ → List Loss → Connection → Threads
unfolding step_loss
advance reconnect_enabled time k [] c = record { connection = c; losing = [] }
advance reconnect_enabled time zero (l ∷ ls) c =
    let (c', next) = step_loss reconnect_enabled time l c in
    record { connection = c'; losing = left_of next ls }
advance reconnect_enabled time (suc k) (l ∷ ls) c =
    let s = advance reconnect_enabled time k ls c in record s { losing = l ∷ s.losing }

-- Everything that threads do to the connection, step by step. A command that times out and the tick
-- enter `declare_disconnected` after their tests; the tick takes the queue later.
pub data Move : Type 0 where
  loses : DisconnectReason → Move
  times_out : ℕ → Move
  expires : ℕ → Move
  advances : ℕ → ℕ → Move
  raises : Move
  begins : Move
  finishes : ℕ → ℕ → Move
  fails : Move
  hears : ℕ → Bool → Bool → Move
  arms : ℕ → Move
  disarms : Move
  forgets : Move
  takes : Move

-- A step on the connection alone, which raises nothing.
abbrev pub on_connection : (Connection → Connection) → Threads → Threads × List Event
on_connection f s = (record s { connection = f s.connection }, [])

module _ (reconnect_enabled : Bool) (timeout : ℕ) where
  unfoldable pub move : Move → Threads → Threads × List Event
  move (loses reason) s = (enter_loss reason s, [])
  move (times_out now) s =
      (if is_stale timeout now s.connection then enter_loss command_timeout s else s, [])
  move (expires now) s =
      (if is_overdue timeout now s.connection then enter_loss push_timeout s else s, [])
  move (advances k time) s = (advance reconnect_enabled time k s.losing s.connection, [])
  move raises s = let (c, es) = raise s.connection in (record s { connection = c }, es)
  move begins s = on_connection begin_attempt s
  move (finishes now time) s = on_connection (finish_attempt now time) s
  move fails s = on_connection fail_attempt s
  move (hears now down restart) s = on_connection (note_push now down restart) s
  move (arms now) s = on_connection (arm_reboot now) s
  move disarms s = on_connection disarm_reboot s
  move forgets s = on_connection forget_reboot s
  move takes s = on_connection take_requests s

  -- The connection afterwards, and all events raised, in order.
  unfoldable pub moves : List Move → Threads → Threads × List Event
  unfolding move
  moves [] s = (s, [])
  moves (m ∷ ms) s = let (s', out) = move m s in let (s'', rest) = moves ms s' in (s'', out ++ rest)
