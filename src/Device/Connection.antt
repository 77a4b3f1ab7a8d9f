-- ===== src/Device/Connection.antt =====
-- src/device.cpp, the connection state machine: losing the LiDAR, attempts to find it again, and the
-- events that the receive thread raises at its next tick.
--
-- Each operation is one step or a sequence of steps on the fields that threads share; Threads has the
-- steps in any order. An attempt holds `cmd_mutex`, which is the field `attempting`, the number of the attempt,
-- and which nothing of the code reads. `now` is the steady clock, `time` the wall clock.
pub mod Advancing
pub mod Events
pub mod Keeping
pub mod Ledger
pub mod Rounds
pub mod Steps
pub mod Threads
use livox_mid360_core.Prelude.{
  ℕ, zero, suc, ◌+◌, ◌-◌, ◌*◌, ◌/◌, ◌%◌, ◌^◌, max, min, ◌==◌, ◌&&◌, ◌||◌, leb, ltb, not, Bool, true,
  false, if◌then◌else◌, List, [], ◌∷◌, ◌++◌, Option, none, some,
}
use livox_mid360_core.Session.Types.{count_up}
use livox_mid360_core.Event.{
  Event, disconnected, reconnected, DisconnectReason, push_timeout, command_timeout,
  reboot_requested, user,
}

pub record Connection : Type 0 where
  pub connected : Bool
  pub pending : List Event
  pub attempts : ℕ
  pub disconnects : ℕ
  pub reconnects : ℕ
  pub last_push : ℕ
  pub reboot_sent : ℕ
  pub reboot_down : Bool
  pub worker_started : Bool
  pub discard_requested : Bool
  pub rebase_requested : Bool
  pub attempting : Option ℕ

-- What the constructor and `open` leave.
abbrev pub opened : ℕ → Connection
opened now = record {
  connected = true;
  pending = [];
  attempts = 0;
  disconnects = 0;
  reconnects = 0;
  last_push = now;
  reboot_sent = 0;
  reboot_down = false;
  worker_started = false;
  discard_requested = false;
  rebase_requested = false;
  attempting = none;
}

-- The steps of `declare_disconnected`. The exchange comes first, and whether this call did it.
unfoldable pub lose : Connection → Connection × Bool
lose c = if c.connected then (record c { connected = false }, true) else (c, false)

abbrev pub count_loss : Connection → Connection
count_loss c = record c { disconnects = count_up c.disconnects }

abbrev pub reset_attempts : Connection → Connection
reset_attempts c = record c { attempts = 0 }

abbrev pub request_discard : Connection → Connection
request_discard c = record c { discard_requested = true }

-- Under `conn_mutex`.
abbrev pub queue_loss : Bool → DisconnectReason → ℕ → Connection → Connection
queue_loss reconnect_enabled reason time c = record c {
  pending = c.pending ++ (disconnected time reason ∷ []);
  worker_started = c.worker_started || reconnect_enabled;
}

-- `declare_disconnected` with no step of another thread in between, and what it returns.
unfoldable pub declare_disconnected : Bool → DisconnectReason → ℕ → Connection → Connection × Bool
unfolding lose
declare_disconnected reconnect_enabled reason time c =
    let (c', won) = lose c in
    if won
    then (
      queue_loss reconnect_enabled reason time (request_discard (reset_attempts (count_loss c'))),
      true,
    )
    else (c', false)

-- No push for more than a third of the timeout.
abbrev pub is_stale : ℕ → ℕ → Connection → Bool
is_stale timeout now c = ltb (timeout / 3) (now - c.last_push)

-- A command timed out: `note_command_error` after `settle_cancel`.
unfoldable pub note_timeout : Bool → ℕ → ℕ → ℕ → Connection → Connection
unfolding declare_disconnected
note_timeout reconnect_enabled timeout now time c =
    if is_stale timeout now c
    then (declare_disconnected reconnect_enabled command_timeout time c).0
    else c

-- The next attempt.
abbrev pub begun : Connection → Connection
begun c = record c {
  attempts = (c.attempts + 1) % 2 ^ 32;
  attempting = some ((c.attempts + 1) % 2 ^ 32);
}

-- `attempt_locked` up to its first network call: nothing while connected.
unfoldable pub begin_attempt : Connection → Connection
begin_attempt c = elim c.attempting [ some n ↦ c | none ↦ if c.connected then c else begun c ]

-- Attempt `n` succeeded.
abbrev pub finished : ℕ → ℕ → ℕ → Connection → Connection
finished now time n c = record c {
  rebase_requested = true;
  last_push = now;
  reboot_sent = 0;
  reconnects = count_up c.reconnects;
  pending = c.pending ++ (reconnected time n ∷ []);
  connected = true;
  attempting = none;
}

-- The end of `attempt_locked` once the session, the setup and the streams are back.
unfoldable pub finish_attempt : ℕ → ℕ → Connection → Connection
finish_attempt now time c = elim c.attempting [ none ↦ c | some n ↦ finished now time n c ]

-- An attempt that returns an error.
abbrev pub fail_attempt : Connection → Connection
fail_attempt c = record c { attempting = none }

-- A push of the LiDAR was read; `down` when it went into an error while a reboot is awaited, `restart`
-- when it started over.
abbrev pub note_push : ℕ → Bool → Bool → Connection → Connection
note_push now down restart c = record c {
  last_push = now;
  reboot_down = c.reboot_down || (down && not (c.reboot_sent == 0));
  rebase_requested = c.rebase_requested || (restart && not c.connected);
}

abbrev pub is_overdue : ℕ → ℕ → Connection → Bool
is_overdue timeout now c = c.connected && leb (c.last_push + timeout) now

-- The start of `connection_tick`: a push that is overdue.
unfoldable pub expire : Bool → ℕ → ℕ → ℕ → Connection → Connection
unfolding declare_disconnected
expire reconnect_enabled timeout now time c =
    if is_overdue timeout now c
    then (declare_disconnected reconnect_enabled push_timeout time c).0
    else c

-- The queue is taken.
abbrev pub raise : Connection → Connection × List Event
raise c = (record c { pending = [] }, c.pending)

-- `connection_tick` with no step of another thread in between: the connection afterwards, and the events taken from `pending`.
unfoldable pub connection_tick : Bool → ℕ → ℕ → ℕ → Connection → Connection × List Event
unfolding expire
connection_tick reconnect_enabled timeout now time c =
    raise (expire reconnect_enabled timeout now time c)

-- The time at which it wants to be called again.
abbrev pub connection_deadline : ℕ → ℕ → Connection → Option ℕ
connection_deadline timeout now c =
    if c.connected && not (leb (c.last_push + timeout) now)
    then some (c.last_push + timeout)
    else none

-- `Device::reboot`, before the request and when it fails; when it succeeds it disconnects.
abbrev pub arm_reboot : ℕ → Connection → Connection
arm_reboot now c = record c { reboot_down = false; reboot_sent = now }

abbrev pub disarm_reboot : Connection → Connection
disarm_reboot c = record c { reboot_sent = 0 }

-- What one round of `wait_for_power_down` finds at the time `now`, after a request at `sent`.
pub data PowerDown : Type 0 where
  error_push pushes_stopped still_pushing keeps_waiting : PowerDown

unfoldable pub power_down_at : ℕ → ℕ → ℕ → Connection → PowerDown
power_down_at timeout sent now c =
    if c.reboot_down
    then error_push
    else if leb (max c.last_push sent + timeout / 2) now
    then pushes_stopped
    else if leb (sent + timeout) now
    then still_pushing
    else keeps_waiting

-- The wait of the worker, over the connection and the time at each wake-up; a stop, or the end of the
-- list, leaves it too. Afterwards the request is forgotten.
unfoldable pub wait_rounds : ℕ → ℕ → List (Connection × ℕ) → PowerDown
wait_rounds timeout sent [] = keeps_waiting
wait_rounds timeout sent ((c, now) ∷ rounds) =
    let rest = wait_rounds timeout sent rounds in
    elim (power_down_at timeout sent now c) [ keeps_waiting ↦ rest | why ↦ why ]

abbrev pub forget_reboot : Connection → Connection
forget_reboot c = record c { reboot_sent = 0; reboot_down = false }

-- The delay after the next failed attempt.
abbrev pub next_backoff : ℕ → ℕ → ℕ
next_backoff max_backoff backoff = min (backoff * 2) max_backoff

-- `consume_requests` takes the two flags.
abbrev pub take_requests : Connection → Connection
take_requests c = record c { discard_requested = false; rebase_requested = false }
