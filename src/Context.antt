-- ===== src/Context.antt =====
-- src/context.cpp with src/context_impl.hpp: the registry of devices and the receive thread.
--
-- Each operation is one step, since it holds the mutex; `remove` is its first half, and returns once
-- `remove_done` holds. `generation` is taken not to wrap at 2^64. A receiver and a device are the
-- numbers of their pointers; what the receive thread hands to receivers is collected in `calls`.
pub mod Distinct
pub mod Gone
pub mod Registry
pub mod Removal
pub mod Routing
use livox_mid360_core.Prelude.{
  ℕ, ◌+◌, ◌%◌, ◌^◌, ◌==◌, ◌||◌, leb, not, Bool, true, false, if◌then◌else◌, List, [], ◌∷◌, ◌++◌,
  length, Option, none, some, Result, ok, err,
}
use livox_mid360_core.Transport.{TransportError, Datagram, same_bytes}
use livox_mid360_core.Session.Types.{transport_error}
use livox_mid360_core.Event.{DeviceError, device_error, invalid_argument, session_failed}

pub record Entry : Type 0 where
  pub ip : List ℕ
  pub receiver : ℕ
  pub serial : List ℕ
  pub device : Option ℕ

pub data DataPort : Type 0 where
  push point imu log debug_data : DataPort

pub data AddResult : Type 0 where
  added duplicate_ip duplicate_serial : AddResult

-- The counters are 64 bits wide.
pub record ContextStats : Type 0 where
  pub datagrams : ℕ
  pub unknown_source : ℕ
  pub log_datagrams : ℕ
  pub debug_datagrams : ℕ

-- `snapshot` and `seen` belong to the receive thread.
pub record Context : Type 0 where
  pub entries : List Entry
  pub generation : ℕ
  pub observed : ℕ
  pub snapshot : List Entry
  pub seen : ℕ
  pub stats : ContextStats
  pub calls : List (ℕ × DataPort × Datagram)

abbrev pub new_context : Context
new_context = record {
  entries = [];
  generation = 1;
  observed = 0;
  snapshot = [];
  seen = 0;
  stats = record { datagrams = 0; unknown_source = 0; log_datagrams = 0; debug_datagrams = 0 };
  calls = [];
}

-- `std::ranges::any_of` on each field.
unfoldable pub has_ip : List Entry → List ℕ → Bool
has_ip [] ip = false
has_ip (e ∷ es) ip = same_bytes e.ip ip || has_ip es ip

unfoldable pub has_serial : List Entry → List ℕ → Bool
has_serial [] serial = false
has_serial (e ∷ es) serial = same_bytes e.serial serial || has_serial es serial

unfoldable pub add : List ℕ → List ℕ → ℕ → Context → Context × AddResult
add ip serial receiver c =
    if has_ip c.entries ip
    then (c, duplicate_ip)
    else if has_serial c.entries serial
    then (c, duplicate_serial)
    else (
      record c {
        entries =
            c.entries
            ++ (record { ip = ip; receiver = receiver; serial = serial; device = none } ∷ []);
        generation = c.generation + 1;
      },
      added,
    )

unfoldable pub bind_entries : ℕ → ℕ → List Entry → List Entry
bind_entries receiver device [] = []
bind_entries receiver device (e ∷ es) =
    (if e.receiver == receiver then record e { device = some device } else e)
    ∷ bind_entries receiver device es

abbrev pub bind : ℕ → ℕ → Context → Context
bind receiver device c = record c { entries = bind_entries receiver device c.entries }

-- The first entry of the receiver.
unfoldable pub find_receiver : ℕ → List Entry → Option Entry
find_receiver receiver [] = none
find_receiver receiver (e ∷ es) =
    let rest = find_receiver receiver es in if e.receiver == receiver then some e else rest

-- `it->ip = ip` on that entry.
unfoldable pub move_entry : ℕ → List ℕ → List Entry → List Entry
move_entry receiver ip [] = []
move_entry receiver ip (e ∷ es) =
    let rest = e ∷ move_entry receiver ip es in
    if e.receiver == receiver then record e { ip = ip } ∷ es else rest

unfoldable pub rekey : ℕ → List ℕ → Context → Context × Bool
rekey receiver ip c = elim (find_receiver receiver c.entries) [
  | none ↦ (c, false)
  | some e ↦ if same_bytes e.ip ip then (c, true) else if has_ip c.entries ip then (c, false) else (
    record c { entries = move_entry receiver ip c.entries; generation = c.generation + 1 },
    true,
  )
]

unfoldable pub erase_receiver : ℕ → List Entry → List Entry
erase_receiver receiver [] = []
erase_receiver receiver (e ∷ es) =
    let rest = erase_receiver receiver es in if e.receiver == receiver then rest else e ∷ rest

-- `remove` up to its wait, with `target`.
unfoldable pub begin_remove : ℕ → Context → Context × ℕ
begin_remove receiver c = (
  record c { entries = erase_receiver receiver c.entries; generation = c.generation + 1 },
  c.generation + 1,
)

-- The condition that `remove` waits for; `stop` ends the wait too.
abbrev pub remove_done : ℕ → Context → Bool
remove_done target c = leb target c.observed

-- `refresh` of the receive thread.
unfoldable pub refresh : Context → Context
refresh c =
    if c.generation == c.seen
    then c
    else record c { snapshot = c.entries; seen = c.generation; observed = c.generation }

-- The first entry with the address.
unfoldable pub find_ip : List ℕ → List Entry → Option Entry
find_ip ip [] = none
find_ip ip (e ∷ es) = let rest = find_ip ip es in if same_bytes e.ip ip then some e else rest

-- One datagram, to the device that it comes from.
unfoldable pub route : DataPort → Datagram → Context → Context
route port d c = elim (find_ip d.from.ip c.snapshot) [
  | none ↦ record c {
    stats = record c.stats { unknown_source = (c.stats.unknown_source + 1) % 2 ^ 64 };
  }
  | some e ↦ record c { calls = c.calls ++ ((e.receiver, port, d) ∷ []) }
]

unfoldable pub route_from : DataPort → List Datagram → Context → Context
unfolding route
route_from port [] c = c
route_from port (d ∷ ds) c = route_from port ds (route port d c)

unfoldable pub count_received : DataPort → ℕ → ContextStats → ContextStats
count_received log n s = record s {
  datagrams = (s.datagrams + n) % 2 ^ 64;
  log_datagrams = (s.log_datagrams + n) % 2 ^ 64;
}
count_received debug_data n s = record s {
  datagrams = (s.datagrams + n) % 2 ^ 64;
  debug_datagrams = (s.debug_datagrams + n) % 2 ^ 64;
}
count_received _ n s = record s { datagrams = (s.datagrams + n) % 2 ^ 64 }

-- What follows a receive in `run`: the entries are read again first.
unfoldable pub on_batch : DataPort → List Datagram → Context → Context
unfolding refresh count_received route_from
on_batch port ds c =
    let c' = refresh c in
    route_from port ds (record c' { stats = count_received port (length ds) c'.stats })

-- How a round of draining a socket ends: the threads that use the registry may come between rounds.
pub data Step : Type 0 where
  adds : List ℕ → List ℕ → ℕ → Step
  binds : ℕ → ℕ → Step
  rekeys : ℕ → List ℕ → Step
  removes : ℕ → Step
  refreshes : Step
  receives : DataPort → List Datagram → Step

unfoldable pub step : Step → Context → Context
unfolding add rekey begin_remove on_batch
step (adds ip serial receiver) c = (add ip serial receiver c).0
step (binds receiver device) c = bind receiver device c
step (rekeys receiver ip) c = (rekey receiver ip c).0
step (removes receiver) c = (begin_remove receiver c).0
step refreshes c = refresh c
step (receives port ds) c = on_batch port ds c

unfoldable pub run : List Step → Context → Context
unfolding step
run [] c = c
run (s ∷ ss) c = run ss (step s c)

-- `Context::find` and `Context::devices`.
unfoldable pub find : List ℕ → List Entry → Option ℕ
find serial [] = none
find serial (e ∷ es) =
    let rest = find serial es in if same_bytes e.serial serial then e.device else rest

unfoldable pub devices : List Entry → List ℕ
devices [] = []
devices (e ∷ es) = elim e.device [ none ↦ devices es | some d ↦ d ∷ devices es ]

-- `Context::create`: how each call of the system ends, in the order of the code, the debug data
-- socket's two last and only when its port is set.
abbrev pub first_failure : List (Option TransportError) → Option TransportError
first_failure [] = none
first_failure (none ∷ calls) = first_failure calls
first_failure (some e ∷ calls) = some e

unfoldable pub create : ℕ → List (Option TransportError) → Result DeviceError Context
create batch_size calls =
    if batch_size == 0 then err (device_error invalid_argument) else elim (first_failure calls) [
      | some e ↦ err (session_failed (transport_error e 0 0))
      | none ↦ ok new_context
    ]
