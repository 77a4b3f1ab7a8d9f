-- ===== src/Device/Push.antt =====
-- src/device.cpp, `on_push`: a state push of the LiDAR, merged into the status, and its events.
pub mod Chain
pub mod Codes
pub mod Latest
use livox_mid360_core.Prelude.{
  ℕ, ◌+◌, ◌%◌, ◌^◌, ◌==◌, ◌&&◌, ◌||◌, ltb, leb, not, Bool, true, false, if◌then◌else◌, List, [],
  ◌∷◌, ◌++◌, map, replicate, Option, none, some, Result, ok, err, fault, ◌>>=◌, ◌>>◌, fail_if,
}
use livox_mid360_core.Protocol.Types.{KeyValue, work_state_error}
use livox_mid360_core.Protocol.CommandFrame.{parse_command_frame}
use livox_mid360_core.Protocol.Acks.{parse_info_push}
use livox_mid360_core.Keys.Scalars.{DiagStatus}
use livox_mid360_core.Hms.{HmsCode, is_active}
use livox_mid360_core.Info.{LidarStatus, decode_status}
use livox_mid360_core.Session.Acks.{or_fail}
use livox_mid360_core.Session.Types.{count_up}
use livox_mid360_core.Transport.{same_bytes}
use livox_mid360_core.Event.{Event, state_changed, hms_changed, diag_changed}

abbrev pub cmd_info_push : ℕ
cmd_info_push = 0x0102

-- The states of a LiDAR that starts over: `kError`, `kSelfCheck` and `kMotorStartup`.
abbrev pub restarting : ℕ → Bool
restarting s = s == 0x04 || s == 0x05 || s == 0x06

-- What pushes have told so far.
pub record Pushed : Type 0 where
  pub status : Option LidarStatus
  pub hms_sorted : List ℕ
  pub diag_seen : DiagStatus
  pub bad_packets : ℕ
  pub pushes : ℕ
  pub last_push_time_ns : ℕ

abbrev pub all_normal : DiagStatus
all_normal = record { system = 0; scan = 0; ranging = 0; communication = 0 }

abbrev pub nothing_pushed : Pushed
nothing_pushed = record {
  status = none;
  hms_sorted = replicate 8 0;
  diag_seen = all_normal;
  bad_packets = 0;
  pushes = 0;
  last_push_time_ns = 0;
}

-- `keep`.
abbrev pub keep {ℓ} : {A : Type ℓ} → Option A → Option A → Option A
keep none prev = prev
keep (some v) prev = some v

unfoldable pub carry_over : LidarStatus → LidarStatus → LidarStatus
carry_over next prev = record next {
  cur_work_state = keep next.cur_work_state prev.cur_work_state;
  core_temp = keep next.core_temp prev.core_temp;
  powerup_cnt = keep next.powerup_cnt prev.powerup_cnt;
  local_time_now = keep next.local_time_now prev.local_time_now;
  last_sync_time = keep next.last_sync_time prev.last_sync_time;
  time_offset = keep next.time_offset prev.time_offset;
  time_sync_type = keep next.time_sync_type prev.time_sync_type;
  lidar_diag_status = keep next.lidar_diag_status prev.lidar_diag_status;
  fw_type = keep next.fw_type prev.fw_type;
  hms_code = keep next.hms_code prev.hms_code;
}

-- The decoded status with its time, and what it lacks from the one before.
unfoldable pub merged : ℕ → LidarStatus → Option LidarStatus → LidarStatus
unfolding carry_over
merged time next none = record next { time_ns = time }
merged time next (some prev) = carry_over (record next { time_ns = time }) prev

abbrev pub state_of : Option LidarStatus → Option ℕ
state_of none = none
state_of (some s) = s.cur_work_state

-- A working state that is known and differs from one that was known before.
unfoldable pub state_events : ℕ → Option ℕ → Option ℕ → List Event
state_events time none new = []
state_events time (some old) none = []
state_events time (some old) (some new) = if old == new then [] else state_changed old new time ∷ []

-- `std::ranges::sort` on the raw codes.
unfoldable pub insert_sorted : ℕ → List ℕ → List ℕ
insert_sorted x [] = x ∷ []
insert_sorted x (y ∷ ys) =
    let rest = y ∷ insert_sorted x ys in if leb x y then x ∷ (y ∷ ys) else rest

unfoldable pub sort : List ℕ → List ℕ
unfolding insert_sorted
sort [] = []
sort (x ∷ xs) = insert_sorted x (sort xs)

-- The highest level of the active slots, from the level so far.
unfoldable pub worst_level : ℕ → List HmsCode → ℕ
worst_level level [] = level
worst_level level (c ∷ cs) =
    worst_level (if is_active c && ltb level c.level then c.level else level) cs

abbrev pub raw_codes : List HmsCode → List ℕ
raw_codes codes = map (λ (c : HmsCode). c.raw) codes

unfoldable pub hms_events : ℕ → Option (List HmsCode) → List ℕ → List Event
unfolding sort worst_level
hms_events time none seen = []
hms_events time (some codes) seen =
    if same_bytes (sort (raw_codes codes)) seen
    then []
    else hms_changed (worst_level 0 codes) codes time ∷ []

abbrev pub hms_after : Option (List HmsCode) → List ℕ → List ℕ
hms_after none seen = seen
hms_after (some codes) seen = sort (raw_codes codes)

abbrev pub same_diag : DiagStatus → DiagStatus → Bool
same_diag a b =
    (a.system == b.system)
    && (a.scan == b.scan)
    && (a.ranging == b.ranging)
    && (a.communication == b.communication)

unfoldable pub diag_events : ℕ → Option DiagStatus → DiagStatus → List Event
diag_events time none seen = []
diag_events time (some d) seen = if same_diag d seen then [] else diag_changed time seen d ∷ []

abbrev pub diag_after : Option DiagStatus → DiagStatus → DiagStatus
diag_after none seen = seen
diag_after (some d) seen = d

-- The part of `on_push` under `push_mutex`, and the count of pushes, for a status that was decoded.
unfoldable pub observe_status : ℕ → LidarStatus → Pushed → Pushed × List Event
unfolding merged state_events hms_events diag_events
observe_status time decoded p =
    let next = merged time decoded p.status in
    (
      record p {
        status = some next;
        hms_sorted = hms_after next.hms_code p.hms_sorted;
        diag_seen = diag_after next.lidar_diag_status p.diag_seen;
        pushes = count_up p.pushes;
        last_push_time_ns = time;
      },
      state_events time (state_of p.status) next.cur_work_state
          ++ (hms_events time next.hms_code p.hms_sorted
              ++ diag_events time next.lidar_diag_status p.diag_seen),
    )

-- What the events say to the connection: into an error, and into a state of starting over.
abbrev pub enters : (ℕ → Bool) → List Event → Bool
enters bad [] = false
enters bad (state_changed old new time ∷ es) = bad new || enters bad es
enters bad (_ ∷ es) = enters bad es

-- The keys and values of a push; every error is counted as one bad packet.
unfoldable pub read_push : List ℕ → Result (Unit {0}) LidarStatus
read_push bytes = do
  frame ← or_fail (λ e. tt) (parse_command_frame bytes)
  fail_if (not (frame.header.cmd_id == cmd_info_push)) tt
  push ← or_fail (λ e. tt) (parse_info_push frame.payload)
  or_fail (λ e. tt) (decode_status push.values)

unfoldable pub on_push : List ℕ → ℕ → Pushed → Result (Unit {0}) (Pushed × List Event)
unfolding read_push observe_status
on_push bytes recv_time p = elim (read_push bytes) [
  | ok decoded ↦ ok (observe_status recv_time decoded p)
  | err e ↦ ok (record p { bad_packets = count_up p.bad_packets }, [])
  | fault ↦ fault
]

-- A run of pushes, each with the time at which it was read.
unfoldable pub observe_run : List (ℕ × LidarStatus) → Pushed → Pushed × List Event
observe_run [] p = (p, [])
observe_run ((time, decoded) ∷ ds) p =
    let (p', es) = observe_status time decoded p in
    let (p'', rest) = observe_run ds p' in (p'', es ++ rest)
