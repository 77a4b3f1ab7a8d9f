-- ===== src/Context/Routing.antt =====
-- Where the receive thread takes the datagrams that it reads.
use livox_mid360_core.Prelude.{
  ℕ, ◌+◌, ◌%◌, ◌^◌, ◌≡◌, ◌==◌, refl, sym, ap, ap₂, ◌∙◌, Bool-cases, inl, inr, if◌then◌else◌, List,
  [], ◌∷◌, ◌++◌, length, Option, Option-cases, none, some, ==_iff, arith,
}
use mathlib.Core.List.{append-nil, append_assoc}
use livox_mid360_core.Transport.{Datagram, same_bytes}
use livox_mid360_core.Context.{
  Entry, DataPort, push, point, imu, log, debug_data, Context, ContextStats, refresh, find_ip,
  route, route_from, count_received, on_batch,
}
use livox_mid360_core.Context.Distinct.{IsRegistry, routes}

-- The receiver that the registry has for an address.
abbrev pub owner : List ℕ → List (List ℕ × ℕ) → Option ℕ
owner ip [] = none
owner ip ((a, r) ∷ rs) = let rest = owner ip rs in if same_bytes a ip then some r else rest

-- The calls for datagrams that were read, in order, and the datagrams that no device has sent.
abbrev pub call_to : Option ℕ → DataPort → Datagram → List (ℕ × DataPort × Datagram)
call_to none port d = []
call_to (some r) port d = (r, port, d) ∷ []

abbrev pub calls_for : List (List ℕ × ℕ) → DataPort → List Datagram → List (ℕ × DataPort × Datagram)
calls_for rs port [] = []
calls_for rs port (d ∷ ds) = call_to (owner d.from.ip rs) port d ++ calls_for rs port ds

abbrev pub stranger : Option ℕ → ℕ
stranger none = 1
stranger (some r) = 0

abbrev pub strangers : List (List ℕ × ℕ) → List Datagram → ℕ
strangers rs [] = 0
strangers rs (d ∷ ds) = stranger (owner d.from.ip rs) + strangers rs ds

abbrev receiver_of : Option Entry → Option ℕ
receiver_of none = none
receiver_of (some e) = some e.receiver

find_ip-owner : (ip : List ℕ) (es : List Entry) → receiver_of (find_ip ip es) ≡ owner ip (routes es)
unfolding find_ip
find_ip-owner ip [] = refl
find_ip-owner ip (e ∷ es) = ground (arith, find_ip-owner ip es)

route_known :
    (port : DataPort) (d : Datagram) (c : Context) {r : ℕ}
    → owner d.from.ip (routes c.snapshot) ≡ some r
    → (route port d c).calls ≡ c.calls ++ ((r, port, d) ∷ [])
unfolding route
route_known port d c h = ground (arith, find_ip-owner d.from.ip c.snapshot)

route_unknown :
    (port : DataPort) (d : Datagram) (c : Context)
    → owner d.from.ip (routes c.snapshot) ≡ none
    → ((route port d c).calls ≡ c.calls)
      × ((route port d c).stats.unknown_source ≡ (c.stats.unknown_source + 1) % 2 ^ 64)
unfolding route
route_unknown port d c h = ground (arith, find_ip-owner d.from.ip c.snapshot)

route_known_stats :
    (port : DataPort) (d : Datagram) (c : Context) {r : ℕ}
    → owner d.from.ip (routes c.snapshot) ≡ some r
    → (route port d c).stats ≡ c.stats
unfolding route
route_known_stats port d c h = ground (arith, find_ip-owner d.from.ip c.snapshot)

route-snapshot :
    (port : DataPort) (d : Datagram) (c : Context) → (route port d c).snapshot ≡ c.snapshot
unfolding route
route-snapshot port d c = ground arith

-- What a batch adds, from any snapshot.
abbrev Adds : DataPort → List Datagram → Context → Context → Type 0
Adds port ds c c' =
    (c'.calls ≡ c.calls ++ calls_for (routes c.snapshot) port ds)
    × (c'.stats.unknown_source % 2 ^ 64
        ≡ (c.stats.unknown_source + strangers (routes c.snapshot) ds) % 2 ^ 64)

route_from-Adds :
    (port : DataPort) (ds : List Datagram) (c : Context) → Adds port ds c (route_from port ds c)
unfolding route_from
route_from-Adds port [] c = (sym (append-nil c.calls), omega arith)
route_from-Adds port (d ∷ ds) c =
    let (calls, unknown) = route_from-Adds port ds (route port d c) in
    let kept = route-snapshot port d c in
    let ends =
      λ (o : Option ℕ). c.calls ++ (call_to o port d ++ calls_for (routes c.snapshot) port ds) in
    let counts = λ (o : Option ℕ).
      (c.stats.unknown_source + (stranger o + strangers (routes c.snapshot) ds)) % 2 ^ 64 in
    elim (Option-cases (owner d.from.ip (routes c.snapshot))) [
      | inl none' ↦
          let (same, more) = route_unknown port d c none' in
          (
            calls
                ∙ ap₂ (λ cs s. cs ++ calls_for (routes s) port ds) same kept
                ∙ ap ends (sym none'),
            unknown
                ∙ ap₂ (λ u s. (u + strangers (routes s) ds) % 2 ^ 64) more kept
                ∙ omega arith
                ∙ ap counts (sym none'),
          )
      | inr (r, known) ↦ (
        calls
            ∙ ap₂ (λ cs s. cs ++ calls_for (routes s) port ds) (route_known port d c known) kept
            ∙ append_assoc c.calls ((r, port, d) ∷ []) (calls_for (routes c.snapshot) port ds)
            ∙ ap ends (sym known),
        unknown
            ∙ ap₂ (λ u s. (u + strangers (routes s) ds) % 2 ^ 64)
                (ap (λ st. st.unknown_source) (route_known_stats port d c known)) kept
            ∙ omega arith
            ∙ ap counts (sym known),
      )
    ]

-- After the refresh the snapshot routes as the registry.
refresh-current :
    (c : Context)
    → IsRegistry c
    → (routes (refresh c).snapshot ≡ routes c.entries)
      × ((refresh c).calls ≡ c.calls)
      × ((refresh c).stats ≡ c.stats)
unfolding refresh
refresh-current c v = elim (Bool-cases (c.generation == c.seen)) [
  | inl same ↦ rw same (v.current (sym ((==_iff c.generation c.seen).0 same)), refl, refl)
  | inr changed ↦ rw changed (refl, refl, refl)
]

count_received-same :
    (port : DataPort) (n : ℕ) (s : ContextStats)
    → ((count_received port n s).unknown_source ≡ s.unknown_source)
      × ((count_received port n s).datagrams ≡ (s.datagrams + n) % 2 ^ 64)
unfolding count_received
count_received-same push n s = (refl, refl)
count_received-same point n s = (refl, refl)
count_received-same imu n s = (refl, refl)
count_received-same log n s = (refl, refl)
count_received-same debug_data n s = (refl, refl)

-- A batch of datagrams is taken, in order, to the devices that the registry has for their addresses
-- at that time, also where the receive thread's last snapshot is older; each other datagram is counted
-- as one of an unknown source, modulo 2^64.
pub on_batch-calls_for :
    (port : DataPort) (ds : List Datagram) (c : Context)
    → IsRegistry c
    → ((on_batch port ds c).calls ≡ c.calls ++ calls_for (routes c.entries) port ds)
      × ((on_batch port ds c).stats.unknown_source % 2 ^ 64
          ≡ (c.stats.unknown_source + strangers (routes c.entries) ds) % 2 ^ 64)
unfolding on_batch
on_batch-calls_for port ds c v =
    let (current, calls, stats) = refresh-current c v in
    let (same, all) = count_received-same port (length ds) (refresh c).stats in
    let (took, unknown) = route_from-Adds port ds _ in
    (
      took ∙ ap₂ (λ cs rs. cs ++ calls_for rs port ds) calls current,
      unknown
          ∙ ap₂ (λ u rs. (u + strangers rs ds) % 2 ^ 64) (same ∙ ap (λ st. st.unknown_source) stats)
              current,
    )
