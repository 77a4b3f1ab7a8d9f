-- ===== src/Context/Registry.antt =====
-- What holds of the registry whatever the threads do.
use livox_mid360_core.Prelude.{
  ℕ, ◌≡◌, ◌==◌, refl, sym, ◌∙◌, Bool-cases, inl, inr, List, [], ◌∷◌, Option-cases, arith,
}
use livox_mid360_core.Transport.{Datagram, same_bytes}
use livox_mid360_core.Context.{
  DataPort, Context, new_context, has_ip, has_serial, add, bind, find_receiver, rekey, begin_remove,
  refresh, find_ip, route, route_from, on_batch, Step, adds, binds, rekeys, removes, refreshes,
  receives, step, run,
}
use livox_mid360_core.Context.Distinct.{
  IsRegistry, routes-bind, DistinctIps-append, DistinctSerials-append, DistinctIps-bind,
  DistinctSerials-bind, DistinctIps-move, DistinctSerials-move, DistinctIps-erase,
  DistinctSerials-erase,
}

module _ (c : Context) (v : IsRegistry c) where
  add-IsRegistry : (ip serial : List ℕ) (receiver : ℕ) → IsRegistry (add ip serial receiver c).0
  unfolding add
  add-IsRegistry ip serial receiver = elim (Bool-cases (has_ip c.entries ip)) [
    | inl taken ↦ rw taken v
    | inr free ↦ elim (Bool-cases (has_serial c.entries serial)) [
      | inl known ↦ rw (free, known) v
      | inr new ↦
          rw (free, new)
            (record {
              ips = DistinctIps-append _ c.entries free v.ips;
              serials = DistinctSerials-append _ c.entries new v.serials;
              order = omega (arith, v.order);
              told = v.told;
              current = λ e. absurd (omega (arith, v.order));
            })
    ]
  ]

  bind-IsRegistry : (receiver device : ℕ) → IsRegistry (bind receiver device c)
  bind-IsRegistry receiver device = record {
    ips = DistinctIps-bind receiver device c.entries v.ips;
    serials = DistinctSerials-bind receiver device c.entries v.serials;
    order = v.order;
    told = v.told;
    current = λ e. v.current e ∙ sym (routes-bind receiver device c.entries);
  }

  rekey-IsRegistry : (receiver : ℕ) (ip : List ℕ) → IsRegistry (rekey receiver ip c).0
  unfolding rekey
  rekey-IsRegistry receiver ip = elim (Option-cases (find_receiver receiver c.entries)) [
    | inl gone ↦ rw (gone, rekey) v
    | inr (e, found) ↦ elim (Bool-cases (same_bytes e.ip ip)) [
      | inl same ↦ rw (found, rekey, same) v
      | inr other ↦ elim (Bool-cases (has_ip c.entries ip)) [
        | inl taken ↦ rw (found, rekey, other, taken) v
        | inr free ↦
            rw (found, rekey, other, free)
              (record {
                ips = DistinctIps-move receiver ip c.entries free v.ips;
                serials = DistinctSerials-move receiver ip c.entries v.serials;
                order = omega (arith, v.order);
                told = v.told;
                current = λ e. absurd (omega (arith, v.order));
              })
      ]
    ]
  ]

  pub begin_remove-IsRegistry : (receiver : ℕ) → IsRegistry (begin_remove receiver c).0
  unfolding begin_remove
  begin_remove-IsRegistry receiver = record {
    ips = DistinctIps-erase receiver c.entries v.ips;
    serials = DistinctSerials-erase receiver c.entries v.serials;
    order = omega (arith, v.order);
    told = v.told;
    current = λ e. absurd (omega (arith, v.order));
  }

  pub refresh-IsRegistry : IsRegistry (refresh c)
  unfolding refresh
  refresh-IsRegistry = elim (Bool-cases (c.generation == c.seen)) [
    | inl same ↦ rw same v
    | inr changed ↦ rw changed (record {
      ips = v.ips;
      serials = v.serials;
      order = omega arith;
      told = refl;
      current = λ e. refl;
    })
  ]

-- Routing and counting change neither the registry nor the snapshot.
abbrev pub SameRegistry : Context → Context → Type 0
SameRegistry c c' =
    (c'.entries ≡ c.entries)
    × (c'.generation ≡ c.generation)
    × (c'.observed ≡ c.observed)
    × (c'.snapshot ≡ c.snapshot)
    × (c'.seen ≡ c.seen)

pub route-SameRegistry :
    (port : DataPort) (d : Datagram) (c : Context) → SameRegistry c (route port d c)
unfolding route
route-SameRegistry port d c = elim (Option-cases (find_ip d.from.ip c.snapshot)) [
  | inl unknown ↦ rw (unknown, route) (refl, refl, refl, refl, refl)
  | inr (e, found) ↦ rw (found, route) (refl, refl, refl, refl, refl)
]

SameRegistry-trans : (a b c : Context) → SameRegistry a b → SameRegistry b c → SameRegistry a c
SameRegistry-trans a b c (p, q, r, s, t) (p', q', r', s', t') =
    (p' ∙ p, q' ∙ q, r' ∙ r, s' ∙ s, t' ∙ t)

pub route_from-SameRegistry :
    (port : DataPort) (ds : List Datagram) (c : Context) → SameRegistry c (route_from port ds c)
unfolding route_from
route_from-SameRegistry port [] c = (refl, refl, refl, refl, refl)
route_from-SameRegistry port (d ∷ ds) c =
    SameRegistry-trans c (route port d c) (route_from port ds (route port d c))
      (route-SameRegistry port d c) (route_from-SameRegistry port ds (route port d c))

pub on_batch-SameRegistry :
    (port : DataPort) (ds : List Datagram) (c : Context)
    → SameRegistry (refresh c) (on_batch port ds c)
unfolding on_batch
on_batch-SameRegistry port ds c = route_from-SameRegistry port ds _

IsRegistry-same : (c c' : Context) → SameRegistry c c' → IsRegistry c → IsRegistry c'
IsRegistry-same c c' (entries, generation, observed, snapshot, seen) v = record {
  ips = rw entries v.ips;
  serials = rw entries v.serials;
  order = rw (generation, seen) v.order;
  told = observed ∙ v.told ∙ sym seen;
  current = λ e. rw (snapshot, entries) (v.current (sym seen ∙ e ∙ generation));
}

pub step-IsRegistry : (s : Step) (c : Context) → IsRegistry c → IsRegistry (step s c)
unfolding step
step-IsRegistry (adds ip serial receiver) c v = add-IsRegistry c v ip serial receiver
step-IsRegistry (binds receiver device) c v = bind-IsRegistry c v receiver device
step-IsRegistry (rekeys receiver ip) c v = rekey-IsRegistry c v receiver ip
step-IsRegistry (removes receiver) c v = begin_remove-IsRegistry c v receiver
step-IsRegistry refreshes c v = refresh-IsRegistry c v
step-IsRegistry (receives port ds) c v =
    IsRegistry-same (refresh c) _ (on_batch-SameRegistry port ds c) (refresh-IsRegistry c v)

pub run-IsRegistry : (ss : List Step) (c : Context) → IsRegistry c → IsRegistry (run ss c)
unfolding run
run-IsRegistry [] c v = v
run-IsRegistry (s ∷ ss) c v = run-IsRegistry ss (step s c) (step-IsRegistry s c v)

-- In whatever order threads add, bind, move and remove devices and the receive thread works, no two
-- registered devices share an address or a serial number, and the receive thread's snapshot routes as
-- the registry does whenever the generations agree.
pub run-new_context : (ss : List Step) → IsRegistry (run ss new_context)
run-new_context ss =
    run-IsRegistry ss new_context
      (record { ips = tt; serials = tt; order = omega arith; told = refl; current = λ e. refl })
