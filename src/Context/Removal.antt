-- ===== src/Context/Removal.antt =====
-- What the receive thread hands to a receiver that `remove` took out of the registry.
use livox_mid360_core.Prelude.{
  ℕ, ◌+◌, ◌≤◌, ◌≡◌, ◌==◌, refl, ap, ◌∙◌, Bool-cases, true, false, inl, inr, leb→le, if◌then◌else◌,
  List, [], ◌∷◌, ◌++◌, Option-cases, ==_iff, arith,
}
use livox_mid360_core.Transport.{Datagram}
use livox_mid360_core.Context.{
  DataPort, Context, add, find_receiver, rekey, begin_remove, remove_done, refresh, find_ip, route,
  route_from, on_batch, Step, adds, binds, rekeys, removes, refreshes, receives, step, run,
}
use livox_mid360_core.Context.Distinct.{IsRegistry}
use livox_mid360_core.Context.Registry.{
  run-IsRegistry, begin_remove-IsRegistry, refresh-IsRegistry, route-SameRegistry,
  on_batch-SameRegistry,
}
use livox_mid360_core.Context.Gone.{
  find_ip-other, has_receiver, has_receiver-erase_self, Gone, refresh-Gone, Keeps, step-Gone,
}

module _ (r : ℕ) where
  -- How many datagrams the receive thread handed to it.
  abbrev pub calls_of : List (ℕ × DataPort × Datagram) → ℕ
  calls_of [] = 0
  calls_of ((k, port, d) ∷ calls) = (if k == r then 1 else 0) + calls_of calls

  -- None of the steps registers it again.
  abbrev pub AddsNot : List Step → Type 0
  AddsNot [] = Unit {0}
  AddsNot (adds ip serial k ∷ ss) = ((k == r) ≡ false) × AddsNot ss
  AddsNot (_ ∷ ss) = AddsNot ss

module _ (r : ℕ) where
  calls_of-append :
      (xs ys : List (ℕ × DataPort × Datagram))
      → calls_of r (xs ++ ys) ≡ calls_of r xs + calls_of r ys
  calls_of-append [] ys = omega arith
  calls_of-append ((k, port, d) ∷ xs) ys = omega (arith, calls_of-append xs ys)

  route_silent :
      (port : DataPort) (d : Datagram) (c : Context)
      → has_receiver r c.snapshot ≡ false
      → calls_of r (route port d c).calls ≡ calls_of r c.calls
  unfolding route
  route_silent port d c h = elim (Option-cases (find_ip d.from.ip c.snapshot)) [
    | inl unknown ↦ rw (unknown, route) refl
    | inr (e, found) ↦
        rw (found, route)
          (calls_of-append c.calls ((e.receiver, port, d) ∷ [])
            ∙ rw (find_ip-other r d.from.ip c.snapshot h found) (omega arith))
  ]

  route_from_silent :
      (port : DataPort) (ds : List Datagram) (c : Context)
      → has_receiver r c.snapshot ≡ false
      → calls_of r (route_from port ds c).calls ≡ calls_of r c.calls
  unfolding route_from
  route_from_silent port [] c h = refl
  route_from_silent port (d ∷ ds) c h =
      let (entries, generation, observed, snapshot, seen) = route-SameRegistry port d c in
      route_from_silent port ds (route port d c) (rw snapshot h) ∙ route_silent port d c h

  -- From here on the receive thread has seen the registry without the receiver.
  abbrev Silent : ℕ → Context → Context → Type 0
  Silent target c c' = (calls_of r c'.calls ≡ calls_of r c.calls) × (target ≤ c'.seen)

  refresh-Silent :
      (target : ℕ) (c : Context) → Gone r target c → target ≤ c.seen → Silent target c (refresh c)
  unfolding refresh
  refresh-Silent target c g h = elim (Bool-cases (c.generation == c.seen)) [
    | inl same ↦ rw same (refl, h)
    | inr changed ↦ rw changed (refl, g.later)
  ]

  refresh_done : (target : ℕ) (c : Context) → Gone r target c → target ≤ (refresh c).seen
  unfolding refresh
  refresh_done target c g = elim (Bool-cases (c.generation == c.seen)) [
    | inl same ↦ rw same (
        let e : c.generation ≡ c.seen = (==_iff c.generation c.seen).0 same in
        omega (arith, g.later))
    | inr changed ↦ rw changed g.later
  ]

  add-same :
      (ip serial : List ℕ) (k : ℕ) (c : Context)
      → ((add ip serial k c).0.calls ≡ c.calls) × ((add ip serial k c).0.seen ≡ c.seen)
  unfolding add
  add-same ip serial k c = ground arith

  rekey-same :
      (k : ℕ) (ip : List ℕ) (c : Context)
      → ((rekey k ip c).0.calls ≡ c.calls) × ((rekey k ip c).0.seen ≡ c.seen)
  unfolding rekey
  rekey-same k ip c = elim (Option-cases (find_receiver k c.entries)) [
    | inl gone ↦ rw (gone, rekey) (refl, refl)
    | inr (e, found) ↦ rw (found, rekey) (ground arith)
  ]

  on_batch-Silent :
      (port : DataPort) (ds : List Datagram) (target : ℕ) (c : Context)
      → Gone r target c
      → target ≤ c.seen
      → Silent target c (on_batch port ds c)
  unfolding on_batch
  on_batch-Silent port ds target c g h =
      let (same, kept) = refresh-Silent target c g h in
      let (entries, generation, observed, snapshot, seen) = on_batch-SameRegistry port ds c in
      (route_from_silent port ds _ ((refresh-Gone r target c g).snapshot kept) ∙ same, rw seen kept)

  step-Silent :
      (s : Step) (target : ℕ) (c : Context)
      → Gone r target c
      → target ≤ c.seen
      → Silent target c (step s c)
  unfolding step begin_remove
  step-Silent (adds ip serial k) target c g h =
      let (calls, seen) = add-same ip serial k c in (ap (calls_of r) calls, rw seen h)
  step-Silent (binds k d) target c g h = (refl, h)
  step-Silent (rekeys k ip) target c g h =
      let (calls, seen) = rekey-same k ip c in (ap (calls_of r) calls, rw seen h)
  step-Silent (removes k) target c g h = (refl, h)
  step-Silent refreshes target c g h = refresh-Silent target c g h
  step-Silent (receives port ds) target c g h = on_batch-Silent port ds target c g h

  Keeps-first : (s : Step) (ss : List Step) → AddsNot r (s ∷ ss) → Keeps r s × AddsNot r ss
  Keeps-first (adds ip serial k) ss h = h
  Keeps-first (binds k d) ss h = (tt, h)
  Keeps-first (rekeys k ip) ss h = (tt, h)
  Keeps-first (removes k) ss h = (tt, h)
  Keeps-first refreshes ss h = (tt, h)
  Keeps-first (receives port ds) ss h = (tt, h)

  run-Gone :
      (ss : List Step) (target : ℕ) (c : Context)
      → AddsNot r ss
      → Gone r target c
      → Gone r target (run ss c)
  unfolding run
  run-Gone [] target c h g = g
  run-Gone (s ∷ ss) target c h g =
      let (k, rest) = Keeps-first s ss h in
      run-Gone ss target (step s c) rest (step-Gone r s target c k g)

  run_silent :
      (ss : List Step) (target : ℕ) (c : Context)
      → AddsNot r ss
      → Gone r target c
      → target ≤ c.seen
      → calls_of r (run ss c).calls ≡ calls_of r c.calls
  unfolding run
  run_silent [] target c h g seen = refl
  run_silent (s ∷ ss) target c h g seen =
      let (k, rest) = Keeps-first s ss h in
      let (same, still) = step-Silent s target c g seen in
      run_silent ss target (step s c) rest (step-Gone r s target c k g) still ∙ same

  begin_remove-Gone :
      (c : Context) → IsRegistry c → Gone r (begin_remove r c).1 (begin_remove r c).0
  unfolding begin_remove
  begin_remove-Gone c v = record {
    later = omega arith;
    registry = has_receiver-erase_self r c.entries;
    snapshot = λ h. absurd (omega (arith, v.order));
  }

-- When a receiver is removed and not added again, then from the moment at which `remove` may return,
-- whatever the other threads did meanwhile and do later, the receive thread hands it no datagram.
pub removed-NotCalled :
    (r : ℕ) (c : Context) (before after : List Step)
    → IsRegistry c
    → AddsNot r before
    → AddsNot r after
    → remove_done (begin_remove r c).1 (run before (begin_remove r c).0) ≡ true
    → calls_of r (run after (run before (begin_remove r c).0)).calls
      ≡ calls_of r (run before (begin_remove r c).0).calls
removed-NotCalled r c before after v b a done =
    let g = run-Gone r before (begin_remove r c).1 _ b (begin_remove-Gone r c v) in
    let v' = run-IsRegistry before _ (begin_remove-IsRegistry c v r) in
    run_silent r after (begin_remove r c).1 _ a g (omega (arith, v'.told, leb→le _ _ done))

-- The wait of `remove` ends with the next refresh of the receive thread, whatever the other threads did
-- in between, provided that no step of theirs registers the receiver again.
pub remove_done-refresh :
    (r : ℕ) (c : Context) (between : List Step)
    → IsRegistry c
    → AddsNot r between
    → remove_done (begin_remove r c).1 (refresh (run between (begin_remove r c).0)) ≡ true
remove_done-refresh r c between v b =
    let g = run-Gone r between (begin_remove r c).1 _ b (begin_remove-Gone r c v) in
    let v' = run-IsRegistry between _ (begin_remove-IsRegistry c v r) in
    rw (refresh-IsRegistry _ v').told (ground (arith, refresh_done r (begin_remove r c).1 _ g))
