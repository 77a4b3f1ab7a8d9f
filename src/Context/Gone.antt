-- ===== src/Context/Gone.antt =====
-- A receiver that the registry has lost, along the steps of all threads.
use livox_mid360_core.Prelude.{
  ℕ, ◌≤◌, ◌≡◌, ◌==◌, ◌||◌, refl, Bool, Bool-cases, false, inl, inr, List, [], ◌∷◌, ◌++◌,
  Option-cases, some, arith,
}
use livox_mid360_core.Transport.{same_bytes}
use livox_mid360_core.Context.{
  Entry, Context, has_ip, has_serial, add, bind_entries, find_receiver, move_entry, rekey,
  erase_receiver, begin_remove, refresh, find_ip, Step, adds, binds, rekeys, removes, refreshes,
  receives, step,
}
use livox_mid360_core.Context.Registry.{SameRegistry, on_batch-SameRegistry}

module _ (r : ℕ) where
  unfoldable pub has_receiver : List Entry → Bool
  has_receiver [] = false
  has_receiver (e ∷ es) = e.receiver == r || has_receiver es

module _ (r : ℕ) where
  has_receiver-append :
      (es : List Entry) (e : Entry)
      → has_receiver r es ≡ false
      → (e.receiver == r) ≡ false
      → has_receiver r (es ++ (e ∷ [])) ≡ false
  unfolding has_receiver
  has_receiver-append [] e h k = rw k refl
  has_receiver-append (x ∷ es) e h k = ground (arith, has_receiver-append es e)

  has_receiver-bind :
      (k d : ℕ) (es : List Entry)
      → has_receiver r es ≡ false
      → has_receiver r (bind_entries k d es) ≡ false
  unfolding has_receiver bind_entries
  has_receiver-bind k d [] h = refl
  has_receiver-bind k d (e ∷ es) h = ground (arith, has_receiver-bind k d es)

  has_receiver-move :
      (k : ℕ) (ip : List ℕ) (es : List Entry)
      → has_receiver r es ≡ false
      → has_receiver r (move_entry k ip es) ≡ false
  unfolding has_receiver move_entry
  has_receiver-move k ip [] h = refl
  has_receiver-move k ip (e ∷ es) h = ground (arith, has_receiver-move k ip es)

  has_receiver-erase :
      (k : ℕ) (es : List Entry)
      → has_receiver r es ≡ false
      → has_receiver r (erase_receiver k es) ≡ false
  unfolding has_receiver erase_receiver
  has_receiver-erase k [] h = refl
  has_receiver-erase k (e ∷ es) h = ground (arith, has_receiver-erase k es)

  -- Every entry of the receiver is erased.
  pub has_receiver-erase_self : (es : List Entry) → has_receiver r (erase_receiver r es) ≡ false
  unfolding has_receiver erase_receiver
  has_receiver-erase_self [] = refl
  has_receiver-erase_self (e ∷ es) = ground (arith, has_receiver-erase_self es)

  -- The registry has lost the receiver; the snapshot has too from generation `target` on.
  pub record Gone (target : ℕ) (c : Context) : Type 0 where
    pub later : target ≤ c.generation
    pub registry : has_receiver r c.entries ≡ false
    pub snapshot : target ≤ c.seen → has_receiver r c.snapshot ≡ false

  module _ (target : ℕ) (c : Context) (g : Gone target c) where
    add-Gone : (ip serial : List ℕ) (k : ℕ) → (k == r) ≡ false → Gone target (add ip serial k c).0
    unfolding add
    add-Gone ip serial k h = elim (Bool-cases (has_ip c.entries ip)) [
      | inl taken ↦ rw taken g
      | inr free ↦ elim (Bool-cases (has_serial c.entries serial)) [
        | inl known ↦ rw (free, known) g
        | inr new ↦
            rw (free, new)
              (record {
                later = omega (arith, g.later);
                registry = has_receiver-append c.entries _ g.registry h;
                snapshot = g.snapshot;
              })
      ]
    ]

    rekey-Gone : (k : ℕ) (ip : List ℕ) → Gone target (rekey k ip c).0
    unfolding rekey
    rekey-Gone k ip = elim (Option-cases (find_receiver k c.entries)) [
      | inl none' ↦ rw (none', rekey) g
      | inr (e, found) ↦ elim (Bool-cases (same_bytes e.ip ip)) [
        | inl same ↦ rw (found, rekey, same) g
        | inr other ↦ elim (Bool-cases (has_ip c.entries ip)) [
          | inl taken ↦ rw (found, rekey, other, taken) g
          | inr free ↦
              rw (found, rekey, other, free)
                (record {
                  later = omega (arith, g.later);
                  registry = has_receiver-move k ip c.entries g.registry;
                  snapshot = g.snapshot;
                })
        ]
      ]
    ]

    pub refresh-Gone : Gone target (refresh c)
    unfolding refresh
    refresh-Gone = elim (Bool-cases (c.generation == c.seen)) [
      | inl same ↦ rw same g
      | inr changed ↦
          rw changed (record { later = g.later; registry = g.registry; snapshot = λ h. g.registry })
    ]

  pub Gone-same : (target : ℕ) (c c' : Context) → SameRegistry c c' → Gone target c → Gone target c'
  Gone-same target c c' (entries, generation, observed, snapshot, seen) g = record {
    later = rw generation g.later;
    registry = rw entries g.registry;
    snapshot = λ h. rw snapshot (g.snapshot (rw (← seen) h));
  }

  -- A step that does not register the receiver again.
  abbrev pub Keeps : Step → Type 0
  Keeps (adds ip serial k) = (k == r) ≡ false
  Keeps _ = Unit {0}

  pub step-Gone :
      (s : Step) (target : ℕ) (c : Context) → Keeps s → Gone target c → Gone target (step s c)
  unfolding step begin_remove
  step-Gone (adds ip serial k) target c h g = add-Gone target c g ip serial k h
  step-Gone (binds k d) target c h g = record {
    later = g.later;
    registry = has_receiver-bind k d c.entries g.registry;
    snapshot = g.snapshot;
  }
  step-Gone (rekeys k ip) target c h g = rekey-Gone target c g k ip
  step-Gone (removes k) target c h g = record {
    later = omega (arith, g.later);
    registry = has_receiver-erase k c.entries g.registry;
    snapshot = g.snapshot;
  }
  step-Gone refreshes target c h g = refresh-Gone target c g
  step-Gone (receives port ds) target c h g =
      Gone-same target (refresh c) _ (on_batch-SameRegistry port ds c) (refresh-Gone target c g)

  pub find_ip-other :
      (ip : List ℕ) (es : List Entry) {e : Entry}
      → has_receiver r es ≡ false
      → find_ip ip es ≡ some e
      → (e.receiver == r) ≡ false
  unfolding has_receiver find_ip
  find_ip-other ip [] h f = cc
  find_ip-other ip (x ∷ es) h f = elim (Bool-cases (same_bytes x.ip ip)) [
    | inl same ↦ ground arith
    | inr other ↦ find_ip-other ip es (ground arith) (rw other at f)
  ]
