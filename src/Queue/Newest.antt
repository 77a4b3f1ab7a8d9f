-- ===== src/Queue/Newest.antt =====
-- What a consumer gets from a queue that was filled.
use livox_mid360_core.Prelude.{
  ℕ, zero, suc, ◌+◌, ◌-◌, ◌%◌, ◌^◌, ◌≤◌, ◌<◌, ◌≡◌, ◌↔◌, refl, ap, ◌∙◌, inl, inr, Bool-cases, leb,
  Bool, true, false, none, some, List, [], ◌∷◌, ◌++◌, length, take, drop, Result, ok, fault, ◌>>=◌,
  arith, length-append, length-drop,
}
use mathlib.Core.List.{append_assoc, append-nil}
use livox_mid360_core.Queue.{
  BoundedQueue, empty_queue, make_room, push_item, take_item, try_pop, close,
}

module _ {T : Type 0} where
  abbrev pub push_all : {E : Type 0} → BoundedQueue T → List T → Result E (BoundedQueue T)
  push_all q [] = ok q
  push_all q (x ∷ xs) = do q ← push_item q x; push_all q xs

  -- The items of `n` calls of `try_pop`, while there are any.
  abbrev pub pop_all : ℕ → BoundedQueue T → List T
  pop_all zero q = []
  pop_all (suc n) q =
      let (q', item) = try_pop q in elim item [ none ↦ [] | some x ↦ x ∷ pop_all n q' ]

  pop_items :
      (n : ℕ) (items : List T) (q : BoundedQueue T)
      → pop_all n (record q { items = items }) ≡ take n items
  unfolding take_item
  pop_items zero items q = refl
  pop_items (suc n) [] q = refl
  pop_items (suc n) (x ∷ items) q = ap (◌∷◌ x) (pop_items n items q)

  -- An open queue that has dropped `d` items.
  abbrev open_queue : ℕ → List T → ℕ → BoundedQueue T
  open_queue c items d = record {
    capacity = c;
    items = items;
    dropped = d % 2 ^ 64;
    closed = false;
  }

  push_room :
      {E : Type 0} (c : ℕ) (items : List T) (d : ℕ) (x : T)
      → length items < c
      → push_item {E = E} (open_queue c items d) x ≡ ok (open_queue c (items ++ (x ∷ [])) d)
  unfolding push_item make_room
  push_room c items d x h = let room : leb c (length items) ≡ false = ground arith in rw room

  push_full :
      {E : Type 0} (c : ℕ) (y : T) (items : List T) (d : ℕ) (x : T)
      → c ≤ suc (length items)
      → push_item {E = E} (open_queue c (y ∷ items) d) x
        ≡ ok (open_queue c (items ++ (x ∷ [])) (d + 1))
  unfolding push_item make_room
  push_full c y items d x h =
      let full : leb c (suc (length items)) ≡ true = ground arith in
      let count : (d % 2 ^ 64 + 1) % 2 ^ 64 ≡ (d + 1) % 2 ^ 64 = omega arith in rw (full, count)

  push_all_lem :
      {E : Type 0} (c : ℕ) (items : List T) (d : ℕ) (xs : List T)
      → 0 < c
      → length items ≤ c
      → let all = items ++ xs in
        push_all {E = E} (open_queue c items d) xs
        ≡ ok (open_queue c (drop (length all - c) all) (d + (length all - c)))
  push_all_lem c items d [] pos fits =
      let none_over : length (items ++ []) - c ≡ 0 = omega (arith, ap length (append-nil items)) in
      let same : d + 0 ≡ d = omega arith in rw (none_over, append-nil items, same)
  push_all_lem c [] d (x ∷ xs) pos fits =
      rw (push_room c [] d x pos) (push_all_lem c (x ∷ []) d xs pos pos)
  push_all_lem c (y ∷ items) d (x ∷ xs) pos fits = elim (Bool-cases (leb c (length (y ∷ items)))) [
    | inr room ↦
        let less : length (y ∷ items) < c = ground arith in
        let next : length ((y ∷ items) ++ (x ∷ [])) ≤ c =
          omega (arith, length-append items (x ∷ [])) in
        rw (push_room c (y ∷ items) d x less) (
          push_all_lem c ((y ∷ items) ++ (x ∷ [])) d xs pos next
          ∙ ap (λ all. ok (open_queue c (drop (length all - c) all) (d + (length all - c))))
              (append_assoc (y ∷ items) (x ∷ []) xs))
    | inl full ↦
        let enough : c ≤ suc (length items) = ground arith in
        let next : length (items ++ (x ∷ [])) ≤ c = omega (arith, length-append items (x ∷ [])) in
        let all = items ++ (x ∷ xs) in
        let over : suc (length all) - c ≡ suc (length all - c) =
          omega (arith, length-append items (x ∷ xs)) in
        let count : d + suc (length all - c) ≡ d + 1 + (length all - c) = omega arith in
        rw (push_full c y items d x enough, over, count)
          (push_all_lem c (items ++ (x ∷ [])) (d + 1) xs pos next
            ∙ ap (λ all. ok (open_queue c (drop (length all - c) all) (d + 1 + (length all - c))))
                (append_assoc items (x ∷ []) xs))
  ]

  -- A new queue with a capacity of at least one takes any items without a fault. It then holds the
  -- newest ones, up to its capacity, and has counted the others as dropped. `try_pop` returns them
  -- oldest first, also after `close`, from when on a push changes nothing.
  pub pop_all-push_all :
      {E : Type 0} (c n : ℕ) (xs : List T) (late : T)
      → 0 < c
      → (q : BoundedQueue T) × (push_all {E = E} (empty_queue c) xs ≡ ok q)
        × (length q.items ≤ c)
        × (q.dropped ≡ (length xs - c) % 2 ^ 64)
        × (push_item {E = E} (close q) late ≡ ok (close q))
        × (pop_all n q ≡ take n (drop (length xs - c) xs))
        × (pop_all n (close q) ≡ take n (drop (length xs - c) xs))
  unfolding push_item
  pop_all-push_all c n xs late pos =
      let newest = drop (length xs - c) xs in
      let q = open_queue c newest (length xs - c) in
      let no_more : 0 + (length xs - c) ≡ length xs - c = omega arith in
      (
        q,
        push_all_lem c [] 0 xs pos (omega arith) ∙ ap (λ k. ok (open_queue c newest k)) no_more,
        omega (arith, length-drop (length xs - c) xs),
        refl,
        refl,
        pop_items n newest q,
        pop_items n newest (close q),
      )

  fault_cases :
      {E : Type 0} (closed : Bool) (c d : ℕ) (items : List T) (item : T)
      → (push_item {E = E}
            (record { capacity = c; items = items; dropped = d; closed = closed })
            item
          ≡ fault)
        ↔ ((closed ≡ false) × (c ≡ 0) × (items ≡ []))
  unfolding push_item make_room
  fault_cases true c d items item = (λ e. cc, λ e. cc)
  fault_cases false zero d [] item = (λ e. (refl, refl, refl), λ e. refl)
  fault_cases false (suc c) d [] item =
      let room : leb (suc c) 0 ≡ false = ground arith in
      (rw room (λ e. cc), λ (a, b, e). absurd (omega (arith, b)))
  fault_cases false c d (y ∷ items) item = elim (Bool-cases (leb c (suc (length items)))) [
    | inl full ↦ (rw full (λ e. cc), λ (a, b, e). cc)
    | inr room ↦ (rw room (λ e. cc), λ (a, b, e). cc)
  ]

  -- A push faults exactly on an open queue whose capacity is zero and that is empty: the item that
  -- is to make room for the new one does not exist.
  pub push_item_fault :
      {E : Type 0} (q : BoundedQueue T) (item : T)
      → (push_item {E = E} q item ≡ fault)
        ↔ ((q.closed ≡ false) × (q.capacity ≡ 0) × (q.items ≡ []))
  push_item_fault q item = fault_cases q.closed q.capacity q.dropped q.items item
