-- ===== src/Queue.antt =====
-- `BoundedQueue` of include/livox/mid360/frame.hpp. Each operation holds the mutex, so it is one step
-- on the state; `pop` is its step after the wait.
pub mod Newest
use livox_mid360_core.Prelude.{
  ℕ, ◌+◌, ◌%◌, ◌^◌, leb, Bool, true, false, if◌then◌else◌, Option, none, some, List, [], ◌∷◌, ◌++◌,
  length, Result, ok, fault, ◌>>=◌,
}

pub record BoundedQueue (T : Type 0) : Type 0 where
  pub capacity : ℕ
  pub items : List T
  pub dropped : ℕ
  pub closed : Bool

module _ {T : Type 0} where
  -- The constructor.
  abbrev pub empty_queue : ℕ → BoundedQueue T
  empty_queue capacity = record { capacity = capacity; items = []; dropped = 0; closed = false }

  -- `items_.pop_front()`, which is undefined on an empty deque.
  abbrev pub pop_front : {E : Type 0} → List T → Result E (List T)
  pop_front [] = fault
  pop_front (x ∷ items) = ok items

  -- The oldest item makes room, if the queue is full.
  unfoldable pub make_room : {E : Type 0} → BoundedQueue T → Result E (BoundedQueue T)
  make_room q =
      if leb q.capacity (length q.items)
      then (do
        items ← pop_front q.items
        ok (record q { items = items; dropped = (q.dropped + 1) % 2 ^ 64 }))
      else ok q

  unfoldable pub push_item : {E : Type 0} → BoundedQueue T → T → Result E (BoundedQueue T)
  push_item q item =
      if q.closed
      then ok q
      else (do q ← make_room q; ok (record q { items = q.items ++ (item ∷ []) }))

  unfoldable pub take_item : BoundedQueue T → BoundedQueue T × Option T
  take_item q = elim q.items [
    | [] ↦ (q, none)
    | item ∷ items ↦ (record q { items = items }, some item)
  ]

  abbrev pub try_pop : BoundedQueue T → BoundedQueue T × Option T
  try_pop q = take_item q

  abbrev pub close : BoundedQueue T → BoundedQueue T
  close q = record q { closed = true }
