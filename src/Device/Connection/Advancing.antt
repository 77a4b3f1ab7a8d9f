-- ===== src/Device/Connection/Advancing.antt =====
-- The steps of a loss in progress.
use mathlib.Core.List.{append-nil}
use livox_mid360_core.Prelude.{
  ℕ, zero, suc, ◌+◌, ◌%◌, ◌^◌, ◌≡◌, refl, sym, ap, ap₂, subst, ◌∙◌, ltb, ◌||◌, Bool, true, false,
  ◌⊎◌, inl, inr, List, [], ◌∷◌, ◌++◌, length, some, arith,
}
use livox_mid360_core.Event.{Event, disconnected, DisconnectReason}
use livox_mid360_core.Device.Connection.{Connection}
use livox_mid360_core.Device.Connection.Threads.{
  Loss, uncounted, unreset, undiscarded, unqueued, step_loss, Threads, advance,
}
use livox_mid360_core.Device.Connection.Events.{link, losses, recoveries}
use livox_mid360_core.Device.Connection.Keeping.{uncounted_in, down, told_up, IsLedger, Goes}

-- What going one step on with a call does: it queues the loss at last.
pub record Advances (ls : List Loss) (c : Connection) (s' : Threads) (es : List Event)
    : Type 0 where
  pub queues : s'.connection.pending ≡ c.pending ++ es
  pub connected : s'.connection.connected ≡ c.connected
  pub attempting : s'.connection.attempting ≡ c.attempting
  pub reconnects : s'.connection.reconnects ≡ c.reconnects
  pub counts :
      (s'.connection.disconnects + uncounted_in s'.losing) % 2 ^ 64
      ≡ (c.disconnects + uncounted_in ls) % 2 ^ 64
  pub leaves : length s'.losing + losses es ≡ length ls
  pub raises :
      (es ≡ []) ⊎ ((time : ℕ) × (reason : DisconnectReason) × (es ≡ disconnected time reason ∷ []))

module _ (enabled : Bool) (time : ℕ) where
  pub step_loss-Advances :
      (l : Loss) (ls : List Loss) (c : Connection)
      → (es : List Event) × Advances (l ∷ ls) c (advance enabled time 0 (l ∷ ls) c) es
  unfolding advance step_loss
  step_loss-Advances (uncounted r) ls c = (
    [],
    record {
      queues = sym (append-nil c.pending);
      connected = refl;
      attempting = refl;
      reconnects = refl;
      counts = omega arith;
      leaves = omega arith;
      raises = inl refl;
    },
  )
  step_loss-Advances (unreset r) ls c = (
    [],
    record {
      queues = sym (append-nil c.pending);
      connected = refl;
      attempting = refl;
      reconnects = refl;
      counts = refl;
      leaves = omega arith;
      raises = inl refl;
    },
  )
  step_loss-Advances (undiscarded r) ls c = (
    [],
    record {
      queues = sym (append-nil c.pending);
      connected = refl;
      attempting = refl;
      reconnects = refl;
      counts = refl;
      leaves = omega arith;
      raises = inl refl;
    },
  )
  step_loss-Advances (unqueued r) ls c = (
    disconnected time r ∷ [],
    record {
      queues = refl;
      connected = refl;
      attempting = refl;
      reconnects = refl;
      counts = refl;
      leaves = omega arith;
      raises = inr (time, r, refl);
    },
  )

  pub uncounted_in-cons :
      (l : Loss) (ls : List Loss) → uncounted_in (l ∷ ls) ≡ uncounted_in (l ∷ []) + uncounted_in ls
  uncounted_in-cons (uncounted r) ls = refl
  uncounted_in-cons (unreset r) ls = omega arith
  uncounted_in-cons (undiscarded r) ls = omega arith
  uncounted_in-cons (unqueued r) ls = omega arith

  pub advance-Advances :
      (k : ℕ) (ls : List Loss) (c : Connection)
      → (es : List Event) × Advances ls c (advance enabled time k ls c) es
  unfolding advance
  advance-Advances k [] c = (
    [],
    record {
      queues = sym (append-nil c.pending);
      connected = refl;
      attempting = refl;
      reconnects = refl;
      counts = refl;
      leaves = refl;
      raises = inl refl;
    },
  )
  advance-Advances zero (l ∷ ls) c = step_loss-Advances l ls c
  advance-Advances (suc k) (l ∷ ls) c =
      let (es, a) = advance-Advances k ls c in
      let s' = advance enabled time k ls c in
      (
        es,
        record {
          queues = a.queues;
          connected = a.connected;
          attempting = a.attempting;
          reconnects = a.reconnects;
          counts = omega (arith, a.counts, uncounted_in-cons l ls, uncounted_in-cons l s'.losing);
          leaves = omega (arith, a.leaves);
          raises = a.raises;
        },
      )

  -- A loss in progress leaves the device told connected until it is queued.
  pub advance-tells :
      (s s' : Threads) (es : List Event)
      → Advances s.losing s.connection s' es
      → (told_up s ≡ true → length s.losing ≡ down s.connection)
      → (es ≡ [])
        ⊎ ((time : ℕ) × (reason : DisconnectReason) × (es ≡ disconnected time reason ∷ []))
      → link (told_up s) es ≡ some (told_up s')
  advance-tells s s' es a bal (inl none_yet) =
      let leaves : length s'.losing + losses [] ≡ length s.losing =
        subst (λ es. length s'.losing + losses es ≡ length s.losing) none_yet a.leaves in
      let same : length s'.losing ≡ length s.losing = omega (arith, leaves) in
      let told : told_up s ≡ told_up s' = ap₂ (λ b n. b || ltb 0 n) (sym a.connected) (sym same) in
      ap (link (told_up s)) none_yet ∙ ap some told
  advance-tells s s' es a bal (inr (time, reason, queued)) =
      let leaves : length s'.losing + losses (disconnected time reason ∷ []) ≡ length s.losing =
        subst (λ es. length s'.losing + losses es ≡ length s.losing) queued a.leaves in
      let more : suc (length s'.losing) ≡ length s.losing = omega (arith, leaves) in
      let up : told_up s ≡ true = ground (arith, more) in
      let balanced = bal up in
      let told : false ≡ told_up s' = ground (arith, more, balanced, a.connected) in
      ap₂ link up queued ∙ ap some told

  pub advance-Goes :
      (k : ℕ) (out : List Event) (s : Threads)
      → IsLedger out s
      → (es : List Event) × Goes false s (advance enabled time k s.losing s.connection) es 0
  advance-Goes k out s v =
      let (es, a) = advance-Advances k s.losing s.connection in
      let s' = advance enabled time k s.losing s.connection in
      let silent : recoveries es ≡ 0 = elim a.raises [
        | inl e ↦ ap recoveries e
        | inr (time, reason, e) ↦ ap recoveries e
      ] in
      (
        es,
        record {
          queues = a.queues;
          enters = omega (arith, a.leaves);
          counts = omega (arith, a.counts);
          finds = a.reconnects ∙ omega (arith, v.found, silent);
          turns = ground (arith, a.connected, silent);
          works = λ n busy. a.connected ∙ v.busy n (sym a.attempting ∙ busy);
          tells = λ timely bal. advance-tells s s' es a bal a.raises;
        },
      )
