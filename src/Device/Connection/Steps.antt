-- ===== src/Device/Connection/Steps.antt =====
-- The steps of a connection that enter a loss, or belong to an attempt.
use mathlib.Core.List.{append-nil}
use livox_mid360_core.Prelude.{
  ℕ, ◌+◌, ◌%◌, ◌^◌, ◌≡◌, refl, sym, ap, subst, ◌∙◌, ltb, ◌||◌, Bool, true, false, if◌then◌else◌,
  inl, inr, List, [], ◌∷◌, length, Option, Option-cases, none, some, arith,
}
use livox_mid360_core.Event.{Event, reconnected, DisconnectReason}
use livox_mid360_core.Device.Connection.{
  Connection, lose, begin_attempt, begun, finish_attempt, finished,
}
use livox_mid360_core.Device.Connection.Threads.{uncounted, Threads, enter_loss}
use livox_mid360_core.Device.Connection.Events.{link}
use livox_mid360_core.Device.Connection.Keeping.{uncounted_in, told_up, IsLedger, Goes}

pub either {ℓ} :
    {A : Type ℓ} (P : A → Type 0) (b : Bool) (x y : A)
    → (b ≡ true → P x)
    → (b ≡ false → P y)
    → P (if b then x else y)
either P true x y f g = f refl
either P false x y f g = g refl

-- The state after a step, the events that it queues, and the calls that it enters.
module _ (out : List Event) (s : Threads) (v : IsLedger out s) where
  -- A step on other fields.
  pub keeps-Goes :
      (over : Bool) (c' : Connection)
      → c'.connected ≡ s.connection.connected
      → c'.pending ≡ s.connection.pending
      → c'.disconnects ≡ s.connection.disconnects
      → c'.reconnects ≡ s.connection.reconnects
      → ((n : ℕ) → c'.attempting ≡ some n → c'.connected ≡ false)
      → Goes over s (record s { connection = c' }) [] 0
  keeps-Goes over c' up queue lost found works = record {
    queues = queue ∙ sym (append-nil s.connection.pending);
    enters = omega arith;
    counts = ap (λ d. (d + uncounted_in s.losing) % 2 ^ 64) lost ∙ omega arith;
    finds = found ∙ omega (arith, v.found);
    turns = ground (arith, up);
    works = works;
    tells = λ timely bal. ap (λ b. some (b || ltb 0 (length s.losing))) (sym up);
  }

  pub stays-Goes : (over : Bool) → Goes over s s [] 0
  stays-Goes over = keeps-Goes over s.connection refl refl refl refl v.busy

  -- A step that changes the connection to `c'`, by an equation.
  pub by_equation :
      (over : Bool) (f : Connection) (c' : Connection) (es : List Event)
      → f ≡ c'
      → Goes over s (record s { connection = c' }) es 0
      → Goes over s (record s { connection = f }) es 0
  by_equation over f c' es e g =
      subst (λ c. Goes over s (record s { connection = c }) es 0) (sym e) g

  pub entered :
      (reason : DisconnectReason)
      → s.connection.connected ≡ true
      → Goes false s
          (record {
            connection = record s.connection { connected = false };
            losing = uncounted reason ∷ s.losing;
          })
          []
          1
  entered reason up = record {
    queues = sym (append-nil s.connection.pending);
    enters = omega arith;
    counts = omega arith;
    finds = omega (arith, v.found);
    turns = ground (arith, up);
    works = λ k busy. refl;
    tells = λ timely bal. ground (arith, up);
  }

  pub enter_loss-Goes :
      (reason : DisconnectReason) → (n : ℕ) × Goes false s (enter_loss reason s) [] n
  unfolding enter_loss lose
  enter_loss-Goes reason =
      either
        (λ (r : Connection × Bool).
          (n : ℕ) × Goes false s
            (record {
              connection = r.0;
              losing = (if r.1 then uncounted reason ∷ s.losing else s.losing);
            })
            [] n)
        s.connection.connected _ _ (λ up. (1, entered reason up)) (λ lost. (0, stays-Goes false))

  pub begin-Goes : Goes false s (record s { connection = begin_attempt s.connection }) [] 0
  unfolding begin_attempt
  begin-Goes = elim (Option-cases s.connection.attempting) [
    | inr (n, busy) ↦
        by_equation false _ s.connection []
          (ap
            (λ (o : Option ℕ). elim o [
              | some n ↦ s.connection
              | none ↦ if s.connection.connected then s.connection else begun s.connection
            ])
            busy)
          (stays-Goes false)
    | inl idle ↦
        by_equation false _ _ []
          (ap
            (λ (o : Option ℕ). elim o [
              | some n ↦ s.connection
              | none ↦ if s.connection.connected then s.connection else begun s.connection
            ])
            idle)
          (either (λ c'. Goes false s (record s { connection = c' }) [] 0) s.connection.connected _
            (begun s.connection) (λ up. stays-Goes false)
            (λ lost. keeps-Goes false _ refl refl refl refl (λ n h. lost)))
  ]

  pub finish-Goes :
      (now time : ℕ)
      → (es : List Event) × Goes
          (ltb 0 (length s.losing))
          s
          (record s { connection = finish_attempt now time s.connection })
          es
          0
  unfolding finish_attempt
  finish-Goes now time = elim (Option-cases s.connection.attempting) [
    | inl idle ↦ (
      [],
      by_equation (ltb 0 (length s.losing)) _ s.connection []
          (ap
            (λ (o : Option ℕ). elim o [
              | none ↦ s.connection
              | some n ↦ finished now time n s.connection
            ])
            idle)
          (stays-Goes (ltb 0 (length s.losing))),
    )
    | inr (n, busy) ↦ (
      reconnected time n ∷ [],
      by_equation (ltb 0 (length s.losing)) _ (finished now time n s.connection)
          (reconnected time n ∷ []) (rw (busy, finish_attempt) refl)
          (record {
            queues = refl;
            enters = omega arith;
            counts = omega arith;
            finds = refl;
            turns = ground (arith, v.busy n busy);
            works = λ k h. cc;
            tells = λ timely bal.
                let told : told_up s ≡ false = ground (arith, timely, v.busy n busy) in
                ap (λ b. link b (reconnected time n ∷ [])) told;
          }),
    )
  ]
