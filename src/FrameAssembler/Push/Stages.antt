-- ===== src/FrameAssembler/Push/Stages.antt =====
-- What the stages of `push` do to the points and to the open frame.
use mathlib.Core.List.{append_assoc, append-nil}
use livox_mid360_core.Prelude.{
  ℕ, ◌+◌, ◌%◌, ◌^◌, ◌≡◌, refl, sym, ap, ◌∙◌, ◌⊎◌, inl, inr, List, [], ◌++◌, length, Bool, true,
  false, arith, Bool-cases, Option, none, some, ==_iff,
}
use livox_mid360_core.Protocol.Types.{DataPacketHeader}
use livox_mid360_core.Protocol.DataPacket.{same_type}
use livox_mid360_core.Protocol.DataPacket.Samples.{same_type-eq}
use livox_mid360_core.FrameAssembler.TimeMapper.{add64}
use livox_mid360_core.FrameAssembler.Points.{Point, Frame}
use livox_mid360_core.FrameAssembler.State.{Assembler, is_empty, take_frame}
use livox_mid360_core.FrameAssembler.Push.{closes_always, closes, close_frame, begin_frame}

module _ {F : Type 0} where
  abbrev pub out_points : Option (Frame F) → List (Point F)
  out_points none = []
  out_points (some f) = f.points

  -- A delivered frame has points, and takes the next index.
  abbrev pub Delivers : Assembler F → Assembler F → Option (Frame F) → Type 0
  Delivers a a' none = (a'.next_index ≡ a.next_index) × (a'.counters.frames ≡ a.counters.frames)
  Delivers a a' (some f) =
      (f.index ≡ a.next_index)
      × (is_empty f.points ≡ false)
      × (a'.next_index ≡ (a.next_index + 1) % 2 ^ 32)
      × (a'.counters.frames ≡ add64 a.counters.frames 1)

  -- No point is lost: the points of the open frame and the `new` ones are, in this order, those of
  -- the delivered frame and those of the frame that is then open.
  pub record Moves (a a' : Assembler F) (out : Option (Frame F)) (new : List (Point F))
      : Type 0 where
    pub kept : out_points out ++ a'.cur.points ≡ a.cur.points ++ new
    pub counted : a'.counters.points % 2 ^ 64 ≡ (a.counters.points + length new) % 2 ^ 64
    pub delivered : Delivers a a' out

  pub stays :
      (a a' : Assembler F)
      → a'.cur.points ≡ a.cur.points
      → a'.counters.points ≡ a.counters.points
      → a'.next_index ≡ a.next_index
      → a'.counters.frames ≡ a.counters.frames
      → Moves a a' none []
  stays a a' points count index frames = record {
    kept = points ∙ sym (append-nil a.cur.points);
    counted = omega (arith, count);
    delivered = (index, frames);
  }

  pub taken :
      (a : Assembler F)
      → is_empty a.cur.points ≡ false
      → Moves a (take_frame a).0 (some (take_frame a).1) []
  unfolding take_frame
  taken a h = record { kept = refl; counted = omega arith; delivered = (refl, h, refl, refl) }

  -- Two assemblers that agree on the points, and on what numbers the frames.
  pub record Agree (a b : Assembler F) : Type 0 where
    pub points : b.cur.points ≡ a.cur.points
    pub count : b.counters.points ≡ a.counters.points
    pub index : b.next_index ≡ a.next_index
    pub frames : b.counters.frames ≡ a.counters.frames

  pub Delivers-Agree :
      (a d a' c : Assembler F) (out : Option (Frame F))
      → a.next_index ≡ d.next_index
      → a.counters.frames ≡ d.counters.frames
      → c.next_index ≡ a'.next_index
      → c.counters.frames ≡ a'.counters.frames
      → Delivers d a' out
      → Delivers a c out
  Delivers-Agree a d a' c none i f i' f' (x, y) = (i' ∙ x ∙ sym i, f' ∙ y ∙ sym f)
  Delivers-Agree a d a' c (some o) i f i' f' (x, y, z, w) = (
    x ∙ sym i,
    y,
    i' ∙ z ∙ ap (λ k. (k + 1) % 2 ^ 32) (sym i),
    f' ∙ w ∙ ap (λ k. add64 k 1) (sym f),
  )

  -- Points that are put behind those of a move.
  pub then_add :
      (a d a' c : Assembler F) (out : Option (Frame F)) (new : List (Point F))
      → Agree a d
      → Moves d a' out []
      → c.cur.points ≡ a'.cur.points ++ new
      → c.counters.points ≡ add64 a'.counters.points (length new)
      → c.next_index ≡ a'.next_index
      → c.counters.frames ≡ a'.counters.frames
      → Moves a c out new
  then_add a d a' c out new agree moves points count index frames = record {
    kept =
        ap (◌++◌ (out_points out)) points
        ∙ sym (append_assoc (out_points out) a'.cur.points new)
        ∙ ap (λ ps. ps ++ new) (moves.kept ∙ append-nil d.cur.points ∙ agree.points);
    counted = omega (arith, count, moves.counted, agree.count);
    delivered =
        Delivers-Agree a d a' c out (sym agree.index) (sym agree.frames) index frames
          moves.delivered;
  }

  -- The open frame can take points of this format and time base.
  abbrev pub Ready : Assembler F → DataPacketHeader → Type 0
  Ready a h =
      (is_empty a.cur.points ≡ true)
      ⊎ ((same_type h.data_type a.cur.source_type ≡ true) × (h.time_type ≡ a.cur.time_type))

  closes_ready :
      (a : Assembler F) (h : DataPacketHeader) (changed : Bool) (t₀ : ℕ)
      → (closes a h changed t₀).0 ≡ false
      → (same_type h.data_type a.cur.source_type ≡ true) × (h.time_type ≡ a.cur.time_type)
  unfolding closes closes_always
  closes_ready a h changed t₀ e = (ground arith, ground (arith, ==_iff h.time_type a.cur.time_type))

  pub close_frame_lem :
      (a : Assembler F) (h : DataPacketHeader) (changed : Bool) (t₀ : ℕ)
      → Moves a (close_frame a h changed t₀).0 (close_frame a h changed t₀).1 []
        × Ready (close_frame a h changed t₀).0 h
  unfolding close_frame
  close_frame_lem a h changed t₀ = elim (Bool-cases (is_empty a.cur.points)) [
    | inl empty ↦ rw empty (stays a a refl refl refl refl, inl empty)
    | inr partial ↦ rw partial (elim (Bool-cases (closes a h changed t₀).0) [
      | inl close ↦ rw close (taken a partial, inl (unfold take_frame in refl))
      | inr on ↦ rw on (stays a a refl refl refl refl, inr (closes_ready a h changed t₀ on))
    ])
  ]

  -- What `begin_frame` keeps, and the format of the frame that is then open.
  pub record Begun (a b : Assembler F) (h : DataPacketHeader) : Type 0 where
    pub points : b.cur.points ≡ a.cur.points
    pub count : b.counters.points ≡ a.counters.points
    pub frames : b.counters.frames ≡ a.counters.frames
    pub index : b.next_index ≡ a.next_index
    pub source_type : b.cur.source_type ≡ h.data_type
    pub time_type : b.cur.time_type ≡ h.time_type

  pub begin_frame_lem :
      (a : Assembler F) (h : DataPacketHeader) (on_grid : Bool) (t₀ : ℕ)
      → Ready a h
      → Begun a (begin_frame a h on_grid t₀) h
  unfolding begin_frame
  begin_frame_lem a h on_grid t₀ ready = elim (Bool-cases (is_empty a.cur.points)) [
    | inl empty ↦ rw empty (record {
      points = refl;
      count = refl;
      frames = refl;
      index = refl;
      source_type = refl;
      time_type = refl;
    })
    | inr partial ↦ rw partial (elim ready [
      | inl empty ↦ cc
      | inr (same, time) ↦ record {
        points = refl;
        count = refl;
        frames = refl;
        index = refl;
        source_type = sym (same_type-eq _ _ same);
        time_type = sym time;
      }
    ])
  ]
