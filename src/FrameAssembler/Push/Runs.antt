-- ===== src/FrameAssembler/Push/Runs.antt =====
-- Sequences of operations on one assembler.
use livox_mid360_core.Prelude.{
  ℕ, suc, ◌+◌, ◌%◌, ◌^◌, ◌≡◌, refl, sym, ap, ◌∙◌, ◌⊎◌, inl, inr, List, [], ◌∷◌, length, ok, true,
  false, arith, Result, ◌>>=◌, Bool-cases, Option, none, some, length-append,
}
use livox_mid360_core.Bytes.{All}
use livox_mid360_core.Protocol.Types.{ParseError, DataPacketView}
use livox_mid360_core.FrameAssembler.TimeMapper.{TimestampPolicy}
use livox_mid360_core.FrameAssembler.Points.{Floats, Point, Frame}
use livox_mid360_core.FrameAssembler.Points.Adding.{IsParsed}
use livox_mid360_core.FrameAssembler.State.{
  Assembler, FramePolicy, fresh, is_empty, set_policy, flush, discard, rebase, take_frame,
}
use livox_mid360_core.FrameAssembler.Push.{push}
use livox_mid360_core.FrameAssembler.Push.Stages.{Moves, out_points, stays, taken}
use livox_mid360_core.FrameAssembler.Push.Outcome.{push-Takes, push_unplaced, is_late, is_ignored}

-- What the device calls on its assembler.
pub data Operation : Type 0 where
  push_packet : DataPacketView → ℕ → Operation
  flush_frame : Operation
  discard_frame : Operation
  switch_policy : FramePolicy → Operation
  rebase_clocks : Operation

abbrev pub IsOperation : Operation → Type 0
IsOperation (push_packet pkt recv_time_ns) = IsParsed pkt
IsOperation flush_frame = Unit {0}
IsOperation discard_frame = Unit {0}
IsOperation (switch_policy policy) = Unit {0}
IsOperation rebase_clocks = Unit {0}

abbrev pub with_delivered : {F : Type 0} → Option (Frame F) → List (Frame F) → List (Frame F)
with_delivered none frames = frames
with_delivered (some f) frames = f ∷ frames

-- The frames delivered, with one more perhaps.
abbrev pub after : {F : Type 0} → ℕ → Option (Frame F) → ℕ
after n none = n
after n (some f) = suc n

-- The points of the frames.
abbrev pub points_in : {F : Type 0} → List (Frame F) → ℕ
points_in [] = 0
points_in (f ∷ frames) = length f.points + points_in frames

-- Frames that have points, and the indices from `k` on, at 32 bits.
abbrev pub Numbered : {F : Type 0} → ℕ → List (Frame F) → Type 0
Numbered k [] = Unit {0}
Numbered k (f ∷ frames) =
    (f.index ≡ k % 2 ^ 32) × (is_empty f.points ≡ false) × Numbered (suc k) frames

-- The counters of an assembler that has delivered `frames` frames with `points` points in all.
pub record IsLedger {F : Type 0} (a : Assembler F) (points frames : ℕ) : Type 0 where
  pub point_count : a.counters.points % 2 ^ 64 ≡ (points + length a.cur.points) % 2 ^ 64
  pub frame_count : a.counters.frames ≡ frames % 2 ^ 64
  pub index : a.next_index ≡ frames % 2 ^ 32

module _ (fl : Floats) where
  open fl use {Float}

  abbrev pub step :
      Assembler Float → Operation → Result ParseError (Assembler Float × Option (Frame Float))
  step a (push_packet pkt recv_time_ns) = push fl a pkt recv_time_ns
  step a flush_frame = ok (flush a)
  step a discard_frame = ok (discard a, none)
  step a (switch_policy policy) = ok (set_policy a policy, none)
  step a rebase_clocks = ok (rebase a, none)

  abbrev pub run_operations :
      Assembler Float → List Operation → Result ParseError (Assembler Float × List (Frame Float))
  run_operations a [] = ok (a, [])
  run_operations a (op ∷ ops) = do
    r ← step a op
    s ← run_operations r.0 ops
    ok (s.0, with_delivered r.1 s.1)

  -- What one step does to the ledger, and to the frames that later steps deliver.
  abbrev pub Books : ℕ → ℕ → Result ParseError (Assembler Float × Option (Frame Float)) → Type 0
  Books points frames r =
      (a' : Assembler Float) × (out : Option (Frame Float)) × (r ≡ ok (a', out))
      × IsLedger a' (points + length (out_points out)) (after frames out)
      × ((later : List (Frame Float))
          → Numbered (after frames out) later
          → Numbered frames (with_delivered out later))

  moved :
      (a a' : Assembler Float) (out : Option (Frame Float)) (new : List (Point Float))
      (points frames : ℕ) (r : Result ParseError (Assembler Float × Option (Frame Float)))
      → IsLedger a points frames
      → r ≡ ok (a', out)
      → Moves a a' out new
      → Books points frames r
  moved a a' none new points frames r ledger e moves =
      let size : length a'.cur.points ≡ length a.cur.points + length new =
        ap length moves.kept ∙ length-append a.cur.points new in
      (
        a',
        none,
        e,
        record {
          point_count = omega (arith, size, moves.counted, ledger.point_count);
          frame_count = omega (arith, moves.delivered.1, ledger.frame_count);
          index = omega (arith, moves.delivered.0, ledger.index);
        },
        λ later numbered. numbered,
      )
  moved a a' (some f) new points frames r ledger e moves =
      let size : length f.points + length a'.cur.points ≡ length a.cur.points + length new =
        sym (length-append f.points a'.cur.points)
        ∙ ap length moves.kept
        ∙ length-append a.cur.points new in
      let (i, full, next, count) = moves.delivered in
      (
        a',
        some f,
        e,
        record {
          point_count = omega (arith, size, moves.counted, ledger.point_count);
          frame_count = omega (arith, count, ledger.frame_count);
          index = omega (arith, next, ledger.index);
        },
        λ later numbered. (i ∙ ledger.index, full, numbered),
      )

  unplaced-Books :
      (a : Assembler Float) (pkt : DataPacketView) (recv_time_ns points frames : ℕ)
      → (is_ignored fl pkt.header ≡ true) ⊎ (is_late fl a pkt.header ≡ true)
      → IsLedger a points frames
      → Books points frames (push fl a pkt recv_time_ns)
  unplaced-Books a pkt recv_time_ns points frames why ledger =
      let (a', e, agree, cur, prev, cnt, counted) = push_unplaced fl a pkt recv_time_ns why in
      moved a a' none [] points frames _ ledger e
        (stays a a' agree.points agree.count agree.index agree.frames)

  pub step-Books :
      (a : Assembler Float) (op : Operation) (points frames : ℕ)
      → IsOperation op
      → IsLedger a points frames
      → Books points frames (step a op)
  unfolding flush discard
  step-Books a (push_packet pkt recv_time_ns) points frames parsed ledger =
      elim (Bool-cases (is_ignored fl pkt.header)) [
        | inl ignored ↦ unplaced-Books a pkt recv_time_ns points frames (inl ignored) ledger
        | inr wanted ↦ elim (Bool-cases (is_late fl a pkt.header)) [
          | inl late ↦ unplaced-Books a pkt recv_time_ns points frames (inr late) ledger
          | inr timely ↦
              let (a', out, new, e, moves, size, samples, format, base) =
                push-Takes fl a pkt recv_time_ns parsed wanted timely in
              moved a a' out new points frames _ ledger e moves
        ]
      ]
  step-Books a flush_frame points frames op ledger = elim (Bool-cases (is_empty a.cur.points)) [
    | inl empty ↦
        rw empty (moved a a none [] points frames _ ledger refl (stays a a refl refl refl refl))
    | inr partial ↦ rw partial (
        moved a (take_frame a).0 (some (take_frame a).1) [] points frames _ ledger refl
          (taken a partial))
  ]
  step-Books a discard_frame points frames op ledger = (
    discard a,
    none,
    refl,
    record {
      point_count = omega (arith, ledger.point_count);
      frame_count = ledger.frame_count;
      index = ledger.index;
    },
    λ later numbered. numbered,
  )
  step-Books a (switch_policy policy) points frames op ledger =
      moved a (set_policy a policy) none [] points frames _ ledger refl
        (stays a (set_policy a policy) refl refl refl refl)
  step-Books a rebase_clocks points frames op ledger =
      moved a (rebase a) none [] points frames _ ledger refl
        (stays a (rebase a) refl refl refl refl)

  -- What a run does.
  abbrev pub Runs : ℕ → ℕ → Result ParseError (Assembler Float × List (Frame Float)) → Type 0
  Runs points frames r =
      (end : Assembler Float) × (delivered : List (Frame Float)) × (r ≡ ok (end, delivered))
      × IsLedger end (points + points_in delivered) (frames + length delivered)
      × Numbered frames delivered

  pub count_out :
      (out : Option (Frame Float)) (rest : List (Frame Float)) (points frames : ℕ)
      → (points + length (out_points out) + points_in rest
          ≡ points + points_in (with_delivered out rest))
        × (after frames out + length rest ≡ frames + length (with_delivered out rest))
  count_out none rest points frames = (omega arith, omega arith)
  count_out (some f) rest points frames = (omega arith, omega arith)

  run-Runs :
      (a : Assembler Float) (ops : List Operation) (points frames : ℕ)
      → All IsOperation ops
      → IsLedger a points frames
      → Runs points frames (run_operations a ops)
  run-Runs a [] points frames valid ledger = (
    a,
    [],
    refl,
    record {
      point_count = omega (arith, ledger.point_count);
      frame_count = omega (arith, ledger.frame_count);
      index = omega (arith, ledger.index);
    },
    tt,
  )
  run-Runs a (op ∷ ops) points frames valid ledger =
      let (a', out, e, books, numbers) = step-Books a op points frames valid.0 ledger in
      let (end, rest, er, last, numbered) =
        run-Runs a' ops (points + length (out_points out)) (after frames out) valid.1 books in
      let (p, n) = count_out out rest points frames in
      (
        end,
        with_delivered out rest,
        rw (e, er) refl,
        record {
          point_count = omega (arith, p, last.point_count);
          frame_count = omega (arith, n, last.frame_count);
          index = omega (arith, n, last.index);
        },
        numbers rest numbered,
      )

  -- Any sequence of parsed packets, flushes, discards, policy changes and rebases on a new assembler
  -- runs without a fault. The delivered frames are numbered from 0 on and none is empty; at the end
  -- `counters().frames` and `next_index_` are how many there are, and `counters().points` is the
  -- points that they hold and those of the open frame, without the discarded ones, each modulo the
  -- range of its type.
  pub run-IsLedger :
      (policy : FramePolicy) (timestamps : TimestampPolicy) (ops : List Operation)
      → All IsOperation ops
      → Runs 0 0 (run_operations (fresh policy timestamps) ops)
  run-IsLedger policy timestamps ops valid =
      run-Runs (fresh policy timestamps) ops 0 0 valid
        (record { point_count = refl; frame_count = refl; index = refl })
