-- ===== src/Device/Streams/Kept.antt =====
-- What one input leaves of the ledger of the assembler, as far as no packet of points is read.
use livox_mid360_core.Prelude.{
  ℕ, zero, suc, ◌+◌, ◌<◌, ◌≡◌, ◌∙◌, refl, sym, ap, subst, Bool, true, false, if◌then◌else◌, List,
  [], ◌∷◌, ◌++◌, length, Option, none, some, Result, ok, ◌>>=◌, arith, is_ok_value,
}
use livox_mid360_core.Protocol.Types.{ParseError, imu, DataPacketView}
use livox_mid360_core.Protocol.DataPacket.{decode_imu, sample_timestamp_ns}
use livox_mid360_core.Protocol.DataPacket.Samples.{DecodesAt}
use livox_mid360_core.FrameAssembler.Points.{Frame}
use livox_mid360_core.FrameAssembler.TimeMapper.{TimestampPolicy, add64, sub64}
use livox_mid360_core.FrameAssembler.State.{Assembler, FramePolicy, discard}
use livox_mid360_core.FrameAssembler.Push.Stages.{out_points}
use livox_mid360_core.FrameAssembler.Push.Runs.{
  IsLedger, Numbered, points_in, with_delivered, after,
}
use livox_mid360_core.Device.Streams.{
  Streams, Requests, Output, packet_out, imu_out, frame_out, debug_out, take_discard, take_rebase,
  take_policy, consume_requests, publish_assembler_counters, deliver, imu_outputs, imu_time, on_imu,
}

-- The frames among the outputs.
abbrev pub frames_of : {F : Type 0} → List (Output F) → List (Frame F)
frames_of [] = []
frames_of (frame_out f ∷ outs) = f ∷ frames_of outs
frames_of (_ ∷ outs) = frames_of outs

module _ {F : Type 0} where
  pub frames_of-append :
      (xs ys : List (Output F)) → frames_of (xs ++ ys) ≡ frames_of xs ++ frames_of ys
  frames_of-append [] ys = refl
  frames_of-append (frame_out f ∷ xs) ys = ap (◌∷◌ f) (frames_of-append xs ys)
  frames_of-append (packet_out p t e ∷ xs) ys = frames_of-append xs ys
  frames_of-append (imu_out t x ∷ xs) ys = frames_of-append xs ys
  frames_of-append (debug_out b t e ∷ xs) ys = frames_of-append xs ys

  -- What one input does to the ledger, and to the frames that later inputs deliver.
  abbrev pub Kept : ℕ → ℕ → Result ParseError (Streams F × List (Output F)) → Type 0
  Kept points frames r =
      (s : Streams F) × (outs : List (Output F)) × (r ≡ ok (s, outs))
      × IsLedger s.assembler (points + points_in (frames_of outs))
          (frames + length (frames_of outs))
      × ((later : List (Frame F))
          → Numbered (frames + length (frames_of outs)) later
          → Numbered frames (frames_of outs ++ later))

  -- Nothing is delivered.
  pub silent :
      (points frames : ℕ) (s : Streams F) (outs : List (Output F))
      → frames_of outs ≡ []
      → IsLedger s.assembler points frames
      → Kept points frames (ok (s, outs))
  silent points frames s outs e v = (
    s,
    outs,
    refl,
    rw e (record {
      point_count = omega (arith, v.point_count);
      frame_count = omega (arith, v.frame_count);
      index = omega (arith, v.index);
    }),
    λ later n. rw e (subst (λ k. Numbered k later) (omega (arith, ap length e)) n),
  )

  discard-IsLedger :
      (a : Assembler F) (points frames : ℕ)
      → IsLedger a points frames
      → IsLedger (discard a) points frames
  unfolding discard
  discard-IsLedger a points frames v = record {
    point_count = omega (arith, v.point_count);
    frame_count = v.frame_count;
    index = v.index;
  }

  pub consume-IsLedger :
      (r : Requests) (s : Streams F) (points frames : ℕ)
      → IsLedger s.assembler points frames
      → IsLedger (consume_requests r s).assembler points frames
  unfolding consume_requests
  consume-IsLedger r s points frames v =
      policed r.policy _ (rebased r.rebases _ (discarded r.discards v))
    where
      discarded :
          (b : Bool)
          → IsLedger s.assembler points frames
          → IsLedger (take_discard b s).assembler points frames
      discarded false v = v
      discarded true v = discard-IsLedger s.assembler points frames v

      rebased :
          (b : Bool) (s : Streams F)
          → IsLedger s.assembler points frames
          → IsLedger (take_rebase b s).assembler points frames
      rebased false s v = v
      rebased true s v = record {
        point_count = v.point_count;
        frame_count = v.frame_count;
        index = v.index;
      }

      policed :
          (p : Option FramePolicy) (s : Streams F)
          → IsLedger s.assembler points frames
          → IsLedger (take_policy p s).assembler points frames
      policed none s v = v
      policed (some p) s v = record {
        point_count = v.point_count;
        frame_count = v.frame_count;
        index = v.index;
      }

  imu_outputs-total :
      (pkt : DataPacketView) (t₀ n i : ℕ)
      → ((k : ℕ) → k < i + n → DecodesAt imu pkt k)
      → (outs : List (Output F)) × (imu_outputs pkt t₀ n i ≡ ok outs) × (frames_of outs ≡ [])
  unfolding imu_outputs
  imu_outputs-total pkt t₀ zero i h = ([], refl, refl)
  imu_outputs-total pkt t₀ (suc n) i h =
      let (x, e) = is_ok_value (decode_imu pkt i) (h i (omega arith)) in
      let (outs, er, none') = imu_outputs-total pkt t₀ n (i + 1) (λ k below. h k (omega arith)) in
      (
        imu_out (add64 t₀ (sub64 (sample_timestamp_ns pkt.header i) pkt.header.timestamp_ns)) x
            ∷ outs,
        rw (e, er) refl,
        none',
      )

  -- The frame of one operation of the assembler goes to its callback.
  pub delivered :
      (s : Streams F) (a : Assembler F) (out : Option (Frame F)) (points frames : ℕ)
      → IsLedger a (points + length (out_points out)) (after frames out)
      → ((later : List (Frame F))
          → Numbered (after frames out) later
          → Numbered frames (with_delivered out later))
      → Kept points frames (ok (deliver s (a, out)))
  unfolding publish_assembler_counters
  delivered s a none points frames v n = (
    _,
    [],
    refl,
    record {
      point_count = omega (arith, v.point_count);
      frame_count = omega (arith, v.frame_count);
      index = omega (arith, v.index);
    },
    λ later h. n later (subst (λ k. Numbered k later) (omega arith) h),
  )
  delivered s a (some f) points frames v n = (
    _,
    frame_out f ∷ [],
    refl,
    record {
      point_count = omega (arith, v.point_count);
      frame_count = omega (arith, v.frame_count);
      index = omega (arith, v.index);
    },
    λ later h. n later (subst (λ k. Numbered k later) (omega arith) h),
  )

  -- Other outputs before those of a step.
  pub framed :
      (points frames : ℕ) (r : Result ParseError (Streams F × List (Output F))) (o : Output F)
      → frames_of (o ∷ []) ≡ []
      → Kept points frames r
      → Kept points frames (r >>= λ x. ok (x.0, o ∷ x.1))
  framed points frames r o e (s, outs, er, v, n) =
      let same : frames_of (o ∷ outs) ≡ frames_of outs =
        frames_of-append (o ∷ []) outs ∙ ap (λ fs. fs ++ frames_of outs) e in
      (
        s,
        o ∷ outs,
        ap (λ x. x >>= λ y. ok (y.0, o ∷ y.1)) er,
        subst (λ fs. IsLedger s.assembler (points + points_in fs) (frames + length fs)) (sym same)
            v,
        subst
            (λ fs.
              (later : List (Frame F))
              → Numbered (frames + length fs) later
              → Numbered frames (fs ++ later))
            (sym same) n,
      )

  pub on_imu-Kept :
      (timestamps : TimestampPolicy) (pkt : DataPacketView) (recv_time : ℕ) (s : Streams F)
      (points frames : ℕ)
      → ((k : ℕ) → k < pkt.header.dot_num → DecodesAt imu pkt k)
      → IsLedger s.assembler points frames
      → Kept points frames (on_imu timestamps pkt recv_time s)
  unfolding on_imu publish_assembler_counters
  on_imu-Kept timestamps pkt recv_time s points frames h v =
      let (outs, e, none') =
        imu_outputs-total pkt (imu_time timestamps s.assembler.time pkt.header recv_time).1
          pkt.header.dot_num 0 (λ k below. h k (omega arith)) in
      rw e (
        silent points frames _ outs none'
          (record { point_count = v.point_count; frame_count = v.frame_count; index = v.index }))

  pub points_in-append :
      (xs ys : List (Frame F)) → points_in (xs ++ ys) ≡ points_in xs + points_in ys
  points_in-append [] ys = omega arith
  points_in-append (f ∷ xs) ys = omega (arith, points_in-append xs ys)

  pub choose :
      (points frames : ℕ) (b : Bool) (x y : Result ParseError (Streams F × List (Output F)))
      → (b ≡ true → Kept points frames x)
      → (b ≡ false → Kept points frames y)
      → Kept points frames (if b then x else y)
  choose points frames true x y f g = f refl
  choose points frames false x y f g = g refl
