-- ===== src/Recording/ReadAll.antt =====
-- Reading every package of a recording.
use livox_mid360_core.Prelude.{
  ℕ, zero, suc, ◌+◌, ◌^◌, ◌≤◌, ◌<◌, ◌≡◌, refl, sym, ap, ◌∙◌, subst, List, [], ◌∷◌, ◌++◌, length,
  drop, true, false, ltb, ◌==◌, none, some, Result, ok, err, ◌>>=◌, arith, length-append,
  length-drop, drop-append, drop-drop,
}
use livox_mid360_core.Bytes.{All}
use livox_mid360_core.Recording.{invalid_argument, Lvx2Error, Lvx2Packet, Stdio}
use livox_mid360_core.Recording.Reader.{
  Reader, note_partial, read_some, load_frame, next_package, next_packet,
}
use livox_mid360_core.Recording.Layout.{
  IsPackage, package_wire, packages_wire, frames_wire, frames_size,
}
use livox_mid360_core.Recording.Read.{IsReliable, IsAhead, read_package_lem, load_frame_lem}

-- A frame that a writer cuts holds a package at least.
abbrev pub IsFrame : List Lvx2Packet → Type 0
IsFrame f = (0 < length f) × All IsPackage f

abbrev pub with_index : ℕ → List Lvx2Packet → List Lvx2Packet
with_index idx [] = []
with_index idx (p ∷ ps) = record p { frame_index = idx } ∷ with_index idx ps

-- The packets of the frames, each with the index of its frame.
abbrev pub indexed : ℕ → List (List Lvx2Packet) → List Lvx2Packet
indexed idx [] = []
indexed idx (f ∷ fs) = with_index idx f ++ indexed (idx + 1) fs

abbrev pub count_of : List (List Lvx2Packet) → ℕ
count_of [] = 0
count_of (f ∷ fs) = length f + count_of fs

module _ (stdio : Stdio) where
  -- A client's loop: packets are taken until there is none, or `n` times.
  abbrev pub read_packets : ℕ → Reader → Result Lvx2Error (Reader × List Lvx2Packet)
  read_packets zero r = ok (r, [])
  read_packets (suc n) r = do
    (r', x) ← next_packet stdio r
    elim x [ none ↦ ok (r', []) | some p ↦ do (r'', ps) ← read_packets n r'; ok (r'', p ∷ ps) ]

-- How a whole recording is read from a reader.
abbrev pub AllRead : Reader → List Lvx2Packet → Result Lvx2Error (Reader × List Lvx2Packet) → Type 0
AllRead r expected result =
    (r' : Reader) × (result ≡ ok (r', expected)) × (r'.done ≡ true) × (r'.truncated ≡ r.truncated)

module _ (stdio : Stdio) (reliable : IsReliable stdio) where
  nothing_loaded : (r : Reader) → load_frame stdio [] r ≡ ok (record r { file = some [] }, false)
  unfolding load_frame read_some
  nothing_loaded r = rw (load_frame, read_some, reliable.reads [] 24, reliable.no_error [] 24) refl

  -- The next package of the frame.
  package_here :
      (n off idx : ℕ) (p : Lvx2Packet) (ps : List Lvx2Packet) (fs : List (List Lvx2Packet))
      (r : Reader)
      → IsPackage p
      → IsAhead r off idx (p ∷ ps) fs
      → (r' : Reader) × (next_package stdio (suc n) r
          ≡ ok (r', some (record p { frame_index = r.frame_index })))
        × IsAhead r' off idx ps fs
        × (r'.frame_index ≡ r.frame_index)
        × (r'.truncated ≡ r.truncated)
  unfolding next_package
  package_here n off idx p ps fs r valid a =
      let size = length p.points in
      let end = r.pos + 27 + size in
      let here : drop r.pos r.frame ≡ package_wire p ++ packages_wire ps = a.here in
      let room : end ≤ length r.frame = omega (
        arith,
        a.inside,
        length-drop r.pos r.frame,
        ap length here,
        length-append p.points (packages_wire ps),
      ) in
      let some_left : ltb (length r.frame) (r.pos + 27) ≡ false = ground arith in
      let ends : end ≡ r.pos + (27 + size) = omega arith in
      let length_p : 27 + size ≡ length (package_wire p) = omega arith in
      let behind : drop end r.frame ≡ packages_wire ps =
        ap (λ k. drop k r.frame) ends
        ∙ sym (drop-drop (27 + size) r.pos r.frame)
        ∙ ap (λ t. drop (27 + size) t) here
        ∙ ap (λ k. drop k (package_wire p ++ packages_wire ps)) length_p
        ∙ drop-append (package_wire p) (packages_wire ps) in
      (
        record r { pos = end; done = false },
        rw
            (
              next_package,
              a.going,
              some_left,
              read_package_lem p valid r.frame (packages_wire ps) r.pos r.frame_index a.inside here,
            )
            (ap
              (λ d.
                ok (
                  record r { pos = end; done = d },
                  some (record p { frame_index = r.frame_index }),
                ))
              a.going),
        record { file = a.file; inside = room; here = behind; offset = a.offset; going = refl },
        refl,
        refl,
      )

  -- With the frame used up, the next one is loaded.
  frame_next :
      (n off idx : ℕ) (f : List Lvx2Packet) (fs : List (List Lvx2Packet)) (r : Reader)
      → idx < 2 ^ 64
      → off + 24 + length (packages_wire f) < 2 ^ 64
      → IsAhead r off idx [] (f ∷ fs)
      → (r' : Reader) × (next_package stdio (suc n) r ≡ next_package stdio n r')
        × IsAhead r' (off + 24 + length (packages_wire f)) (idx + 1) f fs
        × (r'.frame_index ≡ idx)
        × (r'.truncated ≡ r.truncated)
  unfolding next_package
  frame_next n off idx f fs r range small a =
      let end : r.pos ≡ length r.frame =
        omega (arith, a.inside, length-drop r.pos r.frame, ap length a.here) in
      let none_left : ltb (length r.frame) (r.pos + 27) ≡ true = ground arith in
      let next = off + 24 + length (packages_wire f) in
      let r0 = note_partial r in
      let whole : (r.pos == length r.frame) ≡ true = ground (arith, end) in
      let loaded =
        load_frame_lem stdio reliable off idx f (frames_wire next (idx + 1) fs) r0 a.offset range
          small in
      let r1 : Reader = record r0 {
        file = some (frames_wire next (idx + 1) fs);
        frame = packages_wire f;
        pos = 0;
        frame_index = idx;
        frame_offset = next;
      } in
      (
        r1,
        rw (next_package, a.going, none_left, a.file, loaded)
            (ap (λ d. next_package stdio n (record r1 { done = d })) a.going),
        record { file = refl; inside = omega arith; here = refl; offset = refl; going = a.going },
        refl,
        rw whole refl,
      )

  no_frame :
      (n off idx : ℕ) (r : Reader)
      → IsAhead r off idx [] []
      → (r' : Reader) × (next_package stdio (suc n) r ≡ ok (r', none))
        × (r'.done ≡ true)
        × (r'.truncated ≡ r.truncated)
  unfolding next_package
  no_frame n off idx r a =
      let end : r.pos ≡ length r.frame =
        omega (arith, a.inside, length-drop r.pos r.frame, ap length a.here) in
      let none_left : ltb (length r.frame) (r.pos + 27) ≡ true = ground arith in
      let r0 = note_partial r in
      let whole : (r.pos == length r.frame) ≡ true = ground (arith, end) in
      (
        record r0 { file = some []; done = true },
        rw (next_package, a.going, none_left, a.file, nothing_loaded r0) refl,
        refl,
        rw whole refl,
      )

  -- With the frame used up, the first packet of the next one.
  packet_of_next :
      (off idx : ℕ) (p : Lvx2Packet) (ps : List Lvx2Packet) (fs : List (List Lvx2Packet))
      (r : Reader)
      → idx < 2 ^ 64
      → off + 24 + length (packages_wire (p ∷ ps)) < 2 ^ 64
      → IsPackage p
      → IsAhead r off idx [] ((p ∷ ps) ∷ fs)
      → (r' : Reader) × (next_packet stdio r ≡ ok (r', some (record p { frame_index = idx })))
        × IsAhead r' (off + 24 + length (packages_wire (p ∷ ps))) (idx + 1) ps fs
        × (r'.frame_index ≡ idx)
        × (r'.truncated ≡ r.truncated)
  unfolding next_packet
  packet_of_next off idx p ps fs r range small v a =
      let fuel = length (frames_wire off idx ((p ∷ ps) ∷ fs)) in
      let two : fuel + 2 ≡ suc (suc fuel) = omega arith in
      let next = off + 24 + length (packages_wire (p ∷ ps)) in
      let (r1, e1, a1, i1, t1) = frame_next (suc fuel) off idx (p ∷ ps) fs r range small a in
      let (r', e, a', i, t) = package_here fuel next (idx + 1) p ps fs r1 v a1 in
      (
        r',
        ap
              (λ f. elim f [
                | none ↦ err invalid_argument
                | some rest ↦ next_package stdio (length rest + 2) r
              ])
              a.file
            ∙ ap (λ k. next_package stdio k r) two
            ∙ e1
            ∙ e
            ∙ ap (λ x. ok (r', some (record p { frame_index = x }))) i1,
        a',
        i ∙ i1,
        t ∙ t1,
      )

  -- A first packet, and then the others.
  read_first :
      (n : ℕ) (r r' : Reader) (p : Lvx2Packet) (ps : List Lvx2Packet)
      → next_packet stdio r ≡ ok (r', some p)
      → r'.truncated ≡ r.truncated
      → AllRead r' ps (read_packets stdio n r')
      → AllRead r (p ∷ ps) (read_packets stdio (suc n) r)
  read_first n r r' p ps e t (r'', e', d, t') = (r'', rw (e, e') refl, d, t' ∙ t)

  pub read_packets_lem :
      (n off idx : ℕ) (ps : List Lvx2Packet) (fs : List (List Lvx2Packet)) (r : Reader)
      → n ≡ length ps + count_of fs
      → All IsPackage ps
      → All IsFrame fs
      → off + frames_size fs < 2 ^ 64
      → idx + length fs < 2 ^ 64
      → IsAhead r off idx ps fs
      → AllRead r (with_index r.frame_index ps ++ indexed idx fs) (read_packets stdio (suc n) r)
  unfolding next_packet
  read_packets_lem n off idx [] [] r count vp vf small few a =
      let (r', e, d, t) = no_frame 1 off idx r a in
      let none_left : next_packet stdio r ≡ ok (r', none) = rw (next_packet, a.file) e in
      (r', rw (read_packets, none_left) refl, d, t)
  read_packets_lem zero off idx (p ∷ ps) fs r count (v, vp) vf small few a = absurd (omega arith)
  read_packets_lem (suc m) off idx (p ∷ ps) fs r count (v, vp) vf small few a =
      let fuel = length (frames_wire off idx fs) in
      let two : fuel + 2 ≡ suc (fuel + 1) = omega arith in
      let (r', e, a', i, t) = package_here (fuel + 1) off idx p ps fs r v a in
      let first : next_packet stdio r ≡ ok (r', some (record p { frame_index = r.frame_index })) =
        rw (next_packet, a.file, two) e in
      read_first (suc m) r r' (record p { frame_index = r.frame_index })
        (with_index r.frame_index ps ++ indexed idx fs) first t
        (subst (λ x. AllRead r' (with_index x ps ++ indexed idx fs) (read_packets stdio (suc m) r'))
          i (read_packets_lem m off idx ps fs r' (omega arith) vp vf small few a'))
  read_packets_lem n off idx [] ([] ∷ fs) r count vp ((pos, v), vf) small few a =
      absurd (omega arith)
  read_packets_lem zero off idx [] ((p ∷ ps) ∷ fs) r count vp vf small few a = absurd (omega arith)
  read_packets_lem (suc m) off idx [] ((p ∷ ps) ∷ fs) r count vp ((pos, (v, vs)), vf) small few a =
      let next = off + 24 + length (packages_wire (p ∷ ps)) in
      let (r', first, a', i, t) =
        packet_of_next off idx p ps fs r (omega arith) (omega arith) v a in
      read_first (suc m) r r' (record p { frame_index = idx })
        (with_index idx ps ++ indexed (idx + 1) fs) first t
        (subst
          (λ x.
            AllRead r' (with_index x ps ++ indexed (idx + 1) fs) (read_packets stdio (suc m) r'))
          i
          (read_packets_lem m next (idx + 1) ps fs r' (omega arith) vs vf (omega arith)
            (omega arith) a'))
