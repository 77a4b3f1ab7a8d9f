-- ===== src/Recording/WriteAll.antt =====
-- The writer through its packets, up to the close.
use mathlib.Core.List.{append_assoc, append-nil}
use livox_mid360_core.Prelude.{
  ℕ, zero, suc, ◌+◌, ◌^◌, ◌≤◌, ◌<◌, ◌≡◌, refl, sym, ap, ◌∙◌, inl, inr, ◌⊎◌, List, [], ◌∷◌, ◌++◌,
  length, get_elem?, get_or, Bool-cases, true, Option, none, some, ok, arith, map, fault, subst,
}
use livox_mid360_core.Bytes.{All}
use livox_mid360_core.Protocol.Types.{
  DataType, cartesian32, cartesian16, DataPacketHeader, DataPacketView,
}
use livox_mid360_core.Recording.{Lvx2Error, Lvx2Packet, Stdio, Doubles}
use livox_mid360_core.Recording.Writer.{DeviceClock, Writer, Step, and_then, flush_frame}
use livox_mid360_core.Recording.Write.{
  set_at, keep_clock, slot_for, is_past, to_package, write_package, write, close_writer, content_of,
}
use livox_mid360_core.Recording.Layout.{IsPackage, type_code, frames_wire, frames_size}
use livox_mid360_core.Recording.Read.{IsReliable}
use livox_mid360_core.Recording.ReadAll.{IsFrame}
use livox_mid360_core.Recording.Written.{
  package_of, flat, bytes_of, IsWritten, flush_frame-IsWritten, add_package-IsWritten, flush_none,
}

get_elem?_or :
    {A : Type 0} (xs : List A) (i : ℕ) (d : A)
    → i < length xs
    → get_elem? xs i ≡ some (get_or xs i d)
get_elem?_or [] i d h = absurd (omega arith)
get_elem?_or (x ∷ xs) zero d h = refl
get_elem?_or (x ∷ xs) (suc i) d h = get_elem?_or xs i d (omega arith)

bytes_of-append : (xs ys : List Lvx2Packet) → bytes_of (xs ++ ys) ≡ bytes_of xs + bytes_of ys
bytes_of-append [] ys = omega arith
bytes_of-append (x ∷ xs) ys = omega (arith, bytes_of-append xs ys)

length-set_at : {A : Type 0} (xs : List A) (i : ℕ) (a : A) → length (set_at xs i a) ≡ length xs
length-set_at [] i a = refl
length-set_at (x ∷ xs) zero a = refl
length-set_at (x ∷ xs) (suc i) a = ap suc (length-set_at xs i a)

-- A packet that is recorded as it is.
abbrev pub IsCartesian : DataType → Type 0
IsCartesian t = (t ≡ cartesian32) ⊎ (t ≡ cartesian16)

to_package_lem :
    (db : Doubles) (pkt : DataPacketView)
    → IsCartesian pkt.header.data_type
    → to_package {E = Lvx2Error} db pkt ≡ ok (some (type_code pkt.header.data_type, pkt.samples))
unfolding to_package
to_package_lem db pkt (inl e) = rw (to_package, e) refl
to_package_lem db pkt (inr e) = rw (to_package, e) refl

abbrev pub package_for : List ℕ → ℕ × DataPacketView → Lvx2Packet
package_for ids (i, pkt) = package_of (get_or ids i 0) pkt.header pkt.header.data_type pkt.samples

abbrev pub IsWrite : List ℕ → ℕ × DataPacketView → Type 0
IsWrite ids (i, pkt) =
    (i < length ids) × IsCartesian pkt.header.data_type × IsPackage (package_for ids (i, pkt))

module _ (stdio : Stdio) (db : Doubles) where
  -- A client's loop over packets, which stops at an error.
  abbrev pub write_packets : List (ℕ × DataPacketView) → Writer → Step (Unit {0})
  write_packets [] w = (w, ok tt)
  write_packets ((i, pkt) ∷ pkts) w =
      and_then (write stdio db i pkt w) (λ w' b. write_packets pkts w')

module _ (stdio : Stdio) (reliable : IsReliable stdio) (db : Doubles) where
  -- Where the packages written stand, with one clock per device.
  abbrev pub Holds : List ℕ → List ℕ → Writer → List Lvx2Packet → Type 0
  Holds ids start w written =
      (fs : List (List Lvx2Packet)) × (ps : List Lvx2Packet) × IsWritten start w fs ps written
      × (w.lidar_ids ≡ ids)
      × (length w.clocks ≡ length ids)

  Holds-flush_frame :
      (ids start : List ℕ) (w : Writer) (written : List Lvx2Packet)
      → length start + bytes_of written < 2 ^ 64
      → Holds ids start w written
      → (w' : Writer) × (flush_frame stdio w ≡ (w', ok tt))
        × (fs : List (List Lvx2Packet)) × IsWritten start w' fs [] written
        × (w'.lidar_ids ≡ ids)
        × (length w'.clocks ≡ length ids)
  Holds-flush_frame ids start w written small (fs, [], k, e, c) =
      (w, flush_none stdio w k.frame, fs, k, e, c)
  Holds-flush_frame ids start w written small (fs, p ∷ ps, k, e, c) =
      let (w', f, k', e', c') =
        flush_frame-IsWritten stdio reliable start w fs p ps written small k in
      (w', f, fs ++ ((p ∷ ps) ∷ []), k', e' ∙ e, ap length c' ∙ c)

  -- The package of a packet is added, behind a flush when the time calls for it.
  Holds-write_package :
      (ids start : List ℕ) (w : Writer) (written : List Lvx2Packet) (i lidar_id : ℕ)
      (clock : DeviceClock) (h : DataPacketHeader) (t : DataType) (points : List ℕ)
      → length start + bytes_of written < 2 ^ 64
      → IsPackage (package_of lidar_id h t points)
      → Holds ids start w written
      → (w' : Writer) × (write_package stdio i lidar_id clock h (type_code t) points w
          ≡ (w', ok true))
        × Holds ids start w' (written ++ (package_of lidar_id h t points ∷ []))
  unfolding write_package
  Holds-write_package ids start w written i lidar_id clock h t points small valid
        (fs, ps, k, e, c) =
      let slot = slot_for clock h.timestamp_ns w in
      let w0 = keep_clock i clock h.timestamp_ns w in
      let k0 : IsWritten start w0 fs ps written = record {
        file = k.file;
        frame = k.frame;
        offset = k.offset;
        frame_index = k.frame_index;
        frames = k.frames;
        open_packages = k.open_packages;
        all = k.all;
        size = k.size;
      } in
      let c0 : length w0.clocks ≡ length ids = length-set_at w.clocks i _ ∙ c in
      elim (Bool-cases (is_past slot w0.frame_slot)) [
        | inr now ↦
            let (w', a, k', e', c') =
              add_package-IsWritten start w0 fs ps written lidar_id h t points slot k0 valid in
            (w', rw (write_package, now) a, (fs, _, k', e' ∙ e, ap length c' ∙ c0))
        | inl past ↦
            let (w1, f, fs', k1, e1, c1) =
              Holds-flush_frame ids start w0 written small (fs, ps, k0, e, c0) in
            let (w', a, k', e', c') =
              add_package-IsWritten start w1 fs' [] written lidar_id h t points slot k1 valid in
            (w', rw (write_package, past, f) a, (fs', _, k', e' ∙ e1, ap length c' ∙ c1))
      ]

  Holds-write :
      (ids start : List ℕ) (w : Writer) (written : List Lvx2Packet) (i : ℕ) (pkt : DataPacketView)
      → length start + bytes_of written < 2 ^ 64
      → IsWrite ids (i, pkt)
      → Holds ids start w written
      → (w' : Writer) × (write stdio db i pkt w ≡ (w', ok true))
        × Holds ids start w' (written ++ (package_for ids (i, pkt) ∷ []))
  unfolding write
  Holds-write ids start w written i pkt small (inside, t, valid) (fs, ps, k, e, c) =
      let lidar_id = get_or ids i 0 in
      let clock = get_or w.clocks i (record { base = none; prev = 0 }) in
      let id_found : get_elem? w.lidar_ids i ≡ some lidar_id =
        ap (λ l. get_elem? l i) e ∙ get_elem?_or ids i 0 inside in
      let clock_found : get_elem? w.clocks i ≡ some clock =
        get_elem?_or w.clocks i (record { base = none; prev = 0 }) (omega (arith, c)) in
      let (w', a, holds) =
        Holds-write_package ids start w written i lidar_id clock pkt.header pkt.header.data_type
          pkt.samples small valid (fs, ps, k, e, c) in
      let h = pkt.header in
      let reached : write stdio db i pkt w ≡ elim (get_elem? w.clocks i) [
        | none ↦ (w, fault)
        | some clock' ↦
            write_package stdio i lidar_id clock' h (type_code h.data_type) pkt.samples w
      ] =
        rw (write, k.file, id_found, to_package_lem db pkt t) refl in
      (w', reached ∙ rw clock_found a, holds)

  pub Holds-write_packets :
      (ids start : List ℕ) (pkts : List (ℕ × DataPacketView)) (w : Writer)
      (written : List Lvx2Packet)
      → All (IsWrite ids) pkts
      → length start + bytes_of (written ++ map (package_for ids) pkts) < 2 ^ 64
      → Holds ids start w written
      → (w' : Writer) × (write_packets stdio db pkts w ≡ (w', ok tt))
        × Holds ids start w' (written ++ map (package_for ids) pkts)
  Holds-write_packets ids start [] w written vs small h =
      (w, refl, subst (Holds ids start w) (sym (append-nil written)) h)
  Holds-write_packets ids start ((i, pkt) ∷ pkts) w written (v, vs) small h =
      let p = package_for ids (i, pkt) in
      let rest = map (package_for ids) pkts in
      let joined : (written ++ (p ∷ [])) ++ rest ≡ written ++ (p ∷ rest) =
        append_assoc written (p ∷ []) rest in
      let part : length start + bytes_of written < 2 ^ 64 =
        omega (arith, bytes_of-append written (p ∷ rest)) in
      let (w1, e1, h1) = Holds-write ids start w written i pkt part v h in
      let whole : length start + bytes_of ((written ++ (p ∷ [])) ++ rest) < 2 ^ 64 =
        rw joined small in
      let (w2, e2, h2) = Holds-write_packets ids start pkts w1 (written ++ (p ∷ [])) vs whole h1 in
      (w2, rw (write_packets, e1) e2, subst (Holds ids start w2) joined h2)

  -- Closing flushes the last frame.
  pub Holds-close_writer :
      (ids start : List ℕ) (w : Writer) (written : List Lvx2Packet)
      → length start + bytes_of written < 2 ^ 64
      → Holds ids start w written
      → (w' : Writer) × (fs : List (List Lvx2Packet)) × (close_writer stdio w
          ≡ (start ++ frames_wire (length start) 0 fs, (w', ok tt)))
        × (w'.file ≡ none)
        × All IsFrame fs
        × (flat fs ≡ written)
        × (frames_size fs ≤ bytes_of written)
  unfolding close_writer
  Holds-close_writer ids start w written small (fs, ps, k, e, c) =
      let (w1, f, fs', k1, e1, c1) =
        Holds-flush_frame ids start w written small (fs, ps, k, e, c) in
      let content = start ++ frames_wire (length start) 0 fs' in
      let holding : content_of w1 ≡ content =
        ap (λ (x : Option (List ℕ)). elim x [ none ↦ [] | some y ↦ y ]) k1.file in
      (
        record w1 { file = none },
        fs',
        rw (close_writer, k.file, f, holding, reliable.flushes content) refl,
        refl,
        k1.frames,
        sym (append-nil (flat fs')) ∙ k1.all,
        omega (arith, k1.size),
      )
