-- ===== src/Recording/Written.antt =====
-- What the writer leaves in the file and in the open frame.
use mathlib.Core.List.{append_assoc, append-nil}
use livox_mid360_core.Prelude.{
  ℕ, suc, ◌+◌, ◌%◌, ◌^◌, ◌≤◌, ◌<◌, ◌≡◌, refl, sym, ap, ◌∙◌, List, [], ◌∷◌, ◌++◌, length, take_all,
  true, ==_iff, Option, some, ok, arith, length-append,
}
use livox_mid360_core.Bytes.{All, write_le, copy_to}
use livox_mid360_core.Protocol.Types.{DataType, DataPacketHeader}
use livox_mid360_core.Recording.{Lvx2Error, Lvx2Packet, Stdio}
use livox_mid360_core.Recording.Writer.{
  Writer, put_byte, up_u64, write_bytes, frame_header, next_frame, flush_frame,
}
use livox_mid360_core.Recording.Write.{package_header, add_package, open_slot}
use livox_mid360_core.Recording.Layout.{
  IsPackage, type_code, header_wire, package_wire, packages_wire, frame_header_wire, frame_wire,
  frames_wire, frames_size, packages_wire-snoc, frames_wire-snoc, frames_size-snoc,
}
use livox_mid360_core.Recording.Read.{IsReliable}
use livox_mid360_core.Recording.ReadAll.{IsFrame}

-- The package that a packet becomes.
abbrev pub package_of : ℕ → DataPacketHeader → DataType → List ℕ → Lvx2Packet
package_of lidar_id h t points = record {
  frame_index = 0;
  lidar_id = lidar_id;
  lidar_type = 0;
  timestamp_type = h.time_type;
  timestamp_ns = h.timestamp_ns;
  udp_counter = h.udp_cnt;
  data_type = t;
  frame_counter = h.frame_cnt;
  points = points;
}

abbrev pub flat : List (List Lvx2Packet) → List Lvx2Packet
flat [] = []
flat (f ∷ fs) = f ++ flat fs

-- The most that the packages can take in a file, each in a frame of its own.
abbrev pub bytes_of : List Lvx2Packet → ℕ
bytes_of [] = 0
bytes_of (p ∷ ps) = 51 + length p.points + bytes_of ps

-- What the open frame will take in the file.
abbrev pub open_size : List Lvx2Packet → ℕ
open_size [] = 0
open_size (p ∷ ps) = 24 + length (packages_wire (p ∷ ps))

-- Behind `start` the file has the frames, and the open frame has the packages `ps`; together they
-- are what was written.
pub record IsWritten (start : List ℕ) (w : Writer) (fs : List (List Lvx2Packet))
    (ps written : List Lvx2Packet) : Type 0 where
  pub file : w.file ≡ some (start ++ frames_wire (length start) 0 fs)
  pub frame : w.frame ≡ packages_wire ps
  pub offset : w.offset ≡ length start + frames_size fs
  pub frame_index : w.frame_index ≡ length fs
  pub frames : All IsFrame fs
  pub open_packages : All IsPackage ps
  pub all : flat fs ++ ps ≡ written
  pub size : frames_size fs + open_size ps ≤ bytes_of written

All-snoc :
    {A : Type 0} (P : A → Type 0) (xs : List A) (x : A) → All P xs → P x → All P (xs ++ (x ∷ []))
All-snoc P [] x h p = (p, tt)
All-snoc P (y ∷ xs) x (h, hs) p = (h, All-snoc P xs x hs p)

flat-snoc :
    (fs : List (List Lvx2Packet)) (f : List Lvx2Packet) → flat (fs ++ (f ∷ [])) ≡ flat fs ++ f
flat-snoc [] f = append-nil f
flat-snoc (g ∷ fs) f = ap (λ t. g ++ t) (flat-snoc fs f) ∙ sym (append_assoc g (flat fs) f)

frames_count : (fs : List (List Lvx2Packet)) → length fs ≤ frames_size fs
frames_count [] = omega arith
frames_count (f ∷ fs) = omega (arith, frames_count fs)

package_header_lem :
    (lidar_id : ℕ) (h : DataPacketHeader) (t : DataType) (points : List ℕ)
    → package_header {E = Lvx2Error} lidar_id h (type_code t) (length points)
      ≡ ok (header_wire (package_of lidar_id h t points))
unfolding package_header put_byte write_le copy_to
package_header_lem lidar_id h t points = refl

frame_header_lem :
    (off size idx : ℕ)
    → frame_header {E = Lvx2Error} off (off + 24 + size) idx ≡ ok (frame_header_wire off idx size)
unfolding frame_header write_le copy_to
frame_header_lem off size idx = refl

module _ (stdio : Stdio) (reliable : IsReliable stdio) where
  pub write_bytes_lem :
      (bs content : List ℕ) (w : Writer)
      → w.file ≡ some content
      → write_bytes stdio bs w ≡ (record w { file = some (content ++ bs) }, ok tt)
  unfolding write_bytes
  write_bytes_lem [] content w e =
      ap (λ (f : Option (List ℕ)). (record w { file = f }, ok tt))
        (e ∙ ap some (sym (append-nil content)))
  write_bytes_lem (b ∷ bs) content w e =
      let bytes = b ∷ bs in
      let whole = (==_iff (length bytes) (length bytes)).1 refl in
      rw (write_bytes, e, reliable.writes content bytes, whole, take_all bytes) refl

  -- A writer with these fields.
  abbrev state : Writer → List ℕ → List ℕ → ℕ → ℕ → Writer
  state w content frame offset frame_index = record w {
    file = some content;
    frame = frame;
    offset = offset;
    frame_index = frame_index;
  }

  state_lem :
      (w : Writer) (content frame : List ℕ) (offset frame_index : ℕ)
      → w.file ≡ some content
      → w.frame ≡ frame
      → w.offset ≡ offset
      → w.frame_index ≡ frame_index
      → w ≡ state w content frame offset frame_index
  state_lem w content frame offset frame_index a b c d =
      ap (λ (x : Option (List ℕ)). record w { file = x }) a
      ∙ ap (λ x. record w { file = some content; frame = x }) b
      ∙ ap (λ x. record w { file = some content; frame = frame; offset = x }) c
      ∙ ap (λ x. record w { file = some content; frame = frame; offset = offset; frame_index = x })
          d

  flush_state :
      (w : Writer) (content : List ℕ) (off idx b : ℕ) (bs : List ℕ)
      → off + 24 + suc (length bs) < 2 ^ 64
      → flush_frame stdio (state w content (b ∷ bs) off idx) ≡ (
        next_frame (off + 24 + suc (length bs)) (
            state w
              ((content ++ frame_header_wire off idx (suc (length bs))) ++ (b ∷ bs))
              (b ∷ bs)
              off
              idx),
        ok tt,
      )
  unfolding flush_frame
  flush_state w content off idx b bs small =
      let size = suc (length bs) in
      let exact : (off + 24 + size) % 2 ^ 64 ≡ off + 24 + size = omega arith in
      let h = frame_header_wire off idx size in
      let s0 = state w content (b ∷ bs) off idx in
      let s1 = state w (content ++ h) (b ∷ bs) off idx in
      rw
        (
          flush_frame,
          exact,
          frame_header_lem off size idx,
          write_bytes_lem h content s0 refl,
          write_bytes_lem (b ∷ bs) (content ++ h) s1 refl,
        )
        refl

  -- The open frame goes to the file.
  pub flush_frame-IsWritten :
      (start : List ℕ) (w : Writer) (fs : List (List Lvx2Packet)) (p : Lvx2Packet)
      (ps written : List Lvx2Packet)
      → length start + bytes_of written < 2 ^ 64
      → IsWritten start w fs (p ∷ ps) written
      → (w' : Writer) × (flush_frame stdio w ≡ (w', ok tt))
        × IsWritten start w' (fs ++ ((p ∷ ps) ∷ [])) [] written
        × (w'.lidar_ids ≡ w.lidar_ids)
        × (w'.clocks ≡ w.clocks)
  flush_frame-IsWritten start w fs p ps written small k =
      let f = p ∷ ps in
      let body = packages_wire f in
      let off = length start + frames_size fs in
      let content = start ++ frames_wire (length start) 0 fs in
      let h = frame_header_wire off (length fs) (length body) in
      let count : 0 + length fs ≡ length fs = omega arith in
      let snoc : frames_wire (length start) 0 (fs ++ (f ∷ []))
          ≡ frames_wire (length start) 0 fs ++ frame_wire off (length fs) f =
        frames_wire-snoc (length start) 0 fs f
        ∙ ap (λ i. frames_wire (length start) 0 fs ++ frame_wire off i f) count in
      let wide : off + 24 + length body < 2 ^ 64 = omega (arith, k.size) in
      let same = state_lem w content body off (length fs) k.file k.frame k.offset k.frame_index in
      (
        next_frame (off + 24 + length body) (state w ((content ++ h) ++ body) body off (length fs)),
        ap (flush_frame stdio) same ∙ flush_state w content off (length fs) _ _ wide,
        record {
          file = ap some (
              append_assoc content h body
              ∙ append_assoc start (frames_wire (length start) 0 fs) (h ++ body)
              ∙ ap (λ t. start ++ t) (sym snoc));
          frame = refl;
          offset = omega (arith, frames_size-snoc fs f);
          frame_index = omega (arith, length-append fs (f ∷ []), frames_count fs);
          frames = All-snoc IsFrame fs f k.frames (omega arith, k.open_packages);
          open_packages = tt;
          all = append-nil (flat (fs ++ (f ∷ []))) ∙ flat-snoc fs f ∙ k.all;
          size = omega (arith, frames_size-snoc fs f, k.size);
        },
        refl,
        refl,
      )

open_size-snoc :
    (ps : List Lvx2Packet) (p : Lvx2Packet)
    → open_size (ps ++ (p ∷ [])) ≤ open_size ps + (51 + length p.points)
open_size-snoc [] p = omega (arith, ap length (append-nil (package_wire p)))
open_size-snoc (q ∷ ps) p =
    let joined = ap length (packages_wire-snoc (q ∷ ps) p) in
    omega (arith, joined, length-append (packages_wire (q ∷ ps)) (package_wire p))

bytes_of-snoc :
    (ps : List Lvx2Packet) (p : Lvx2Packet)
    → bytes_of (ps ++ (p ∷ [])) ≡ bytes_of ps + (51 + length p.points)
bytes_of-snoc [] p = omega arith
bytes_of-snoc (q ∷ ps) p = omega (arith, bytes_of-snoc ps p)

-- A package joins the open frame.
pub add_package-IsWritten :
    (start : List ℕ) (w : Writer) (fs : List (List Lvx2Packet)) (ps written : List Lvx2Packet)
    (lidar_id : ℕ) (h : DataPacketHeader) (t : DataType) (points : List ℕ) (slot : ℕ)
    → IsWritten start w fs ps written
    → IsPackage (package_of lidar_id h t points)
    → (w' : Writer) × (add_package lidar_id h (type_code t) points slot w ≡ (w', ok true))
      × IsWritten start w' fs
          (ps ++ (package_of lidar_id h t points ∷ []))
          (written ++ (package_of lidar_id h t points ∷ []))
      × (w'.lidar_ids ≡ w.lidar_ids)
      × (w'.clocks ≡ w.clocks)
unfolding add_package
add_package-IsWritten start w fs ps written lidar_id h t points slot k valid =
    let p = package_of lidar_id h t points in
    (
      record w {
        frame = w.frame ++ package_wire p;
        frame_slot = open_slot slot w.frame_slot;
        stats = record w.stats { packets = up_u64 w.stats.packets };
      },
      rw (add_package, package_header_lem lidar_id h t points) refl,
      record {
        file = k.file;
        frame = ap (λ f. f ++ package_wire p) k.frame ∙ sym (packages_wire-snoc ps p);
        offset = k.offset;
        frame_index = k.frame_index;
        frames = k.frames;
        open_packages = All-snoc IsPackage ps p k.open_packages valid;
        all = sym (append_assoc (flat fs) ps (p ∷ [])) ∙ ap (λ l. l ++ (p ∷ [])) k.all;
        size = omega (arith, k.size, open_size-snoc ps p, bytes_of-snoc written p);
      },
      refl,
      refl,
    )

-- With no open frame there is nothing to flush.
pub flush_none : (stdio : Stdio) (w : Writer) → w.frame ≡ [] → flush_frame stdio w ≡ (w, ok tt)
unfolding flush_frame
flush_none stdio w e = rw (flush_frame, e) (ap (λ f. (record w { frame = f }, ok tt)) e)
