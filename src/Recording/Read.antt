-- ===== src/Recording/Read.antt =====
-- Reading back what has the layout of a recording.
use livox_mid360_core.Prelude.{
  ℕ, ◌+◌, ◌%◌, ◌^◌, ◌≤◌, ◌<◌, ◌≡◌, refl, sym, ap, ◌∙◌, List, ◌++◌, length, take, drop, min, true,
  false, ltb, ◌==◌, ==_iff, some, ok, arith, length-append, take-append, drop-append, drop-drop,
  length-drop,
}
use livox_mid360_core.Bytes.{le_bytes, le_value, subspan, read_le}
use livox_mid360_core.Bytes.Laws.{le_value-le_bytes, read_le_ok, subspan_ok}
use livox_mid360_core.Protocol.Types.{
  DataType, imu, cartesian32, cartesian16, spherical, sample_size,
}
use livox_mid360_core.Recording.{Lvx2Error, Lvx2Packet, Stdio}
use livox_mid360_core.Recording.Reader.{Reader, read_package, package_type, read_some, load_frame}
use livox_mid360_core.Recording.Writer.{sub_u64}
use livox_mid360_core.Recording.Layout.{
  IsPackage, type_code, header_wire, package_wire, packages_wire, frame_header_wire, frame_wire,
  frames_wire,
}

package_type_lem : (t : DataType) → 0 < type_code t → package_type (type_code t) ≡ some t
package_type_lem imu h = absurd (omega arith)
package_type_lem cartesian32 h = refl
package_type_lem cartesian16 h = refl
package_type_lem spherical h = absurd (omega arith)

type_code-lt : (t : DataType) → type_code t < 256
type_code-lt imu = omega arith
type_code-lt cartesian32 = omega arith
type_code-lt cartesian16 = omega arith
type_code-lt spherical = omega arith

module _ (p : Lvx2Packet) (valid : IsPackage p) where
  field :
      (w off v : ℕ)
      → off + w ≤ 27
      → v < 256 ^ w
      → take w (drop off (header_wire p)) ≡ le_bytes w v
      → read_le {E = Lvx2Error} w (header_wire p) off ≡ ok v
  field w off v inside range e =
      read_le_ok w (header_wire p) off inside
      ∙ ap (λ bs. ok (le_value bs)) e
      ∙ ap ok (le_value-le_bytes w v range)

  -- A package at a position of a frame is read, and the position moves behind it.
  pub read_package_lem :
      (frame rest : List ℕ) (pos idx : ℕ)
      → pos ≤ length frame
      → drop pos frame ≡ package_wire p ++ rest
      → read_package frame pos idx
        ≡ ok (some (record p { frame_index = idx }, pos + 27 + length p.points))
  unfolding read_package
  read_package_lem frame rest pos idx inside here =
      let n = length p.points in
      let room : pos + 27 + n ≤ length frame =
        omega (arith, length-drop pos frame, ap length here, length-append p.points rest) in
      let ph : subspan {E = Lvx2Error} frame pos 27 ≡ ok (header_wire p) =
        subspan_ok frame pos 27 (omega arith) ∙ ap (λ t. ok (take 27 t)) here in
      let behind : drop (pos + 27) frame ≡ p.points ++ rest =
        sym (drop-drop 27 pos frame) ∙ ap (λ t. drop 27 t) here in
      let points : subspan {E = Lvx2Error} frame (pos + 27) n ≡ ok p.points =
        subspan_ok frame (pos + 27) n room
        ∙ ap (λ t. ok (take n t)) behind
        ∙ ap ok (take-append p.points rest) in
      let whole = (==_iff (n % sample_size p.data_type) 0).1 valid.whole in
      let fits : ltb (length frame) (pos + 27 + n) ≡ false = ground arith in
      rw (
        ph,
        field 4 1 p.lidar_id (omega arith) valid.lidar_id refl,
        field 1 5 p.lidar_type (omega arith) (omega (arith, valid.lidar_type)) refl,
        field 1 6 p.timestamp_type (omega arith) valid.timestamp_type refl,
        field 8 7 p.timestamp_ns (omega arith) valid.timestamp_ns refl,
        field 2 15 p.udp_counter (omega arith) valid.udp_counter refl,
        field 1 17 (type_code p.data_type) (omega arith) (type_code-lt p.data_type) refl,
        field 4 18 n (omega arith) valid.size refl,
        field 1 22 p.frame_counter (omega arith) valid.frame_counter refl,
        package_type_lem p.data_type valid.known_type,
        whole,
        fits,
        points,
      )

-- What is ahead of a reader: the rest of its frame, then the frames from `off` and `idx` on.
pub record IsAhead (r : Reader) (off idx : ℕ) (ps : List Lvx2Packet) (fs : List (List Lvx2Packet))
    : Type 0 where
  pub file : r.file ≡ some (frames_wire off idx fs)
  pub inside : r.pos ≤ length r.frame
  pub here : drop r.pos r.frame ≡ packages_wire ps
  pub offset : r.frame_offset ≡ off
  pub going : r.done ≡ false

-- The C library works: files open, writes and reads are whole, and no error flag is set.
pub record IsReliable (stdio : Stdio) : Type 0 where
  pub opens : stdio.opens ≡ true
  pub writes : (content bs : List ℕ) → stdio.fwrite content bs ≡ length bs
  pub flushes : (content : List ℕ) → stdio.fflush_fails content ≡ false
  pub reads : (rest : List ℕ) (n : ℕ) → stdio.fread rest n ≡ min n (length rest)
  pub no_error : (rest : List ℕ) (n : ℕ) → stdio.ferror rest n ≡ false

module _ (stdio : Stdio) (reliable : IsReliable stdio) where
  pub read_some_lem :
      (bs rest : List ℕ) (n : ℕ) → length bs ≡ n → read_some stdio (bs ++ rest) n ≡ ok (bs, rest)
  unfolding read_some
  read_some_lem bs rest n e =
      let count : min n (length (bs ++ rest)) ≡ length bs = omega (arith, length-append bs rest) in
      let all : (length bs == n) ≡ true = ground (arith, e) in
      rw (reliable.reads (bs ++ rest) n, count, all, take-append bs rest, drop-append bs rest) refl

  -- A frame at the offset that is expected is loaded.
  pub load_frame_lem :
      (off idx : ℕ) (ps : List Lvx2Packet) (rest : List ℕ) (r : Reader)
      → r.frame_offset ≡ off
      → idx < 2 ^ 64
      → off + 24 + length (packages_wire ps) < 2 ^ 64
      → load_frame stdio (frame_wire off idx ps ++ rest) r
        ≡ ok (
          record r {
            file = some rest;
            frame = packages_wire ps;
            pos = 0;
            frame_index = idx;
            frame_offset = off + 24 + length (packages_wire ps);
          },
          true,
        )
  unfolding load_frame
  load_frame_lem off idx ps rest r at range small =
      let body = packages_wire ps in
      let h = frame_header_wire off idx (length body) in
      let n = length body in
      let next = off + 24 + n in
      let head = read_some_lem h (body ++ rest) 24 refl in
      let current : read_le {E = Lvx2Error} 8 h 0 ≡ ok off =
        read_le_ok 8 h 0 (omega arith) ∙ ap ok (le_value-le_bytes 8 off (omega arith)) in
      let after : read_le {E = Lvx2Error} 8 h 8 ≡ ok next =
        read_le_ok 8 h 8 (omega arith) ∙ ap ok (le_value-le_bytes 8 next (omega arith)) in
      let index : read_le {E = Lvx2Error} 8 h 16 ≡ ok idx =
        read_le_ok 8 h 16 (omega arith) ∙ ap ok (le_value-le_bytes 8 idx (omega arith)) in
      let same : (off == r.frame_offset) ≡ true = ground (arith, at) in
      let forward : ltb next ((off + 24) % 2 ^ 64) ≡ false = ground arith in
      let size : sub_u64 (sub_u64 next off) 24 ≡ n = omega arith in
      let uncut : ltb n n ≡ false = ground arith in
      rw (head, current, after, index, same, forward, size, read_some_lem body rest n refl, uncut)
        refl
