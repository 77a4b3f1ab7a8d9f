-- ===== src/Recording/RoundTrip.antt =====
-- A recording from the first packet written to the last one read.
use mathlib.Core.List.{append-nil}
use livox_mid360_core.Prelude.{
  ℕ, suc, ◌+◌, ◌^◌, ◌≤◌, ◌<◌, ◌≡◌, refl, sym, ap, ◌∙◌, List, [], ◌∷◌, ◌++◌, length, drop, none,
  some, ok, arith, length-append, drop-append, map,
}
use livox_mid360_core.Bytes.{All}
use livox_mid360_core.Protocol.Types.{DataPacketView}
use livox_mid360_core.Recording.{Lvx2DeviceInfo, Lvx2FileHeader, Lvx2Packet, Stdio, Doubles}
use livox_mid360_core.Recording.Writer.{Writer}
use livox_mid360_core.Recording.Write.{close_writer}
use livox_mid360_core.Recording.Reader.{Reader, new_reader}
use livox_mid360_core.Recording.Layout.{frames_wire, frames_size}
use livox_mid360_core.Recording.Read.{IsReliable, IsAhead}
use livox_mid360_core.Recording.ReadAll.{indexed, count_of, read_packets, AllRead, read_packets_lem}
use livox_mid360_core.Recording.Written.{flat, bytes_of, IsWritten}
use livox_mid360_core.Recording.WriteAll.{
  IsWrite, package_for, write_packets, Holds-write_packets, Holds-close_writer,
}

length-map : {A B : Type 0} (f : A → B) (xs : List A) → length (map f xs) ≡ length xs
length-map f [] = refl
length-map f (x ∷ xs) = ap suc (length-map f xs)

count_of-flat : (fs : List (List Lvx2Packet)) → count_of fs ≡ length (flat fs)
count_of-flat [] = refl
count_of-flat (f ∷ fs) = omega (arith, length-append f (flat fs), count_of-flat fs)

length-frames : (fs : List (List Lvx2Packet)) → length fs ≤ frames_size fs
length-frames [] = omega arith
length-frames (f ∷ fs) = omega (arith, length-frames fs)

-- A writer that has just opened a file, whose header it wrote.
pub record IsNew (start : List ℕ) (w : Writer) : Type 0 where
  pub file : w.file ≡ some start
  pub frame : w.frame ≡ []
  pub offset : w.offset ≡ length start
  pub frame_index : w.frame_index ≡ 0
  pub clocks : length w.clocks ≡ length w.lidar_ids

-- A reader that has just read the header `start` of a file with this content.
abbrev pub reader_behind : Lvx2FileHeader → List Lvx2DeviceInfo → List ℕ → List ℕ → Reader
reader_behind header devices start content = record new_reader {
  file = some (drop (length start) content);
  header = header;
  devices = devices;
  frame_offset = length start;
}

-- How packets are recorded to a file and read back from it.
abbrev pub PlaysBack :
    Stdio
    → Doubles
    → Writer
    → List ℕ
    → List (ℕ × DataPacketView)
    → Lvx2FileHeader
    → List Lvx2DeviceInfo
    → Type 0
PlaysBack stdio db w start pkts header devices =
    (w' : Writer) × (w'' : Writer) × (content : List ℕ) × (fs : List (List Lvx2Packet))
    × (write_packets stdio db pkts w ≡ (w', ok tt))
    × (close_writer stdio w' ≡ (content, (w'', ok tt)))
    × (w''.file ≡ none)
    × (flat fs ≡ map (package_for w.lidar_ids) pkts)
    × AllRead (reader_behind header devices start content) (indexed 0 fs)
        (read_packets stdio (suc (length pkts)) (reader_behind header devices start content))

-- When the C library works and the file stays below 2^64 bytes, Cartesian packets that are written to
-- a new recording and closed are read back: the reader gives exactly the packages written, in order,
-- each with the index of the frame that it went into, then the end, and nothing is found truncated.
pub read_packets-write_packets :
    (stdio : Stdio) (db : Doubles) (w : Writer) (start : List ℕ) (pkts : List (ℕ × DataPacketView))
    (header : Lvx2FileHeader) (devices : List Lvx2DeviceInfo)
    → IsReliable stdio
    → IsNew start w
    → All (IsWrite w.lidar_ids) pkts
    → length start + bytes_of (map (package_for w.lidar_ids) pkts) < 2 ^ 64
    → PlaysBack stdio db w start pkts header devices
read_packets-write_packets stdio db w start pkts header devices reliable new valid small =
    let ids = w.lidar_ids in
    let begins : IsWritten start w [] [] [] = record {
      file = new.file ∙ ap some (sym (append-nil start));
      frame = new.frame;
      offset = omega (arith, new.offset);
      frame_index = new.frame_index;
      frames = tt;
      open_packages = tt;
      all = refl;
      size = omega arith;
    } in
    let (w', written, h) =
      Holds-write_packets stdio reliable db ids start pkts w [] valid small
        ([], [], begins, refl, new.clocks) in
    let (w'', fs, closed, shut, frames, all, size) =
      Holds-close_writer stdio reliable db ids start w' _ small h in
    let wire = frames_wire (length start) 0 fs in
    let behind : drop (length start) (start ++ wire) ≡ wire = drop-append start wire in
    let ahead : IsAhead (reader_behind header devices start (start ++ wire)) (length start) 0 []
        fs =
      record {
        file = ap some behind;
        inside = omega arith;
        here = refl;
        offset = refl;
        going = refl;
      } in
    let few : 0 + length fs < 2 ^ 64 = omega (arith, length-frames fs) in
    let count : length pkts ≡ 0 + count_of fs =
      omega (arith, count_of-flat fs, ap length all, length-map (package_for ids) pkts) in
    (
      w',
      w'',
      start ++ wire,
      fs,
      written,
      closed,
      shut,
      all,
      read_packets_lem stdio reliable (length pkts) (length start) 0 [] fs _ count tt frames
          (omega arith) few ahead,
    )
