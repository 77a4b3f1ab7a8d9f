-- ===== src/Recording/Layout.antt =====
-- The layout of a recording behind its header, as bytes: docs/lvx2.md.
use mathlib.Core.List.{append_assoc, append-nil}
use livox_mid360_core.Prelude.{
  ℕ, suc, ◌+◌, ◌%◌, ◌^◌, ◌<◌, ◌≡◌, refl, sym, ap, ◌∙◌, List, [], ◌∷◌, ◌++◌, length, replicate,
  arith, length-append,
}
use livox_mid360_core.Bytes.{le_bytes}
use livox_mid360_core.Protocol.Types.{DataType, cartesian32, cartesian16, sample_size}
use livox_mid360_core.Recording.{Lvx2Packet}

abbrev pub type_code : DataType → ℕ
type_code cartesian32 = 1
type_code cartesian16 = 2
type_code _ = 0

-- A package of a recording: its fields fit their types, and its points are whole.
pub record IsPackage (p : Lvx2Packet) : Type 0 where
  pub lidar_id : p.lidar_id < 2 ^ 32
  pub lidar_type : p.lidar_type ≡ 0
  pub timestamp_type : p.timestamp_type < 2 ^ 8
  pub timestamp_ns : p.timestamp_ns < 2 ^ 64
  pub udp_counter : p.udp_counter < 2 ^ 16
  pub frame_counter : p.frame_counter < 2 ^ 8
  pub known_type : 0 < type_code p.data_type
  pub size : length p.points < 2 ^ 32
  pub whole : length p.points % sample_size p.data_type ≡ 0

abbrev pub header_wire : Lvx2Packet → List ℕ
header_wire p =
    0
    ∷ (le_bytes 4 p.lidar_id
        ++ (p.lidar_type % 256
            ∷ p.timestamp_type % 256
            ∷ (le_bytes 8 p.timestamp_ns
                ++ (le_bytes 2 p.udp_counter
                    ++ (type_code p.data_type % 256
                        ∷ (le_bytes 4 (length p.points)
                            ++ (p.frame_counter % 256 ∷ replicate 4 0)))))))

abbrev pub package_wire : Lvx2Packet → List ℕ
package_wire p = header_wire p ++ p.points

abbrev pub packages_wire : List Lvx2Packet → List ℕ
packages_wire [] = []
packages_wire (p ∷ ps) = package_wire p ++ packages_wire ps

-- The header of a frame, at an offset of the file, with an index and a size.
abbrev pub frame_header_wire : ℕ → ℕ → ℕ → List ℕ
frame_header_wire off idx size = le_bytes 8 off ++ (le_bytes 8 (off + 24 + size) ++ le_bytes 8 idx)

abbrev pub frame_wire : ℕ → ℕ → List Lvx2Packet → List ℕ
frame_wire off idx ps = frame_header_wire off idx (length (packages_wire ps)) ++ packages_wire ps

abbrev pub frames_wire : ℕ → ℕ → List (List Lvx2Packet) → List ℕ
frames_wire off idx [] = []
frames_wire off idx (f ∷ fs) =
    frame_wire off idx f ++ frames_wire (off + 24 + length (packages_wire f)) (idx + 1) fs

-- The bytes of the frames.
abbrev pub frames_size : List (List Lvx2Packet) → ℕ
frames_size [] = 0
frames_size (f ∷ fs) = 24 + length (packages_wire f) + frames_size fs

pub length-frames_wire :
    (off idx : ℕ) (fs : List (List Lvx2Packet)) → length (frames_wire off idx fs) ≡ frames_size fs
length-frames_wire off idx [] = refl
length-frames_wire off idx (f ∷ fs) =
    let next = off + 24 + length (packages_wire f) in
    omega (
      arith,
      length-append (packages_wire f) (frames_wire next (idx + 1) fs),
      length-frames_wire next (idx + 1) fs,
    )

pub packages_wire-snoc :
    (ps : List Lvx2Packet) (p : Lvx2Packet)
    → packages_wire (ps ++ (p ∷ [])) ≡ packages_wire ps ++ package_wire p
packages_wire-snoc [] p = append-nil (package_wire p)
packages_wire-snoc (q ∷ ps) p =
    ap (λ t. package_wire q ++ t) (packages_wire-snoc ps p)
    ∙ sym (append_assoc (package_wire q) (packages_wire ps) (package_wire p))

pub frames_wire-snoc :
    (off idx : ℕ) (fs : List (List Lvx2Packet)) (f : List Lvx2Packet)
    → frames_wire off idx (fs ++ (f ∷ []))
      ≡ frames_wire off idx fs ++ frame_wire (off + frames_size fs) (idx + length fs) f
frames_wire-snoc off idx [] f =
    let a : off + 0 ≡ off = omega arith in
    let b : idx + 0 ≡ idx = omega arith in rw (a, b) (append-nil (frame_wire off idx f))
frames_wire-snoc off idx (g ∷ fs) f =
    let next = off + 24 + length (packages_wire g) in
    let a : off + (24 + length (packages_wire g) + frames_size fs) ≡ next + frames_size fs =
      omega arith in
    let b : idx + suc (length fs) ≡ idx + 1 + length fs = omega arith in
    rw
      (
        a,
        b,
        append_assoc (frame_wire off idx g) (frames_wire next (idx + 1) fs)
            (frame_wire (next + frames_size fs) (idx + 1 + length fs) f),
      )
      (ap (λ t. frame_wire off idx g ++ t) (frames_wire-snoc next (idx + 1) fs f))

pub frames_size-snoc :
    (fs : List (List Lvx2Packet)) (f : List Lvx2Packet)
    → frames_size (fs ++ (f ∷ [])) ≡ frames_size fs + 24 + length (packages_wire f)
frames_size-snoc [] f = omega arith
frames_size-snoc (g ∷ fs) f = omega (arith, frames_size-snoc fs f)
