-- ===== src/Recording/Header.antt =====
-- The bytes that the writer puts at the front of a file.
use mathlib.Core.List.{append_assoc}
use livox_mid360_core.Prelude.{
  ℕ, zero, suc, ◌+◌, ◌-◌, ◌*◌, ◌^◌, ◌≤◌, ◌<◌, ◌≡◌, ◌≢◌, refl, sym, ap, ◌∙◌, List, [], ◌∷◌, ◌++◌,
  length, take_all, drop, drop_all, min, replicate, ok, arith, length-append, length-drop,
  length-replicate, drop-drop,
}
use livox_mid360_core.Bytes.{All, write_le, copy_to, le_bytes}
use livox_mid360_core.Bytes.Laws.{length-le_bytes, copy_to-append}
use livox_mid360_core.Recording.{Lvx2Error, Lvx2DeviceInfo, magic}
use livox_mid360_core.Recording.Writer.{
  signature, put_fixed, put_byte, flag, put_device, put_devices, file_header,
}

-- A string with its padding.
abbrev pub fixed_wire : List ℕ → List ℕ
fixed_wire s = s ++ replicate (16 - length s) 0

abbrev pub device_tail : Lvx2DeviceInfo → List ℕ
device_tail d =
    le_bytes 4 d.lidar_id
    ++ (le_bytes 1 d.lidar_type
        ++ (le_bytes 1 d.device_type
            ++ (le_bytes 1 (flag d.extrinsic_enable)
                ++ (le_bytes 4 d.roll_deg
                    ++ (le_bytes 4 d.pitch_deg
                        ++ (le_bytes 4 d.yaw_deg
                            ++ (le_bytes 4 d.x_m ++ (le_bytes 4 d.y_m ++ le_bytes 4 d.z_m))))))))

abbrev pub device_wire : Lvx2DeviceInfo → List ℕ
device_wire d = fixed_wire d.lidar_sn ++ (fixed_wire d.hub_sn ++ device_tail d)

abbrev pub devices_wire : List Lvx2DeviceInfo → List ℕ
devices_wire [] = []
devices_wire (d ∷ ds) = device_wire d ++ devices_wire ds

abbrev pub head_wire : ℕ → ℕ → List ℕ
head_wire count frame_duration_ms =
    signature
    ++ (2 ∷ 0 ∷ 0 ∷ 0 ∷ (le_bytes 4 magic ++ (le_bytes 4 frame_duration_ms ++ le_bytes 1 count)))

-- The strings have at most 16 characters, none of them NUL, and the fields fit their types.
pub record IsDevice (d : Lvx2DeviceInfo) : Type 0 where
  pub lidar_sn : All (λ c. c ≢ 0) d.lidar_sn
  pub hub_sn : All (λ c. c ≢ 0) d.hub_sn
  pub lidar_sn_size : length d.lidar_sn ≤ 16
  pub hub_sn_size : length d.hub_sn ≤ 16
  pub lidar_id : d.lidar_id < 2 ^ 32
  pub lidar_type : d.lidar_type < 2 ^ 8
  pub device_type : d.device_type < 2 ^ 8
  pub roll_deg : d.roll_deg < 2 ^ 32
  pub pitch_deg : d.pitch_deg < 2 ^ 32
  pub yaw_deg : d.yaw_deg < 2 ^ 32
  pub x_m : d.x_m < 2 ^ 32
  pub y_m : d.y_m < 2 ^ 32
  pub z_m : d.z_m < 2 ^ 32

pub length-fixed_wire : (s : List ℕ) → length s ≤ 16 → length (fixed_wire s) ≡ 16
length-fixed_wire s h =
    let pad : List ℕ = replicate (16 - length s) 0 in
    let size : length pad ≡ 16 - length s = length-replicate (16 - length s) 0 in
    omega (arith, length-append s pad, size)

replicate-add : (k m : ℕ) → replicate {A = ℕ} (k + m) 0 ≡ replicate k 0 ++ replicate m 0
replicate-add zero m = let e : 0 + m ≡ m = omega arith in rw e refl
replicate-add (suc k) m =
    let e : suc k + m ≡ suc (k + m) = omega arith in rw e (ap (◌∷◌ 0) (replicate-add k m))

drop-replicate :
    (n m : ℕ) (rest : List ℕ) → n ≤ m → drop n (replicate m 0 ++ rest) ≡ replicate (m - n) 0 ++ rest
drop-replicate zero m rest h = let e : m - 0 ≡ m = omega arith in rw e refl
drop-replicate (suc n) zero rest h = absurd (omega arith)
drop-replicate (suc n) (suc m) rest h =
    let e : suc m - suc n ≡ m - n = omega arith in rw e (drop-replicate n m rest (omega arith))

-- A write where a prefix ends, up to the offset `k'` behind it.
module _ (p out : List ℕ) (k k' : ℕ) (at_end : k ≡ length p) (room : k' ≤ length out) where
  put_next :
      (bs : List ℕ)
      → k' ≡ k + length bs
      → copy_to {E = Lvx2Error} (p ++ drop k out) k bs ≡ ok ((p ++ bs) ++ drop k' out)
  put_next bs e =
      copy_to-append p bs (drop k out) k at_end (omega (arith, length-drop k out))
      ∙ ap (λ t. ok (p ++ (bs ++ t))) (drop-drop (length bs) k out)
      ∙ ap (λ n. ok (p ++ (bs ++ drop n out))) (sym e)
      ∙ ap ok (sym (append_assoc p bs (drop k' out)))

  write_next :
      (w v : ℕ)
      → k' ≡ k + w
      → write_le {E = Lvx2Error} w (p ++ drop k out) k v ≡ ok ((p ++ le_bytes w v) ++ drop k' out)
  unfolding write_le
  write_next w v e = put_next (le_bytes w v) (omega (arith, length-le_bytes w v, e))

  fixed_next :
      (s : List ℕ)
      → k' ≡ k + 16
      → length s ≤ 16
      → put_fixed {E = Lvx2Error} (p ++ drop k out) k s 16 ≡ ok ((p ++ fixed_wire s) ++ drop k' out)
  unfolding put_fixed
  fixed_next s e short =
      let n = length s in
      let zeros : List ℕ = replicate 16 0 in
      let pad : List ℕ = replicate (16 - n) 0 in
      let cut : min 16 n ≡ n = omega arith in
      let first = put_next zeros e in
      let rest = drop k' out in
      let again : copy_to {E = Lvx2Error} (p ++ (zeros ++ rest)) k s
          ≡ ok (p ++ (s ++ drop n (zeros ++ rest))) =
        copy_to-append p s (zeros ++ rest) k at_end (omega arith) in
      rw
        (
          put_fixed,
          first,
          cut,
          take_all s,
          append_assoc p zeros rest,
          again,
          drop-replicate n 16 rest short,
        )
        (ap ok
          (ap (λ t. p ++ t) (sym (append_assoc s pad rest)) ∙ sym (append_assoc p (s ++ pad) rest)))

put_device_lem :
    (p out : List ℕ) (off : ℕ) (d : Lvx2DeviceInfo)
    → off ≡ length p
    → off + 63 ≤ length out
    → IsDevice d
    → put_device {E = Lvx2Error} (p ++ drop off out) off d
      ≡ ok ((p ++ device_wire d) ++ drop (off + 63) out)
unfolding put_device put_byte
put_device_lem p out off d at room valid =
    let a = length-fixed_wire d.lidar_sn valid.lidar_sn_size in
    let b = length-fixed_wire d.hub_sn valid.hub_sn_size in
    let p1 = p ++ fixed_wire d.lidar_sn in
    let p2 = p1 ++ fixed_wire d.hub_sn in
    let p3 = p2 ++ le_bytes 4 d.lidar_id in
    let p4 = p3 ++ le_bytes 1 d.lidar_type in
    let p5 = p4 ++ le_bytes 1 d.device_type in
    let p6 = p5 ++ le_bytes 1 (flag d.extrinsic_enable) in
    let p7 = p6 ++ le_bytes 4 d.roll_deg in
    let p8 = p7 ++ le_bytes 4 d.pitch_deg in
    let p9 = p8 ++ le_bytes 4 d.yaw_deg in
    let p10 = p9 ++ le_bytes 4 d.x_m in
    let p11 = p10 ++ le_bytes 4 d.y_m in
    let l1 : length p1 ≡ off + 16 = omega (arith, length-append p (fixed_wire d.lidar_sn), a, at) in
    let l2 : length p2 ≡ off + 32 = omega (arith, length-append p1 (fixed_wire d.hub_sn), b, l1) in
    let l3 : length p3 ≡ off + 36 = omega (arith, length-append p2 (le_bytes 4 d.lidar_id), l2) in
    let l4 : length p4 ≡ off + 37 = omega (arith, length-append p3 (le_bytes 1 d.lidar_type), l3) in
    let l5 : length p5 ≡ off + 38 =
      omega (arith, length-append p4 (le_bytes 1 d.device_type), l4) in
    let l6 : length p6 ≡ off + 39 =
      omega (arith, length-append p5 (le_bytes 1 (flag d.extrinsic_enable)), l5) in
    let l7 : length p7 ≡ off + 43 = omega (arith, length-append p6 (le_bytes 4 d.roll_deg), l6) in
    let l8 : length p8 ≡ off + 47 = omega (arith, length-append p7 (le_bytes 4 d.pitch_deg), l7) in
    let l9 : length p9 ≡ off + 51 = omega (arith, length-append p8 (le_bytes 4 d.yaw_deg), l8) in
    let l10 : length p10 ≡ off + 55 = omega (arith, length-append p9 (le_bytes 4 d.x_m), l9) in
    let l11 : length p11 ≡ off + 59 = omega (arith, length-append p10 (le_bytes 4 d.y_m), l10) in
    let t11 = le_bytes 4 d.z_m in
    let t10 = le_bytes 4 d.y_m ++ t11 in
    let t9 = le_bytes 4 d.x_m ++ t10 in
    let t8 = le_bytes 4 d.yaw_deg ++ t9 in
    let t7 = le_bytes 4 d.pitch_deg ++ t8 in
    let t6 = le_bytes 4 d.roll_deg ++ t7 in
    let t5 = le_bytes 1 (flag d.extrinsic_enable) ++ t6 in
    let t4 = le_bytes 1 d.device_type ++ t5 in
    let t3 = le_bytes 1 d.lidar_type ++ t4 in
    let t2 = le_bytes 4 d.lidar_id ++ t3 in
    rw
      (
        fixed_next p out off (off + 16) at (omega arith) d.lidar_sn (omega arith)
            valid.lidar_sn_size,
        fixed_next p1 out (off + 16) (off + 32) (sym l1) (omega arith) d.hub_sn (omega arith)
            valid.hub_sn_size,
        write_next p2 out (off + 32) (off + 36) (sym l2) (omega arith) 4 d.lidar_id (omega arith),
        write_next p3 out (off + 36) (off + 37) (sym l3) (omega arith) 1 d.lidar_type (omega arith),
        write_next p4 out (off + 37) (off + 38) (sym l4) (omega arith) 1 d.device_type
            (omega arith),
        write_next p5 out (off + 38) (off + 39) (sym l5) (omega arith) 1 (flag d.extrinsic_enable)
            (omega arith),
        write_next p6 out (off + 39) (off + 43) (sym l6) (omega arith) 4 d.roll_deg (omega arith),
        write_next p7 out (off + 43) (off + 47) (sym l7) (omega arith) 4 d.pitch_deg (omega arith),
        write_next p8 out (off + 47) (off + 51) (sym l8) (omega arith) 4 d.yaw_deg (omega arith),
        write_next p9 out (off + 51) (off + 55) (sym l9) (omega arith) 4 d.x_m (omega arith),
        write_next p10 out (off + 55) (off + 59) (sym l10) (omega arith) 4 d.y_m (omega arith),
        write_next p11 out (off + 59) (off + 63) (sym l11) (omega arith) 4 d.z_m (omega arith),
      )
      (ap (λ t. ok (t ++ drop (off + 63) out))
        (append_assoc p10 (le_bytes 4 d.y_m) t11
          ∙ append_assoc p9 (le_bytes 4 d.x_m) t10
          ∙ append_assoc p8 (le_bytes 4 d.yaw_deg) t9
          ∙ append_assoc p7 (le_bytes 4 d.pitch_deg) t8
          ∙ append_assoc p6 (le_bytes 4 d.roll_deg) t7
          ∙ append_assoc p5 (le_bytes 1 (flag d.extrinsic_enable)) t6
          ∙ append_assoc p4 (le_bytes 1 d.device_type) t5
          ∙ append_assoc p3 (le_bytes 1 d.lidar_type) t4
          ∙ append_assoc p2 (le_bytes 4 d.lidar_id) t3
          ∙ append_assoc p1 (fixed_wire d.hub_sn) t2
          ∙ append_assoc p (fixed_wire d.lidar_sn) (fixed_wire d.hub_sn ++ t2)))

-- The loop over the devices fills the rest of the header.
put_devices_lem :
    (p out : List ℕ) (off : ℕ) (ds : List Lvx2DeviceInfo)
    → off ≡ length p
    → length out ≡ off + 63 * length ds
    → All IsDevice ds
    → put_devices {E = Lvx2Error} (p ++ drop off out) off ds ≡ ok (p ++ devices_wire ds)
unfolding put_devices
put_devices_lem p out off [] at size valid =
    let e : off ≡ length out = omega arith in
    ap (λ k. ok (p ++ drop k out)) e ∙ ap (λ t. ok (p ++ t)) (drop_all out)
put_devices_lem p out off (d ∷ ds) at size (v, vs) =
    let a = length-fixed_wire d.lidar_sn v.lidar_sn_size in
    let b = length-fixed_wire d.hub_sn v.hub_sn_size in
    let wide : length (device_wire d) ≡ 63 = omega (
      arith,
      length-append (fixed_wire d.lidar_sn) (fixed_wire d.hub_sn ++ device_tail d),
      length-append (fixed_wire d.hub_sn) (device_tail d),
      a,
      b,
    ) in
    let rest =
      put_devices_lem (p ++ device_wire d) out (off + 63) ds
        (omega (arith, length-append p (device_wire d), wide, at)) (omega arith) vs in
    rw (put_devices, put_device_lem p out off d at (omega arith) v)
      (rest ∙ ap ok (append_assoc p (device_wire d) (devices_wire ds)))

pub file_header_lem :
    (devices : List Lvx2DeviceInfo) (frame_duration_ms : ℕ)
    → All IsDevice devices
    → file_header {E = Lvx2Error} devices frame_duration_ms
      ≡ ok (head_wire (length devices) frame_duration_ms ++ devices_wire devices)
unfolding file_header
file_header_lem devices frame_duration_ms valid =
    let n = length devices in
    let zeros : List ℕ = replicate (63 * n) 0 in
    let size : length zeros ≡ 63 * n = length-replicate (63 * n) 0 in
    let out : List ℕ = replicate 29 0 ++ zeros in
    let p16 : List ℕ = signature in
    let p20 : List ℕ = signature ++ (2 ∷ 0 ∷ 0 ∷ 0 ∷ []) in
    let p24 : List ℕ = p20 ++ le_bytes 4 magic in
    let p28 : List ℕ = p24 ++ le_bytes 4 frame_duration_ms in
    rw
      (
        replicate-add 29 (63 * n),
        put_next [] out 0 16 refl (omega arith) signature refl,
        write_next p16 out 16 17 refl (omega arith) 1 2 refl,
        write_next p20 out 20 24 refl (omega arith) 4 magic refl,
        write_next p24 out 24 28 refl (omega arith) 4 frame_duration_ms refl,
        write_next p28 out 28 29 refl (omega arith) 1 n refl,
      )
      (put_devices_lem (head_wire n frame_duration_ms) out 29 devices refl (omega (arith, size))
        valid)
