-- ===== src/Recording/Devices.antt =====
-- A device of the header is read back.
use livox_mid360_core.Prelude.{
  ℕ, zero, suc, ◌+◌, ◌-◌, ◌^◌, ◌≤◌, ◌<◌, ◌≡◌, ◌≢◌, refl, sym, ap, ◌∙◌, List, [], ◌∷◌, ◌++◌, length,
  take, drop, replicate, Bool-cases, inl, inr, false, not, ◌==◌, ok, arith, length-append,
  take-append, drop-append, drop-drop,
}
use livox_mid360_core.Bytes.{All, le_bytes, le_value, read_le}
use livox_mid360_core.Bytes.Laws.{le_value-le_bytes, read_le_ok, subspan_ok}
use livox_mid360_core.Protocol.Acks.{until_nul}
use livox_mid360_core.Recording.{Lvx2Error, Lvx2DeviceInfo}
use livox_mid360_core.Recording.Writer.{flag}
use livox_mid360_core.Recording.Reader.{get_fixed, read_device}
use livox_mid360_core.Recording.Header.{
  fixed_wire, device_tail, device_wire, IsDevice, length-fixed_wire,
}

until_nul-zeros : (k : ℕ) → until_nul (replicate k 0) ≡ []
unfolding until_nul
until_nul-zeros zero = refl
until_nul-zeros (suc k) = refl

until_nul-fixed : (s : List ℕ) (k : ℕ) → All (λ c. c ≢ 0) s → until_nul (s ++ replicate k 0) ≡ s
unfolding until_nul
until_nul-fixed [] k h = until_nul-zeros k
until_nul-fixed (c ∷ s) k (h, hs) =
    let e : (c == 0) ≡ false = ground (arith, h) in rw e (ap (◌∷◌ c) (until_nul-fixed s k hs))

module _ (d : Lvx2DeviceInfo) (valid : IsDevice d) where
  sn_size : length (fixed_wire d.lidar_sn) ≡ 16
  sn_size = length-fixed_wire d.lidar_sn valid.lidar_sn_size

  hub_size : length (fixed_wire d.hub_sn) ≡ 16
  hub_size = length-fixed_wire d.hub_sn valid.hub_sn_size

  pub device_size : length (device_wire d) ≡ 63
  device_size = omega (
    arith,
    length-append (fixed_wire d.lidar_sn) (fixed_wire d.hub_sn ++ device_tail d),
    length-append (fixed_wire d.hub_sn) (device_tail d),
    sn_size,
    hub_size,
  )

  behind_sn : drop 16 (device_wire d) ≡ fixed_wire d.hub_sn ++ device_tail d
  behind_sn =
      ap (λ k. drop k (device_wire d)) (sym sn_size)
      ∙ drop-append (fixed_wire d.lidar_sn) (fixed_wire d.hub_sn ++ device_tail d)

  behind_hub : drop 32 (device_wire d) ≡ device_tail d
  behind_hub =
      sym (drop-drop 16 16 (device_wire d))
      ∙ ap (λ t. drop 16 t) behind_sn
      ∙ ap (λ k. drop k (fixed_wire d.hub_sn ++ device_tail d)) (sym hub_size)
      ∙ drop-append (fixed_wire d.hub_sn) (device_tail d)

  field :
      (w j v : ℕ)
      → 32 + j + w ≤ 63
      → v < 256 ^ w
      → take w (drop j (device_tail d)) ≡ le_bytes w v
      → read_le {E = Lvx2Error} w (device_wire d) (32 + j) ≡ ok v
  field w j v inside range e =
      read_le_ok w (device_wire d) (32 + j) (omega (arith, device_size))
      ∙ ap (λ t. ok (le_value (take w t)))
          (sym (drop-drop j 32 (device_wire d)) ∙ ap (λ t. drop j t) behind_hub)
      ∙ ap (λ bs. ok (le_value bs)) e
      ∙ ap ok (le_value-le_bytes w v range)

  sn_back : get_fixed {E = Lvx2Error} (device_wire d) 0 16 ≡ ok d.lidar_sn
  unfolding get_fixed
  sn_back =
      let s = fixed_wire d.lidar_sn in
      let front : take 16 (device_wire d) ≡ s =
        ap (λ k. take k (device_wire d)) (sym sn_size)
        ∙ take-append s (fixed_wire d.hub_sn ++ device_tail d) in
      rw (subspan_ok {E = Lvx2Error} (device_wire d) 0 16 (omega (arith, device_size)), front)
        (ap ok (until_nul-fixed d.lidar_sn (16 - length d.lidar_sn) valid.lidar_sn))

  hub_back : get_fixed {E = Lvx2Error} (device_wire d) 16 16 ≡ ok d.hub_sn
  unfolding get_fixed
  hub_back =
      let s = fixed_wire d.hub_sn in
      let front : take 16 (s ++ device_tail d) ≡ s =
        ap (λ k. take k (s ++ device_tail d)) (sym hub_size) ∙ take-append s (device_tail d) in
      rw
        (
          subspan_ok {E = Lvx2Error} (device_wire d) 16 16 (omega (arith, device_size)),
          behind_sn,
          front,
        )
        (ap ok (until_nul-fixed d.hub_sn (16 - length d.hub_sn) valid.hub_sn))

  flag_back : not (flag d.extrinsic_enable == 0) ≡ d.extrinsic_enable
  flag_back = elim (Bool-cases d.extrinsic_enable) [ inl e ↦ rw e refl | inr e ↦ rw e refl ]

  flag_small : flag d.extrinsic_enable < 256
  flag_small = elim (Bool-cases d.extrinsic_enable) [
    | inl e ↦ rw e (omega arith)
    | inr e ↦ rw e (omega arith)
  ]

  pub read_device_lem : read_device {E = Lvx2Error} (device_wire d) ≡ ok d
  unfolding read_device
  read_device_lem = rw (
    read_device,
    sn_back,
    hub_back,
    field 4 0 d.lidar_id (omega arith) valid.lidar_id refl,
    field 1 4 d.lidar_type (omega arith) valid.lidar_type refl,
    field 1 5 d.device_type (omega arith) valid.device_type refl,
    field 1 6 (flag d.extrinsic_enable) (omega arith) flag_small refl,
    field 4 7 d.roll_deg (omega arith) valid.roll_deg refl,
    field 4 11 d.pitch_deg (omega arith) valid.pitch_deg refl,
    field 4 15 d.yaw_deg (omega arith) valid.yaw_deg refl,
    field 4 19 d.x_m (omega arith) valid.x_m refl,
    field 4 23 d.y_m (omega arith) valid.y_m refl,
    field 4 27 d.z_m (omega arith) valid.z_m refl,
    flag_back,
  )
