-- ===== src/Protocol/DataPacket/Timestamps.antt =====
-- The times that `sample_timestamp_ns` spreads over a packet.
use native.Mathlib.Nat.{
  mul-le-mul_left, mul-le-mul, mul-div_cancel, zero-div, le-div_iff_mul-le, div-mul-le_self,
  le_trans,
}
use livox_mid360_core.Prelude.{
  ℕ, ◌+◌, ◌-◌, ◌*◌, ◌/◌, ◌%◌, ◌^◌, ◌≤◌, ◌<◌, ◌≡◌, ap, ◌∙◌, inl, inr, Bool-cases, false, arith, leb,
  ◌==◌, ==_iff,
}
use livox_mid360_core.Protocol.Types.{DataPacketHeader}
use livox_mid360_core.Protocol.DataPacket.{sample_timestamp_ns}

div_mono : (x y d : ℕ) → 0 < d → x ≤ y → x / d ≤ y / d
div_mono x y d pos h = (le-div_iff_mul-le pos).1 (le_trans (div-mul-le_self x d) h)

-- The span fits, so that no sample time wraps.
pub record IsSpan (h : DataPacketHeader) : Type 0 where
  pub interval : h.time_interval < 2 ^ 16
  pub count : h.dot_num < 2 ^ 16
  pub fits : h.timestamp_ns + h.time_interval * 100 < 2 ^ 64

module _ (h : DataPacketHeader) (valid : IsSpan h) where
  share_fits :
      (i : ℕ)
      → i < h.dot_num
      → 1 < h.dot_num
      → h.time_interval * 100 * i / (h.dot_num - 1) ≤ h.time_interval * 100
  share_fits i below many =
      let span = h.time_interval * 100 in
      let d = h.dot_num - 1 in
      let pos : 0 < d = omega arith in
      let up : i ≤ d = omega arith in
      let all : span * d / d ≤ span = omega (arith, mul-div_cancel span pos) in
      le_trans (div_mono (span * i) (span * d) d pos (mul-le-mul_left span up)) all

  sample_time :
      (i : ℕ)
      → i < h.dot_num
      → 1 < h.dot_num
      → sample_timestamp_ns h i ≡ h.timestamp_ns + h.time_interval * 100 * i / (h.dot_num - 1)
  unfolding sample_timestamp_ns
  sample_time i below many =
      let span = h.time_interval * 100 in
      let d = h.dot_num - 1 in
      let narrow : span ≤ 6553500 = omega (arith, valid.interval) in
      let few : i ≤ 65535 = omega (arith, valid.count) in
      let product : span * i ≤ 6553500 * 65535 = mul-le-mul narrow few in
      let cut : span * i % 2 ^ 64 ≡ span * i = omega (arith, product) in
      let share : span * i / d ≤ span = share_fits i below many in
      let sum : (h.timestamp_ns + span * i / d) % 2 ^ 64 ≡ h.timestamp_ns + span * i / d =
        omega (arith, share, valid.fits) in
      let several : leb h.dot_num 1 ≡ false = ground arith in
      rw (several, cut, sum)
        (elim (Bool-cases (i == 0)) [
          | inl first ↦
              let zero_share : span * i ≡ 0 =
                omega (arith, ap (λ (t : ℕ). span * t) ((==_iff i 0).0 first)) in
              let none : span * i / d ≡ 0 = ap (λ t. t / d) zero_share ∙ zero-div d in
              rw first (omega (arith, none))
          | inr later ↦ rw later
        ])

-- In a packet whose span does not pass 2 ^ 64 the sample times start at the header's time, never
-- fall, and end at the header's time plus `time_interval`, if there are two samples or more.
pub sample_timestamp_ns_order :
    (h : DataPacketHeader) (i j : ℕ)
    → IsSpan h
    → i ≤ j
    → j < h.dot_num
    → 1 < h.dot_num
    → (sample_timestamp_ns h 0 ≡ h.timestamp_ns)
      × (sample_timestamp_ns h i ≤ sample_timestamp_ns h j)
      × (sample_timestamp_ns h (h.dot_num - 1) ≡ h.timestamp_ns + h.time_interval * 100)
sample_timestamp_ns_order h i j valid le below many =
    let span = h.time_interval * 100 in
    let d = h.dot_num - 1 in
    let pos : 0 < d = omega arith in
    (
      omega (arith, sample_time h valid 0 (omega arith) many, zero-div d),
      omega (
        arith,
        sample_time h valid i (omega arith) many,
        sample_time h valid j below many,
        div_mono (span * i) (span * j) d pos (mul-le-mul_left span le),
      ),
      omega (arith, sample_time h valid d (omega arith) many, mul-div_cancel span pos),
    )
