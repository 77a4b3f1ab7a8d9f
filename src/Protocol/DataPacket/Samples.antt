-- ===== src/Protocol/DataPacket/Samples.antt =====
-- The sample decoders on a packet that the parser accepted.
use livox_mid360_core.Prelude.{
  ℕ, zero, suc, ◌+◌, ◌*◌, ◌≤◌, ◌<◌, ◌≡◌, refl, Bool, List, [], ◌∷◌, ◌++◌, length, Result, ok, arith,
  if◌then◌else◌, subst, is_ok, is_ok_value, Safe_ok, Bool-cases, inl, inr, true, length-append,
}
use livox_mid360_core.Bytes.Laws.{read_le_ok}
use livox_mid360_core.Protocol.Types.{
  ParseError, DataPacketView, DataType, imu, cartesian32, cartesian16, spherical, sample_size,
}
use livox_mid360_core.Protocol.DataPacket.{
  parse_data_packet, same_type, decode_cartesian32, decode_cartesian16, decode_spherical,
  decode_imu, decode_from, decode_all,
}
use livox_mid360_core.Protocol.DataPacket.Parse.{IsPacketOf, parse_data_packet-Safe}

module _ (p : DataPacketView) (i : ℕ) where
  cartesian32_reads :
      i * 14 + 14 ≤ length p.samples → is_ok (decode_cartesian32 {E = ParseError} p i) ≡ true
  unfolding decode_cartesian32
  cartesian32_reads h = rw (
    read_le_ok 4 p.samples (i * 14) (omega arith),
    read_le_ok 4 p.samples (i * 14 + 4) (omega arith),
    read_le_ok 4 p.samples (i * 14 + 8) (omega arith),
    read_le_ok 1 p.samples (i * 14 + 12) (omega arith),
    read_le_ok 1 p.samples (i * 14 + 13) (omega arith),
  )

  cartesian16_reads :
      i * 8 + 8 ≤ length p.samples → is_ok (decode_cartesian16 {E = ParseError} p i) ≡ true
  unfolding decode_cartesian16
  cartesian16_reads h = rw (
    read_le_ok 2 p.samples (i * 8) (omega arith),
    read_le_ok 2 p.samples (i * 8 + 2) (omega arith),
    read_le_ok 2 p.samples (i * 8 + 4) (omega arith),
    read_le_ok 1 p.samples (i * 8 + 6) (omega arith),
    read_le_ok 1 p.samples (i * 8 + 7) (omega arith),
  )

  spherical_reads :
      i * 10 + 10 ≤ length p.samples → is_ok (decode_spherical {E = ParseError} p i) ≡ true
  unfolding decode_spherical
  spherical_reads h = rw (
    read_le_ok 4 p.samples (i * 10) (omega arith),
    read_le_ok 2 p.samples (i * 10 + 4) (omega arith),
    read_le_ok 2 p.samples (i * 10 + 6) (omega arith),
    read_le_ok 1 p.samples (i * 10 + 8) (omega arith),
    read_le_ok 1 p.samples (i * 10 + 9) (omega arith),
  )

  imu_reads : i * 24 + 24 ≤ length p.samples → is_ok (decode_imu {E = ParseError} p i) ≡ true
  unfolding decode_imu
  imu_reads h = rw (
    read_le_ok 4 p.samples (i * 24) (omega arith),
    read_le_ok 4 p.samples (i * 24 + 4) (omega arith),
    read_le_ok 4 p.samples (i * 24 + 8) (omega arith),
    read_le_ok 4 p.samples (i * 24 + 12) (omega arith),
    read_le_ok 4 p.samples (i * 24 + 16) (omega arith),
    read_le_ok 4 p.samples (i * 24 + 20) (omega arith),
  )

-- The decoder of the packet's own type succeeds at sample `i`.
abbrev pub DecodesAt : DataType → DataPacketView → ℕ → Type 0
DecodesAt imu p i = is_ok (decode_imu {E = ParseError} p i) ≡ true
DecodesAt cartesian32 p i = is_ok (decode_cartesian32 {E = ParseError} p i) ≡ true
DecodesAt cartesian16 p i = is_ok (decode_cartesian16 {E = ParseError} p i) ≡ true
DecodesAt spherical p i = is_ok (decode_spherical {E = ParseError} p i) ≡ true

filled-DecodesAt :
    (t : DataType) (p : DataPacketView) (i n : ℕ)
    → length p.samples ≡ n * sample_size t
    → i < n
    → DecodesAt t p i
filled-DecodesAt imu p i n filled h = imu_reads p i (omega arith)
filled-DecodesAt cartesian32 p i n filled h = cartesian32_reads p i (omega arith)
filled-DecodesAt cartesian16 p i n filled h = cartesian16_reads p i (omega arith)
filled-DecodesAt spherical p i n filled h = spherical_reads p i (omega arith)

-- In a packet that the parser accepted, checksum verified or not, the decoder of the packet's type
-- reads every sample below `dot_num` without leaving the payload.
pub parse_data_packet-DecodesAt :
    (packet : List ℕ) (verify_crc : Bool) (p : DataPacketView) (i : ℕ)
    → parse_data_packet packet verify_crc ≡ ok p
    → i < p.header.dot_num
    → DecodesAt p.header.data_type p i
parse_data_packet-DecodesAt packet verify_crc p i e h =
    filled-DecodesAt p.header.data_type p i p.header.dot_num
      (Safe_ok (IsPacketOf packet) (parse_data_packet-Safe packet verify_crc) e).filled h

decode_from-length {ℓ} :
    {E : Type 0} {T : Type ℓ} (f : ℕ → Result E T) (n i : ℕ) (out : List T)
    → ((k : ℕ) → k < i + n → is_ok (f k) ≡ true)
    → (r : List T) × (decode_from f n i out ≡ ok r) × (length r ≡ length out + n)
unfolding decode_from
decode_from-length f zero i out h = (out, refl, omega arith)
decode_from-length f (suc n) i out h =
    let (v, e) = is_ok_value (f i) (h i (omega arith)) in
    let (r, er, size) =
      decode_from-length f n (i + 1) (out ++ (v ∷ [])) (λ k below. h k (omega arith)) in
    (r, rw e er, omega (arith, size, length-append out (v ∷ [])))

abbrev pub DecodesAll {ℓ} :
    {T : Type ℓ} → DataPacketView → DataType → (DataPacketView → ℕ → Result ParseError T) → Type ℓ
DecodesAll {T = T} p t f =
    (r : List T) × (decode_all p t f ≡ ok r)
    × (length r ≡ (if same_type p.header.data_type t then p.header.dot_num else 0))

pub same_type-eq : (a b : DataType) → same_type a b ≡ true → a ≡ b
same_type-eq imu imu h = refl
same_type-eq cartesian32 cartesian32 h = refl
same_type-eq cartesian16 cartesian16 h = refl
same_type-eq spherical spherical h = refl
same_type-eq _ _ h = cc

filled-DecodesAll {ℓ} :
    {T : Type ℓ} (p : DataPacketView) (t : DataType) (f : DataPacketView → ℕ → Result ParseError T)
    → (p.header.data_type ≡ t → (i : ℕ) → i < p.header.dot_num → is_ok (f p i) ≡ true)
    → DecodesAll p t f
unfolding decode_all
filled-DecodesAll p t f h = elim (Bool-cases (same_type p.header.data_type t)) [
  | inl same ↦
      let (r, e, size) =
        decode_from-length (f p) p.header.dot_num 0 []
          (λ k below. h (same_type-eq _ t same) k (omega arith)) in
      (r, rw same e, rw same (omega (arith, size)))
  | inr other ↦ ([], rw other, rw other)
]

-- On an accepted packet every whole-packet decoder succeeds: with `dot_num` samples if the packet
-- is of its type, and with none otherwise.
pub parse_data_packet-DecodesAll :
    (packet : List ℕ) (verify_crc : Bool) (p : DataPacketView)
    → parse_data_packet packet verify_crc ≡ ok p
    → DecodesAll p cartesian32 decode_cartesian32
      × DecodesAll p cartesian16 decode_cartesian16
      × DecodesAll p spherical decode_spherical
      × DecodesAll p imu decode_imu
parse_data_packet-DecodesAll packet verify_crc p e =
    let at : (t : DataType)
        → p.header.data_type ≡ t
        → (i : ℕ) → i < p.header.dot_num
        → DecodesAt t p i =
      λ t same i h.
        subst (λ t. DecodesAt t p i) same (parse_data_packet-DecodesAt packet verify_crc p i e h) in
    (
      filled-DecodesAll p cartesian32 decode_cartesian32 (at cartesian32),
      filled-DecodesAll p cartesian16 decode_cartesian16 (at cartesian16),
      filled-DecodesAll p spherical decode_spherical (at spherical),
      filled-DecodesAll p imu decode_imu (at imu),
    )
