-- ===== src/FrameAssembler/Points/Adding.antt =====
-- What `append` adds to the open frame.
use mathlib.Core.List.{append_assoc, append-nil}
use livox_mid360_core.Prelude.{
  ℕ, zero, suc, ◌+◌, ◌-◌, ◌%◌, ◌^◌, ◌≤◌, ◌<◌, ◌≡◌, refl, sym, ap, ◌∙◌, List, [], ◌∷◌, ◌++◌, length,
  ok, min, max, Bool, false, arith, is_ok_value, Result,
}
use livox_mid360_core.Prelude.Int.{pos}
use livox_mid360_core.FrameAssembler.TimeMapper.{add64, sub64}
use livox_mid360_core.Bytes.{All}
use livox_mid360_core.Protocol.Types.{
  ParseError, DataType, imu, cartesian32, cartesian16, spherical, DataPacketView, CartesianPoint,
  SphericalPoint,
}
use livox_mid360_core.Protocol.DataPacket.{
  parse_data_packet, decode_cartesian32, decode_cartesian16, decode_spherical, same_type,
  sample_timestamp_ns,
}
use livox_mid360_core.Protocol.DataPacket.Samples.{DecodesAt, parse_data_packet-DecodesAt}
use livox_mid360_core.FrameAssembler.Points.{
  Floats, Point, Frame, convert_as, convert_point, append_from, append, offset_from, sample_time,
  scaled, from_spherical,
}

-- A packet that the parser returned, with its checksum verified or not.
abbrev pub IsParsed : DataPacketView → Type 0
IsParsed pkt =
    (packet : List ℕ) × (verify_crc : Bool) × (parse_data_packet packet verify_crc ≡ ok pkt)

offset_from-lt : (fl : Floats) (base ts : ℕ) → offset_from fl base ts < 2 ^ 32
offset_from-lt fl base ts = ground arith

-- The time of sample `i` of a packet at the time `t₀`, from `base` on, as far as 32 bits reach.
abbrev pub time_after : DataPacketView → ℕ → ℕ → ℕ → ℕ
time_after pkt t₀ base i =
    min (add64 t₀ (sub64 (sample_timestamp_ns pkt.header i) pkt.header.timestamp_ns) - base)
      0xFFFFFFFF

module _ (fl : Floats) where
  open fl use {Float, from_int, times, sin, cos, milli, centi, centideg_to_rad}

  offset_lem :
      (pkt : DataPacketView) (t₀ base i : ℕ)
      → offset_from fl base (sample_time fl pkt t₀ i) ≡ time_after pkt t₀ base i
  offset_lem pkt t₀ base i = clamp (sample_time fl pkt t₀ i)
    where
      clamp : (ts : ℕ) → offset_from fl base ts ≡ min (ts - base) 0xFFFFFFFF
      clamp ts = ground arith

  -- `p` is sample `i` of a packet at the time `t₀`, of the type `t`, in a frame that starts at `base`.
  abbrev pub IsSample : DataType → DataPacketView → ℕ → ℕ → ℕ → Point Float → Type 0
  IsSample imu pkt t₀ base i p = ⊥
  IsSample cartesian32 pkt t₀ base i p =
      (s : CartesianPoint) × (decode_cartesian32 {E = ParseError} pkt i ≡ ok s)
      × (p ≡ record {
        x = times (from_int s.x) milli;
        y = times (from_int s.y) milli;
        z = times (from_int s.z) milli;
        reflectivity = s.reflectivity;
        tag = s.tag;
        line = i % 4;
        offset_ns = time_after pkt t₀ base i;
      })
  IsSample cartesian16 pkt t₀ base i p =
      (s : CartesianPoint) × (decode_cartesian16 {E = ParseError} pkt i ≡ ok s)
      × (p ≡ record {
        x = times (from_int s.x) centi;
        y = times (from_int s.y) centi;
        z = times (from_int s.z) centi;
        reflectivity = s.reflectivity;
        tag = s.tag;
        line = i % 4;
        offset_ns = time_after pkt t₀ base i;
      })
  IsSample spherical pkt t₀ base i p =
      (s : SphericalPoint) × (decode_spherical {E = ParseError} pkt i ≡ ok s)
      × (p ≡ record {
        x =
            times
              (times (times (from_int (pos s.depth_mm)) milli)
                (sin (times (from_int (pos s.theta_centideg)) centideg_to_rad)))
              (cos (times (from_int (pos s.phi_centideg)) centideg_to_rad));
        y =
            times
              (times (times (from_int (pos s.depth_mm)) milli)
                (sin (times (from_int (pos s.theta_centideg)) centideg_to_rad)))
              (sin (times (from_int (pos s.phi_centideg)) centideg_to_rad));
        z =
            times (times (from_int (pos s.depth_mm)) milli)
              (cos (times (from_int (pos s.theta_centideg)) centideg_to_rad));
        reflectivity = s.reflectivity;
        tag = s.tag;
        line = i % 4;
        offset_ns = time_after pkt t₀ base i;
      })

  -- The points are the samples from `i` on, in order.
  abbrev pub AreSamples : DataPacketView → ℕ → ℕ → ℕ → List (Point Float) → Type 0
  AreSamples pkt t₀ base i [] = Unit {0}
  AreSamples pkt t₀ base i (p ∷ ps) =
      IsSample pkt.header.data_type pkt t₀ base i p × AreSamples pkt t₀ base (i + 1) ps

  -- What the loop makes of sample `i`.
  abbrev Converts : DataType → DataPacketView → ℕ → Type 0
  Converts t pkt i =
      (p : Point Float) × (convert_as fl {E = ParseError} t pkt i ≡ ok p)
      × ((t₀ base : ℕ)
          → IsSample t pkt t₀ base i
              (record p { offset_ns = offset_from fl base (sample_time fl pkt t₀ i) }))

  convert_as-Converts :
      (t : DataType) (pkt : DataPacketView) (i : ℕ)
      → same_type t imu ≡ false
      → DecodesAt t pkt i
      → Converts t pkt i
  unfolding convert_as
  convert_as-Converts imu pkt i other h = cc
  convert_as-Converts cartesian32 pkt i other h =
      let (s, e) = is_ok_value (decode_cartesian32 {E = ParseError} pkt i) h in
      (
        scaled fl milli s i,
        rw e refl,
        λ t₀ base. (
          s,
          e,
          ap (λ d. record (scaled fl milli s i) { offset_ns = d }) (offset_lem pkt t₀ base i),
        ),
      )
  convert_as-Converts cartesian16 pkt i other h =
      let (s, e) = is_ok_value (decode_cartesian16 {E = ParseError} pkt i) h in
      (
        scaled fl centi s i,
        rw e refl,
        λ t₀ base. (
          s,
          e,
          ap (λ d. record (scaled fl centi s i) { offset_ns = d }) (offset_lem pkt t₀ base i),
        ),
      )
  convert_as-Converts spherical pkt i other h =
      let (s, e) = is_ok_value (decode_spherical {E = ParseError} pkt i) h in
      (
        from_spherical fl s i,
        rw e refl,
        λ t₀ base. (
          s,
          e,
          ap (λ d. record (from_spherical fl s i) { offset_ns = d }) (offset_lem pkt t₀ base i),
        ),
      )

  -- The result is `cur` with `n` points more, which are the samples from `i` on, whose offsets fit 32
  -- bits, and a later end.
  abbrev pub AddsTo :
      DataPacketView → ℕ → ℕ → Frame Float → ℕ → Result ParseError (Frame Float) → Type 0
  AddsTo pkt t₀ i cur n r =
      (new : List (Point Float)) × (end : ℕ) × (r
        ≡ ok (record cur { points = cur.points ++ new; end_time_ns = end }))
      × (length new ≡ n)
      × AreSamples pkt t₀ cur.base_time_ns i new
      × All (λ p. p.offset_ns < 2 ^ 32) new
      × (cur.end_time_ns ≤ end)

  append_from-AddsTo :
      (pkt : DataPacketView) (t₀ n i : ℕ) (cur : Frame Float)
      → ((k : ℕ) → k < i + n → Converts pkt.header.data_type pkt k)
      → AddsTo pkt t₀ i cur n (append_from fl pkt t₀ n i cur)
  unfolding append_from convert_point
  append_from-AddsTo pkt t₀ zero i cur h = (
    [],
    cur.end_time_ns,
    ap (λ ps. ok (record cur { points = ps })) (sym (append-nil cur.points)),
    refl,
    tt,
    tt,
    omega arith,
  )
  append_from-AddsTo pkt t₀ (suc n) i cur h =
      let (p, e, sample) = h i (omega arith) in
      let ts = sample_time fl pkt t₀ i in
      let point : Point Float = record p { offset_ns = offset_from fl cur.base_time_ns ts } in
      let next : Frame Float = record cur {
        points = cur.points ++ (point ∷ []);
        end_time_ns = max cur.end_time_ns ts;
      } in
      let (new, end, er, size, samples, small, later) =
        append_from-AddsTo pkt t₀ n (i + 1) next (λ k below. h k (omega arith)) in
      (
        point ∷ new,
        end,
        rw e (
            er
            ∙ ap (λ ps. ok (record cur { points = ps; end_time_ns = end }))
                (append_assoc cur.points (point ∷ []) new)),
        ap suc size,
        (sample t₀ cur.base_time_ns, samples),
        (offset_from-lt fl cur.base_time_ns ts, small),
        omega (arith, later),
      )

  pub append-AddsTo :
      (pkt : DataPacketView) (t₀ : ℕ) (cur : Frame Float)
      → IsParsed pkt
      → same_type pkt.header.data_type imu ≡ false
      → AddsTo pkt t₀ 0 cur pkt.header.dot_num (append fl pkt t₀ cur)
  unfolding append
  append-AddsTo pkt t₀ cur (packet, verify_crc, e) other =
      append_from-AddsTo pkt t₀ pkt.header.dot_num 0 cur (λ k below.
        convert_as-Converts pkt.header.data_type pkt k other
          (parse_data_packet-DecodesAt packet verify_crc pkt k e (omega arith)))
