-- ===== src/Protocol/CommandFrame/RoundTrip.antt =====
-- What is encoded parses back.
use mathlib.Core.List.{append-nil}
use livox_mid360_core.Prelude.{
  ℕ, ◌+◌, ◌-◌, ◌^◌, ◌≤◌, ◌<◌, ◌≡◌, refl, sym, ap, ◌∙◌, List, [], ◌∷◌, ◌++◌, length, take, drop,
  replicate, ok, arith, ltb, ◌==◌, true, false, take-append, drop-append, ==_iff, length-append,
}
use livox_mid360_core.Bytes.{subspan, read_le, le_bytes, le_value}
use livox_mid360_core.Bytes.Laws.{le_value-le_bytes, read_le_ok, subspan_ok}
use livox_mid360_core.Crc
use livox_mid360_core.Crc.Bounds.{crc16_ccitt_false-lt, crc32-lt}
use livox_mid360_core.Protocol.Types.{ParseError, CommandFrameSpec, CommandFrameView}
use livox_mid360_core.Protocol.CommandFrame.{
  parse_command_frame, encode_command_frame, payload_crc32,
}
use livox_mid360_core.Protocol.CommandFrame.Encode.{
  header_wire, frame_wire, encode_command_frame_lem,
}

-- The fields fit their types.
pub record IsSpec (spec : CommandFrameSpec) : Type 0 where
  pub seq_num : spec.seq_num < 2 ^ 32
  pub cmd_id : spec.cmd_id < 2 ^ 16
  pub cmd_type : spec.cmd_type < 2 ^ 8
  pub sender_type : spec.sender_type < 2 ^ 8

-- The view of the frame that a specification describes.
abbrev pub view_of : CommandFrameSpec → CommandFrameView
view_of spec = record {
  header = record {
    frame_length = 24 + length spec.payload;
    seq_num = spec.seq_num;
    cmd_id = spec.cmd_id;
    cmd_type = spec.cmd_type;
    sender_type = spec.sender_type;
    resv = replicate 6 0;
    crc16 = Crc.crc16_ccitt_false (header_wire spec) 0xFFFF;
    crc32 = payload_crc32 spec.payload;
  };
  payload = spec.payload;
}

==_refl : (a : ℕ) → (a == a) ≡ true
==_refl a = (==_iff a a).1 refl

payload_crc32-lt : (payload : List ℕ) → payload_crc32 payload < 2 ^ 32
unfolding payload_crc32
payload_crc32-lt [] = omega arith
payload_crc32-lt (b ∷ payload) = crc32-lt (b ∷ payload) 0 (omega arith)

module _ (spec : CommandFrameSpec) (rest : List ℕ) where
  abbrev wire : List ℕ
  wire = frame_wire spec ++ rest

  long_enough : 24 + length spec.payload ≤ length wire
  long_enough = omega (arith, length-append spec.payload rest)

  field :
      (w off v : ℕ)
      → off + w ≤ 24
      → v < 256 ^ w
      → take w (drop off wire) ≡ le_bytes w v
      → read_le {E = ParseError} w wire off ≡ ok v
  field w off v inside range e =
      read_le_ok w wire off (omega (arith, long_enough))
      ∙ ap (λ bs. ok (le_value bs)) e
      ∙ ap ok (le_value-le_bytes w v range)

  payload_back : subspan {E = ParseError} wire 24 (24 + length spec.payload - 24) ≡ ok spec.payload
  payload_back =
      let n = length spec.payload in
      let e : 24 + n - 24 ≡ n = omega arith in
      rw e (subspan_ok wire 24 n long_enough ∙ ap ok (take-append spec.payload rest))

  parse-frame_wire :
      IsSpec spec → length spec.payload ≤ 1376 → parse_command_frame wire ≡ ok (view_of spec)
  unfolding parse_command_frame
  parse-frame_wire valid small =
      let n = length spec.payload in
      let crc16 = Crc.crc16_ccitt_false (header_wire spec) 0xFFFF in
      let long : ltb (length wire) 24 ≡ false = ground (arith, long_enough) in
      let low : ltb (24 + n) 24 ≡ false = ground arith in
      let high : ltb 1400 (24 + n) ≡ false = ground arith in
      let over : ltb (length wire) (24 + n) ≡ false = ground (arith, long_enough) in
      rw (
        long,
        field 1 0 0xAA (omega arith) (omega arith) refl,
        field 1 1 0 (omega arith) (omega arith) refl,
        field 2 2 (24 + n) (omega arith) (omega arith) refl,
        field 4 4 spec.seq_num (omega arith) valid.seq_num refl,
        field 2 8 spec.cmd_id (omega arith) valid.cmd_id refl,
        field 1 10 spec.cmd_type (omega arith) valid.cmd_type refl,
        field 1 11 spec.sender_type (omega arith) valid.sender_type refl,
        subspan_ok {E = ParseError} wire 12 6 (omega (arith, long_enough)),
        field 2 18 crc16 (omega arith)
            (crc16_ccitt_false-lt (header_wire spec) 0xFFFF (omega arith)) refl,
        field 4 20 (payload_crc32 spec.payload) (omega arith) (payload_crc32-lt spec.payload) refl,
        subspan_ok {E = ParseError} wire 0 18 (omega (arith, long_enough)),
        low,
        high,
        over,
        ==_refl crc16,
        payload_back,
        ==_refl (payload_crc32 spec.payload),
      )

-- Without anything behind it.
pub parse_command_frame-frame_wire :
    (spec : CommandFrameSpec)
    → IsSpec spec
    → length spec.payload ≤ 1376
    → parse_command_frame (frame_wire spec) ≡ ok (view_of spec)
parse_command_frame-frame_wire spec valid small =
    ap parse_command_frame (sym (append-nil (frame_wire spec)))
    ∙ parse-frame_wire spec [] valid small

-- A frame that is encoded into a buffer with room for it parses back to its fields, its payload and
-- its two checksums, and the bytes of the buffer behind it are neither changed nor read.
pub parse_command_frame-encode_command_frame :
    (out : List ℕ) (spec : CommandFrameSpec)
    → IsSpec spec
    → length spec.payload ≤ 1376
    → 24 + length spec.payload ≤ length out
    → (written : List ℕ) × (encode_command_frame out spec ≡ ok (written, 24 + length spec.payload))
      × (drop (24 + length spec.payload) written ≡ drop (24 + length spec.payload) out)
      × (parse_command_frame written ≡ ok (view_of spec))
parse_command_frame-encode_command_frame out spec valid small room =
    let n = 24 + length spec.payload in
    let size : length (frame_wire spec) ≡ n = omega arith in
    (
      frame_wire spec ++ drop n out,
      encode_command_frame_lem out spec small room,
      ap (λ k. drop k (frame_wire spec ++ drop n out)) (sym size)
          ∙ drop-append (frame_wire spec) (drop n out),
      parse-frame_wire spec (drop n out) valid small,
    )
