-- ===== src/Protocol/CommandFrame/Encode.antt =====
-- The bytes that `encode_command_frame` leaves in the buffer.
use mathlib.Core.List.{append_assoc, append-nil}
use livox_mid360_core.Prelude.{
  ℕ, ◌+◌, ◌≤◌, ◌<◌, ◌≡◌, refl, sym, ap, ◌∙◌, List, [], ◌∷◌, ◌++◌, length, take, drop, replicate, ok,
  err, arith, ltb, lt→ltb, if◌then◌else◌, false, length-take, length-drop, length-append,
  drop-append, drop-drop, take-append-drop, length-replicate, drop_all,
}
use livox_mid360_core.Bytes.{write_le, copy_to, le_bytes}
use livox_mid360_core.Bytes.Laws.{subspan_ok, copy_to-append}
use livox_mid360_core.Bytes.Writing.{copy_to_next, write_le_next}
use livox_mid360_core.Crc
use livox_mid360_core.Protocol.Types.{
  EncodeError, data_too_large, buffer_too_small, CommandFrameSpec, command_sof, protocol_version,
}
use livox_mid360_core.Protocol.CommandFrame.{
  encode_command_frame, build_command_frame, payload_crc32, write_payload,
}

-- The first 18 bytes, which the header's checksum covers.
abbrev pub header_wire : CommandFrameSpec → List ℕ
header_wire spec =
    le_bytes 1 command_sof
    ++ (le_bytes 1 protocol_version
        ++ (le_bytes 2 (24 + length spec.payload)
            ++ (le_bytes 4 spec.seq_num
                ++ (le_bytes 2 spec.cmd_id
                    ++ (le_bytes 1 spec.cmd_type
                        ++ (le_bytes 1 spec.sender_type ++ replicate 6 0))))))

-- The whole frame: both checksums, then the payload.
abbrev pub frame_wire : CommandFrameSpec → List ℕ
frame_wire spec =
    header_wire spec
    ++ (le_bytes 2 (Crc.crc16_ccitt_false (header_wire spec) 0xFFFF)
        ++ (le_bytes 4 (payload_crc32 spec.payload) ++ spec.payload))

-- A write over the four bytes behind the prefix, with `z` behind them.
write_le_gap :
    (p gap z : List ℕ) (v : ℕ)
    → length p ≡ 20
    → length gap ≡ 4
    → write_le {E = EncodeError} 4 (p ++ (gap ++ z)) 20 v ≡ ok (p ++ (le_bytes 4 v ++ z))
unfolding write_le
write_le_gap p gap z v e g =
    copy_to-append p (le_bytes 4 v) (gap ++ z) 20 (sym e) (omega (arith, length-append gap z))
    ∙ ap (λ n. ok (p ++ (le_bytes 4 v ++ drop n (gap ++ z)))) (sym g)
    ∙ ap (λ t. ok (p ++ (le_bytes 4 v ++ t))) (drop-append gap z)

-- The payload goes behind the place of its checksum, which is written after it.
write_payload_lem :
    (p out payload : List ℕ)
    → length p ≡ 20
    → 24 + length payload ≤ length out
    → write_payload (p ++ drop 20 out) payload
      ≡ ok
          (p ++ (le_bytes 4 (payload_crc32 payload) ++ (payload ++ drop (24 + length payload) out)))
unfolding write_payload payload_crc32
write_payload_lem p out [] e h = write_le_next p out 20 (sym e) 4 0 (omega arith)
write_payload_lem p out (b ∷ bs) e h =
    let payload = b ∷ bs in
    let gap = take 4 (drop 20 out) in
    let z = payload ++ drop (24 + length payload) out in
    let four : length gap ≡ 4 = omega (arith, length-take 4 (drop 20 out), length-drop 20 out) in
    let whole : p ++ drop 20 out ≡ (p ++ gap) ++ drop 24 out =
      ap (λ t. p ++ t)
        (sym (take-append-drop 4 (drop 20 out)) ∙ ap (λ t. gap ++ t) (drop-drop 4 20 out))
      ∙ sym (append_assoc p gap (drop 24 out)) in
    let copied : copy_to {E = EncodeError} (p ++ drop 20 out) 24 payload ≡ ok (p ++ (gap ++ z)) =
      ap (λ t. copy_to t 24 payload) whole
      ∙ copy_to_next (p ++ gap) out 24 (omega (arith, length-append p gap)) payload h
      ∙ ap ok (append_assoc p gap z) in
    rw copied (write_le_gap p gap z (Crc.crc32 payload 0) e four)

-- With room for it in the buffer, the frame is written at its front, and the rest is kept.
pub encode_command_frame_lem :
    (out : List ℕ) (spec : CommandFrameSpec)
    → length spec.payload ≤ 1376
    → 24 + length spec.payload ≤ length out
    → encode_command_frame out spec
      ≡ ok (frame_wire spec ++ drop (24 + length spec.payload) out, 24 + length spec.payload)
unfolding encode_command_frame
encode_command_frame_lem out spec small room =
    let n = length spec.payload in
    let fits : ltb 1376 n ≡ false = ground arith in
    let holds : ltb (length out) (24 + n) ≡ false = ground arith in
    let header_crc = Crc.crc16_ccitt_false (header_wire spec) 0xFFFF in
    let p4 = 0xAA ∷ 0 ∷ le_bytes 2 (24 + n) in
    let p8 = p4 ++ le_bytes 4 spec.seq_num in
    let p10 = p8 ++ le_bytes 2 spec.cmd_id in
    let p11 = p10 ++ le_bytes 1 spec.cmd_type in
    let p12 = p11 ++ le_bytes 1 spec.sender_type in
    rw (
      fits,
      holds,
      write_le_next [] out 0 (omega arith) 1 0xAA (omega arith),
      write_le_next (0xAA ∷ []) out 1 (omega arith) 1 0 (omega arith),
      write_le_next (0xAA ∷ 0 ∷ []) out 2 (omega arith) 2 (24 + n) (omega arith),
      write_le_next p4 out 4 (omega arith) 4 spec.seq_num (omega arith),
      write_le_next p8 out 8 (omega arith) 2 spec.cmd_id (omega arith),
      write_le_next p10 out 10 (omega arith) 1 spec.cmd_type (omega arith),
      write_le_next p11 out 11 (omega arith) 1 spec.sender_type (omega arith),
      copy_to_next p12 out 12 (omega arith) (replicate 6 0) (omega arith),
      subspan_ok {E = EncodeError} (header_wire spec ++ drop 18 out) 0 18 (omega arith),
      write_le_next (header_wire spec) out 18 (omega arith) 2 header_crc (omega arith),
      write_payload_lem (header_wire spec ++ le_bytes 2 header_crc) out spec.payload (omega arith)
          room,
    )

-- Building allocates exactly the frame.
pub build_command_frame_lem :
    (spec : CommandFrameSpec)
    → length spec.payload ≤ 1376
    → build_command_frame spec ≡ ok (frame_wire spec)
unfolding build_command_frame
build_command_frame_lem spec small =
    let total = 24 + length spec.payload in
    let zeros : List ℕ = replicate total 0 in
    let size : length zeros ≡ total = length-replicate total 0 in
    let nothing : drop total zeros ≡ [] = ap (λ k. drop k zeros) (sym size) ∙ drop_all zeros in
    let room : total ≤ length zeros = omega (arith, size) in
    rw (encode_command_frame_lem zeros spec small room)
      (rw nothing (ap ok (append-nil (frame_wire spec))))

too_large :
    (out : List ℕ) (spec : CommandFrameSpec)
    → 1376 < length spec.payload
    → encode_command_frame out spec ≡ err data_too_large
unfolding encode_command_frame
too_large out spec h = rw (lt→ltb 1376 (length spec.payload) h)

pub build_command_frame_too_large :
    (spec : CommandFrameSpec)
    → 1376 < length spec.payload
    → build_command_frame spec ≡ err data_too_large
unfolding build_command_frame
build_command_frame_too_large spec h =
    rw (too_large (replicate (24 + length spec.payload) 0) spec h) refl

too_small :
    (out : List ℕ) (spec : CommandFrameSpec)
    → length spec.payload ≤ 1376
    → length out < 24 + length spec.payload
    → encode_command_frame out spec ≡ err buffer_too_small
unfolding encode_command_frame
too_small out spec small h =
    let fits : ltb 1376 (length spec.payload) ≡ false = ground arith in
    rw (fits, lt→ltb (length out) (24 + length spec.payload) h)

-- On every input: a payload above 1376 bytes is refused as too large, then a buffer shorter than
-- the frame as too small; otherwise the frame of the specification, with its two checksums, stands
-- at the front of the buffer, the rest is kept, and its size is returned. No write leaves the buffer.
pub encode_command_frame_outcome :
    (out : List ℕ) (spec : CommandFrameSpec)
    → encode_command_frame out spec ≡ (
        if ltb 1376 (length spec.payload)
        then err data_too_large
        else if ltb (length out) (24 + length spec.payload)
        then err buffer_too_small
        else ok (frame_wire spec ++ drop (24 + length spec.payload) out, 24 + length spec.payload))
encode_command_frame_outcome out spec =
    ground (arith, too_large out spec, too_small out spec, encode_command_frame_lem out spec)
