-- ===== src/Protocol/CommandFrame/Parse.antt =====
-- `parse_command_frame` on any bytes.
use livox_mid360_core.Prelude.{
  ℕ, ◌-◌, ◌≤◌, ◌≡◌, List, length, take, drop, Safe, arith, ltb, Bool-cases, inl, inr, length-take,
  length-drop,
}
use livox_mid360_core.Bytes.{le_value}
use livox_mid360_core.Bytes.Laws.{subspan_ok, read_le_ok}
use livox_mid360_core.Crc
use livox_mid360_core.Protocol.Types.{ParseError, CommandFrameView}
use livox_mid360_core.Protocol.CommandFrame.{parse_command_frame, payload_crc32}

-- What a view that the parser returns promises of the bytes that it was given.
pub record IsViewOf (frame : List ℕ) (v : CommandFrameView) : Type 0 where
  pub at_least : 24 ≤ v.header.frame_length
  pub at_most : v.header.frame_length ≤ 1400
  pub inside : v.header.frame_length ≤ length frame
  pub payload_bytes : v.payload ≡ take (v.header.frame_length - 24) (drop 24 frame)
  pub payload_length : length v.payload ≡ v.header.frame_length - 24
  pub header_checked : Crc.crc16_ccitt_false (take 18 frame) 0xFFFF ≡ v.header.crc16
  pub payload_checked : payload_crc32 v.payload ≡ v.header.crc32

-- On any bytes the parser reads nothing outside the buffer. A view that it returns lies inside the
-- buffer, has a length of 24 to 1400 bytes, its payload is the bytes behind the header, and both
-- checksums are those of the bytes.
pub parse_command_frame-Safe : (frame : List ℕ) → Safe (IsViewOf frame) (parse_command_frame frame)
unfolding parse_command_frame
parse_command_frame-Safe frame = elim (Bool-cases (ltb (length frame) 24)) [
  | inl short ↦ rw short tt
  | inr long ↦
      let h : 24 ≤ length frame = ground arith in
      let total = le_value (take 2 (drop 2 frame)) in
      rw
        (
          long,
          read_le_ok 1 frame 0 (omega arith),
          read_le_ok 1 frame 1 (omega arith),
          read_le_ok 2 frame 2 (omega arith),
          read_le_ok 4 frame 4 (omega arith),
          read_le_ok 2 frame 8 (omega arith),
          read_le_ok 1 frame 10 (omega arith),
          read_le_ok 1 frame 11 (omega arith),
          subspan_ok frame 12 6 (omega arith),
          read_le_ok 2 frame 18 (omega arith),
          read_le_ok 4 frame 20 (omega arith),
          subspan_ok frame 0 18 (omega arith),
        )
        (ground (
          arith,
          subspan_ok {E = ParseError} frame 24 (total - 24),
          length-take (total - 24) (drop 24 frame),
          length-drop 24 frame,
        ))
]
