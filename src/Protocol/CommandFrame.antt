-- ===== src/Protocol/CommandFrame.antt =====
-- src/protocol.cpp, "Command frame".
pub mod Parse
pub mod Encode
pub mod RoundTrip
use livox_mid360_core.Prelude.{
  ℕ, ◌+◌, ◌-◌, List, [], ◌∷◌, length, ltb, ◌==◌, not, ◌||◌, Bool, true, false, if◌then◌else◌,
  Result, ok, err, ◌>>=◌, ◌>>◌, fail_if, replicate,
}
use livox_mid360_core.Bytes.{subspan, copy_to, read_le, write_le}
use livox_mid360_core.Crc
use livox_mid360_core.Crc.{crc16_init, crc32_init}
use livox_mid360_core.Protocol.Types.{
  command_sof, protocol_version, command_header_size, command_frame_max_size, command_data_max_size,
  ParseError, too_short, bad_sof, bad_version, length_mismatch, bad_crc16, bad_crc32, EncodeError,
  data_too_large, buffer_too_small, CommandHeader, CommandFrameView, CommandFrameSpec,
}

abbrev pub is_empty {ℓ} : {A : Type ℓ} → List A → Bool
is_empty [] = true
is_empty (x ∷ xs) = false

-- `expected_crc32`: a frame with no data carries 0.
unfoldable pub payload_crc32 : List ℕ → ℕ
payload_crc32 payload = if is_empty payload then 0 else Crc.crc32 payload crc32_init

unfoldable pub parse_command_frame : List ℕ → Result ParseError CommandFrameView
parse_command_frame frame = do
  fail_if (ltb (length frame) command_header_size) too_short
  sof ← read_le 1 frame 0
  fail_if (not (sof == command_sof)) bad_sof
  version ← read_le 1 frame 1
  fail_if (not (version == protocol_version)) bad_version
  frame_length ← read_le 2 frame 2
  fail_if
      (ltb frame_length command_header_size
        || ltb command_frame_max_size frame_length
        || ltb (length frame) frame_length)
      length_mismatch
  seq_num ← read_le 4 frame 4
  cmd_id ← read_le 2 frame 8
  cmd_type ← read_le 1 frame 10
  sender_type ← read_le 1 frame 11
  resv ← subspan frame 12 6
  crc16 ← read_le 2 frame 18
  crc32 ← read_le 4 frame 20
  covered ← subspan frame 0 18
  fail_if (not (Crc.crc16_ccitt_false covered crc16_init == crc16)) bad_crc16
  payload ← subspan frame command_header_size (frame_length - command_header_size)
  fail_if (not (payload_crc32 payload == crc32)) bad_crc32
  ok (record {
    header = record {
      frame_length = frame_length;
      seq_num = seq_num;
      cmd_id = cmd_id;
      cmd_type = cmd_type;
      sender_type = sender_type;
      resv = resv;
      crc16 = crc16;
      crc32 = crc32;
    };
    payload = payload;
  })

abbrev pub command_frame_size : ℕ → ℕ
command_frame_size data_size = command_header_size + data_size

-- The branch that copies the payload and writes its checksum.
unfoldable pub write_payload : List ℕ → List ℕ → Result EncodeError (List ℕ)
write_payload out [] = write_le 4 out 20 0
write_payload out (b ∷ payload) = do
  out ← copy_to out command_header_size (b ∷ payload)
  write_le 4 out 20 (Crc.crc32 (b ∷ payload) crc32_init)

-- The buffer after the call, and the size that it returns.
unfoldable pub encode_command_frame : List ℕ → CommandFrameSpec → Result EncodeError (List ℕ × ℕ)
unfolding write_payload
encode_command_frame out spec = do
  fail_if (ltb command_data_max_size (length spec.payload)) data_too_large
  let total = command_frame_size (length spec.payload)
  fail_if (ltb (length out) total) buffer_too_small
  out ← write_le 1 out 0 command_sof
  out ← write_le 1 out 1 protocol_version
  out ← write_le 2 out 2 total
  out ← write_le 4 out 4 spec.seq_num
  out ← write_le 2 out 8 spec.cmd_id
  out ← write_le 1 out 10 spec.cmd_type
  out ← write_le 1 out 11 spec.sender_type
  out ← copy_to out 12 (replicate 6 0)
  covered ← subspan out 0 18
  out ← write_le 2 out 18 (Crc.crc16_ccitt_false covered crc16_init)
  out ← write_payload out spec.payload
  ok (out, total)

unfoldable pub build_command_frame : CommandFrameSpec → Result EncodeError (List ℕ)
unfolding encode_command_frame
build_command_frame spec = do
  (buf, total) ← encode_command_frame (replicate (command_frame_size (length spec.payload)) 0) spec
  ok buf
