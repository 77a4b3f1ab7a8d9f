-- ===== src/Protocol/DataPacket/Parse.antt =====
-- `parse_data_packet` on any bytes.
use livox_mid360_core.Prelude.{
  ℕ, ◌+◌, ◌-◌, ◌*◌, ◌≤◌, ◌≡◌, Bool, List, length, take, drop, Safe, arith, ltb, Bool-cases, inl,
  inr, ok, err, ◌⊎◌, ap, refl, not, ◌||◌, ◌==◌, fail_if, ◌>>◌, length-take, length-drop,
}
use livox_mid360_core.Bytes.{le_value}
use livox_mid360_core.Bytes.Laws.{subspan_ok, read_le_ok}
use livox_mid360_core.Protocol.Types.{
  ParseError, bad_crc32, DataPacketView, DataPacketHeader, bad_dot_num, sample_size,
}
use livox_mid360_core.Protocol.DataPacket.{parse_data_packet, check_crc32}

-- The samples fill the payload, which lies inside the packet.
pub record IsPacketOf (packet : List ℕ) (p : DataPacketView) : Type 0 where
  pub at_least : 36 ≤ p.header.packet_length
  pub inside : p.header.packet_length ≤ length packet
  pub sample_bytes : p.samples ≡ take (p.header.packet_length - 36) (drop 36 packet)
  pub filled : length p.samples ≡ p.header.dot_num * sample_size p.header.data_type
  pub whole : p.header.packet_length ≡ 36 + length p.samples

check_crc32_cases :
    (packet samples : List ℕ) (crc32 : ℕ) (verify_crc : Bool)
    → 36 + length samples ≤ length packet
    → (check_crc32 packet samples crc32 verify_crc ≡ ok tt)
      ⊎ (check_crc32 packet samples crc32 verify_crc ≡ err bad_crc32)
unfolding check_crc32
check_crc32_cases packet samples crc32 verify_crc h =
    ground (arith, subspan_ok {E = ParseError} packet 28 (8 + length samples))

-- The last two tests, on the samples that the length field delimits.
accepted :
    (packet samples : List ℕ) (h : DataPacketHeader) (verify_crc : Bool)
    → 36 ≤ h.packet_length
    → h.packet_length ≤ length packet
    → samples ≡ take (h.packet_length - 36) (drop 36 packet)
    → Safe (IsPacketOf packet) (
        fail_if (not (length samples == h.dot_num * sample_size h.data_type)) bad_dot_num
        >> (check_crc32 packet samples h.crc32 verify_crc
            >> ok (record { header = h; samples = samples })))
accepted packet samples h verify_crc low high e =
    let size : length samples ≡ h.packet_length - 36 = omega (
      arith,
      ap length e,
      length-take (h.packet_length - 36) (drop 36 packet),
      length-drop 36 packet,
    ) in
    ground (arith, check_crc32_cases packet samples h.crc32 verify_crc)

-- On any bytes, checksum verified or not, the parser reads nothing outside the buffer. In a view
-- that it returns the packet lies inside the buffer, and `dot_num` samples of its type fill exactly
-- the bytes behind the header.
pub parse_data_packet-Safe :
    (packet : List ℕ) (verify_crc : Bool)
    → Safe (IsPacketOf packet) (parse_data_packet packet verify_crc)
unfolding parse_data_packet
parse_data_packet-Safe packet verify_crc = elim (Bool-cases (ltb (length packet) 36)) [
  | inl short ↦ rw short tt
  | inr long ↦
      let h : 36 ≤ length packet = ground arith in
      let total = le_value (take 2 (drop 1 packet)) in
      rw
        (
          long,
          read_le_ok 1 packet 0 (omega arith),
          read_le_ok 2 packet 1 (omega arith),
          read_le_ok 2 packet 3 (omega arith),
          read_le_ok 2 packet 5 (omega arith),
          read_le_ok 2 packet 7 (omega arith),
          read_le_ok 1 packet 9 (omega arith),
          read_le_ok 1 packet 10 (omega arith),
          read_le_ok 1 packet 11 (omega arith),
          subspan_ok packet 12 12 (omega arith),
          read_le_ok 4 packet 24 (omega arith),
          read_le_ok 8 packet 28 (omega arith),
        )
        (elim (Bool-cases (not (le_value (take 1 packet) == 0))) [
          | inl other ↦ rw other tt
          | inr version ↦
              rw version (elim (Bool-cases (ltb total 36 || ltb (length packet) total)) [
                | inl bad ↦ rw bad tt
                | inr fits ↦
                    rw fits (elim (Bool-cases (ltb 3 (le_value (take 1 (drop 10 packet))))) [
                      | inl unknown ↦ rw unknown tt
                      | inr known ↦
                          rw
                            (
                              known,
                              subspan_ok {E = ParseError} packet 36 (total - 36) (ground arith),
                            )
                            (accepted packet (take (total - 36) (drop 36 packet)) _ verify_crc
                              (ground arith) (ground arith) refl)
                    ])
              ])
        ])
]
