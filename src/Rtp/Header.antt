-- ===== src/Rtp/Header.antt =====
-- The twelve bytes before the payload of an RTP packet.
use rtstream.Prelude.{
  ℕ, Bool, ◌||◌, not, [], ◌∷◌, ◌++◌, Option, none, some, bit_and, bit_or, length, ltb, ◌==◌,
  if◌then◌else◌,
}
use rtstream.Prelude.Int.{ℤ, pos}
use rtstream.Wire.Bytes.{Bytes, byte_at, be16, be32, read_be16, read_be32}

abbrev pub header_size : ℕ
header_size = 12

abbrev pub payload_type : ℕ
payload_type = 96

unfoldable pub write_rtp_header : Bool → ℕ → ℕ → ℕ → Bytes
write_rtp_header marker seq timestamp ssrc =
    0x80
    ∷ (bit_or (if marker then 0x80 else 0) payload_type)
    ∷ (be16 seq ++ (be32 timestamp ++ be32 ssrc))

unfoldable pub read_seq : Bytes → ℕ
read_seq p = read_be16 p 2

-- `packets.back()[1] |= 0x80`, for one packet.
unfoldable pub mark : Bytes → Bytes
mark [] = []
mark (a ∷ []) = a ∷ []
mark (a ∷ b ∷ rest) = a ∷ (bit_or b 0x80) ∷ rest

pub record RtpPkt : Type 0 where
  pub seq : ℕ
  pub ts : ℕ
  pub marker : Bool
  pub capture_ms : ℤ
  pub raw : Bytes

-- The test for CSRC and extension bits stands behind a test that the byte is 0x80, and never fails.
unfoldable pub parse_rtp : Bytes → Option RtpPkt
parse_rtp d =
    if ltb (length d) 12 || not (byte_at d 0 == 0x80)
    then none
    else if not (bit_and (byte_at d 0) 0x0f == 0) || not (bit_and (byte_at d 0) 0x10 == 0)
    then none
    else some (record {
      seq = read_be16 d 2;
      ts = read_be32 d 4;
      marker = not (bit_and (byte_at d 1) 0x80 == 0);
      capture_ms = pos 0;
      raw = d;
    })
