-- ===== src/Wire/Udp.antt =====
-- `struct UdpHeader` of src/common/media_types.h: 24 bytes before each datagram's payload.
use rtstream.Prelude.{
  ℕ, ◌/◌, ◌%◌, ◌^◌, ◌<◌, Bool, ◌&&◌, [], ◌∷◌, ◌++◌, bit_and, bit_or, ◌==◌, not, if◌then◌else◌,
}
use rtstream.Wire.Bytes.{Bytes, byte_at, be16, be32, read_be16, read_be32}

pub record UdpHeader : Type 0 where
  pub payload_type : ℕ
  pub group_id : ℕ
  pub fragment_seq : ℕ
  pub fragment_cnt : ℕ
  pub frame_id : ℕ
  pub capture_us_lo : ℕ
  pub payload_len : ℕ
  pub flags : ℕ

abbrev pub magic : ℕ
magic = 0x5254

abbrev pub version : ℕ
version = 1

abbrev pub header_size : ℕ
header_size = 24

abbrev pub fec_seq : ℕ
fec_seq = 0xffff

-- `UdpHeader h;` with its member initialisers.
abbrev pub blank : UdpHeader
blank = record {
  payload_type = 0;
  group_id = 0;
  fragment_seq = 0;
  fragment_cnt = 0;
  frame_id = 0;
  capture_us_lo = 0;
  payload_len = 0;
  flags = 0;
}

-- The 24 bytes that `write` stores at the head of the buffer.
unfoldable pub write : UdpHeader → Bytes
write h =
    (magic / 2 ^ 8)
    ∷ (magic % 2 ^ 8)
    ∷ version
    ∷ h.payload_type
    ∷ (be32 h.group_id
        ++ (be16 h.fragment_seq
            ++ (be16 h.fragment_cnt
                ++ (be32 h.frame_id
                    ++ (be32 h.capture_us_lo ++ (be16 h.payload_len ++ (h.flags ∷ 0 ∷ [])))))))

unfoldable pub read : Bytes → UdpHeader
read buf = record {
  payload_type = byte_at buf 3;
  group_id = read_be32 buf 4;
  fragment_seq = read_be16 buf 8;
  fragment_cnt = read_be16 buf 10;
  frame_id = read_be32 buf 12;
  capture_us_lo = read_be32 buf 16;
  payload_len = read_be16 buf 20;
  flags = byte_at buf 22;
}

unfoldable pub magic_ok : Bytes → Bool
magic_ok buf = byte_at buf 0 == magic / 2 ^ 8 && byte_at buf 1 == magic % 2 ^ 8

unfoldable pub keyframe : UdpHeader → Bool
keyframe h = not (bit_and h.flags 1 == 0)

-- `~0x1` is stored back into a `uint8_t`.
unfoldable pub set_keyframe : UdpHeader → Bool → UdpHeader
set_keyframe h on = record h { flags = if on then bit_or h.flags 1 else bit_and h.flags 0xfe }

-- A header whose fields have the widths of the struct.
pub record IsHeader (h : UdpHeader) : Type 0 where
  pub payload_type_fits : h.payload_type < 2 ^ 8
  pub group_id_fits : h.group_id < 2 ^ 32
  pub fragment_seq_fits : h.fragment_seq < 2 ^ 16
  pub fragment_cnt_fits : h.fragment_cnt < 2 ^ 16
  pub frame_id_fits : h.frame_id < 2 ^ 32
  pub capture_us_lo_fits : h.capture_us_lo < 2 ^ 32
  pub payload_len_fits : h.payload_len < 2 ^ 16
  pub flags_fits : h.flags < 2 ^ 8
