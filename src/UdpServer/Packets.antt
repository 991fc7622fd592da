-- ===== src/UdpServer/Packets.antt =====
-- What is on the wire when the server sends a frame.
use rtstream.Prelude.{
  ℕ, ◌^◌, ◌<◌, ◌≡◌, refl, Bool, true, false, drop, length, bit_and, bit_or, if◌then◌else◌, arith,
}
use rtstream.Prelude.Int.{ℤ, pos, negsuc}
use rtstream.Wire.Bytes.{Bytes, u32_of_int}
use rtstream.Wire.Media.{EncodedFrame}
use rtstream.Wire.Udp
use rtstream.Wire.Udp.{UdpHeader, IsHeader, header_size, fec_seq, set_keyframe, keyframe, magic_ok}
use rtstream.Wire.RoundTrip.{read-write, keyframe-set_keyframe}
use rtstream.UdpServer.{header_of, packet_of}

u32_of_int-lt : (z : ℤ) → u32_of_int z < 2 ^ 32
u32_of_int-lt (pos n) = omega arith
u32_of_int-lt (negsuc n) = omega arith

flags_small : (on : Bool) → (if on then bit_or 0 1 else bit_and 0 0xfe) < 2 ^ 8
flags_small true = omega arith
flags_small false = omega arith

header_of-IsHeader :
    (f : EncodedFrame) (cnt seq len : ℕ) (is_fec : Bool)
    → seq < 2 ^ 16
    → IsHeader (header_of f cnt seq len is_fec)
unfolding header_of set_keyframe
header_of-IsHeader f cnt seq len is_fec h = record {
  payload_type_fits = ground arith;
  group_id_fits = u32_of_int-lt f.frame_id;
  fragment_seq_fits = ground arith;
  fragment_cnt_fits = omega arith;
  frame_id_fits = u32_of_int-lt f.frame_id;
  capture_us_lo_fits = u32_of_int-lt f.capture_us;
  payload_len_fits = omega arith;
  flags_fits = flags_small f.keyframe;
}

-- A packet that the server builds passes the receiver's magic test, reads back as the header
-- that it was built with, the keyframe flag included, and has exactly the payload behind its 24
-- bytes. The fragment's number has 16 bits.
pub packet_of-Reads :
    (f : EncodedFrame) (cnt seq : ℕ) (payload : Bytes) (is_fec : Bool)
    → seq < 2 ^ 16
    → (Udp.read (packet_of f cnt seq payload is_fec) ≡ header_of f cnt seq (length payload) is_fec)
      × (magic_ok (packet_of f cnt seq payload is_fec) ≡ true)
      × (drop header_size (packet_of f cnt seq payload is_fec) ≡ payload)
      × (keyframe (header_of f cnt seq (length payload) is_fec) ≡ f.keyframe)
unfolding packet_of header_of Udp.write
packet_of-Reads f cnt seq payload is_fec h =
    let back =
      read-write (header_of f cnt seq (length payload) is_fec) payload
        (header_of-IsHeader f cnt seq (length payload) is_fec h) in
    (back.0, back.1, refl, (keyframe-set_keyframe _ f.keyframe (omega arith)).0)
