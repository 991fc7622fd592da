-- ===== src/Wire/Tests.antt =====
-- Runs of the wire formats, and the theorems at concrete headers.
use rtstream.Prelude.{◌+◌, ◌≡◌, refl, true, [], ◌∷◌, ◌++◌, length, arith}
use rtstream.Wire.Udp.{UdpHeader, IsHeader, header_size, write, read, magic_ok}
use rtstream.Wire.RoundTrip.{read-write}

abbrev sample : UdpHeader
sample = record {
  payload_type = 1;
  group_id = 0x01020304;
  fragment_seq = 0xffff;
  fragment_cnt = 9;
  frame_id = 7;
  capture_us_lo = 0xfedcba98;
  payload_len = 1176;
  flags = 1;
}

write-sample :
    write sample
    ≡ 0x52 ∷ 0x54 ∷ 1 ∷ 1 ∷ 1 ∷ 2 ∷ 3 ∷ 4 ∷ 0xff ∷ 0xff ∷ 0 ∷ 9 ∷ 0 ∷ 0 ∷ 0 ∷ 7 ∷ 0xfe ∷ 0xdc ∷ 0xba
      ∷ 0x98 ∷ 4 ∷ 0x98 ∷ 1 ∷ 0 ∷ []
unfolding write
write-sample = refl

sample-IsHeader : IsHeader sample
sample-IsHeader = omega arith

read-write_example :
    (read (write sample ++ 5 ∷ 6 ∷ []) ≡ sample)
    × (magic_ok (write sample ++ 5 ∷ 6 ∷ []) ≡ true)
    × (length (write sample ++ 5 ∷ 6 ∷ []) ≡ header_size + 2)
read-write_example = read-write sample (5 ∷ 6 ∷ []) sample-IsHeader
