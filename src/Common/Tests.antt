-- ===== src/Common/Tests.antt =====
-- The check value of CRC-32, the digest of "abc" (FIPS 180), and RFC 4648's "foob".
use rtstream.Prelude.{
  ℕ, ◌+◌, ◌%◌, ◌<◌, ◌≤◌, ◌≡◌, refl, false, List, [], ◌∷◌, ◌++◌, bit_xor, length, arith,
}
use rtstream.Wire.Bytes.{Bytes}
use rtstream.Common.Crc.{crc32, bitwise, crc32-bitwise}
use rtstream.Common.Sha.{padded, sha1, length-padded}
use rtstream.Common.Base.{base64_encode, decode, decode-base64_encode}
use rtstream.Common.Pool.{Event, run, accepted, run-accepted}

abbrev digits_text : Bytes
digits_text = 49 ∷ 50 ∷ 51 ∷ 52 ∷ 53 ∷ 54 ∷ 55 ∷ 56 ∷ 57 ∷ []

check_value : crc32 digits_text 0xFFFFFFFF ≡ 0xCBF43926
unfolding crc32
check_value = refl

crc32-bitwise_example :
    crc32 digits_text 0xFFFFFFFF ≡ bit_xor (bitwise digits_text 0xFFFFFFFF) 0xFFFFFFFF
crc32-bitwise_example = crc32-bitwise digits_text 0xFFFFFFFF (omega arith)

sha1-abc :
    sha1 (97 ∷ 98 ∷ 99 ∷ [])
    ≡ 0xa9 ∷ 0x99 ∷ 0x3e ∷ 0x36 ∷ 0x47 ∷ 0x06 ∷ 0x81 ∷ 0x6a ∷ 0xba ∷ 0x3e ∷ 0x25 ∷ 0x71 ∷ 0x78
      ∷ 0x50 ∷ 0xc2 ∷ 0x6c ∷ 0x9c ∷ 0xd0 ∷ 0xd8 ∷ 0x9d ∷ []
unfolding sha1
sha1-abc = refl

base64-foob :
    base64_encode (102 ∷ 111 ∷ 111 ∷ 98 ∷ []) ≡ 90 ∷ 109 ∷ 57 ∷ 118 ∷ 89 ∷ 103 ∷ 61 ∷ 61 ∷ []
unfolding base64_encode
base64-foob = refl

decode-base64_encode_example :
    decode (base64_encode (0 ∷ 255 ∷ 16 ∷ 7 ∷ [])) ≡ 0 ∷ 255 ∷ 16 ∷ 7 ∷ []
decode-base64_encode_example = decode-base64_encode (0 ∷ 255 ∷ 16 ∷ 7 ∷ []) (omega arith)

abbrev calls : List (Event ℕ)
calls = Event.submits 1 ∷ Event.works ∷ Event.shuts_down ∷ Event.submits 2 ∷ []

run-accepted_example :
    (run calls (record { tasks = 5 ∷ []; stopped = false })).0
      ++ (run calls (record { tasks = 5 ∷ []; stopped = false })).1.tasks
    ≡ ◌++◌ {A = ℕ} (5 ∷ []) (accepted calls false)
run-accepted_example = run-accepted calls (5 ∷ []) false

length-padded_example :
    (length (padded digits_text) % 64 ≡ 0)
    × (length digits_text + 9 ≤ length (padded digits_text))
    × (length (padded digits_text) < length digits_text + 9 + 64)
length-padded_example = length-padded digits_text
