-- ===== src/Wire/Tcp.antt =====
-- `struct TcpWire` of src/transport/transport_server.h: 20 bytes before each TCP frame.
use rtstream.Prelude.{ℕ, Bool, ◌&&◌, ◌∷◌, ◌++◌, ◌==◌, if◌then◌else◌}
use rtstream.Prelude.Int.{ℤ}
use rtstream.Wire.Bytes.{Bytes, byte_at, be32, u32_of_int, u64_of_int, store_be64}
use rtstream.Wire.Media.{EncodedFrame}

abbrev pub header_size : ℕ
header_size = 20

-- `write_header(buf, f)`: the header of an encoded frame.
unfoldable pub write_header : EncodedFrame → Bytes
write_header f =
    0x52
    ∷ 0x54
    ∷ 0x56
    ∷ 0x31
    ∷ (if f.keyframe then 1 else 0)
    ∷ 0
    ∷ 0
    ∷ 0
    ∷ (be32 (u32_of_int f.frame_id) ++ store_be64 (u64_of_int f.capture_us))

-- `write_header(buf, frame_id, capture_us, stats)`: the header of a metrics frame.
unfoldable pub write_stats_header : ℕ → ℤ → Bool → Bytes
write_stats_header frame_id capture_us stats =
    0x52
    ∷ 0x54
    ∷ 0x56
    ∷ 0x31
    ∷ (if stats then 2 else 0)
    ∷ 0
    ∷ 0
    ∷ 0
    ∷ (be32 frame_id ++ store_be64 (u64_of_int capture_us))

unfoldable pub magic_ok : Bytes → Bool
magic_ok buf =
    byte_at buf 0 == 0x52 && byte_at buf 1 == 0x54 && byte_at buf 2 == 0x56 && byte_at buf 3 == 0x31
