-- ===== src/Wire/RoundTrip.antt =====
-- What is written is what is read: the big-endian loops and the UDP header.
use rtstream.Prelude.{
  ℕ, ◌+◌, ◌*◌, ◌/◌, ◌%◌, ◌^◌, ◌<◌, ◌≡◌, refl, Bool, true, false, ◌++◌, arith, bit_or, bit_and,
  length, ◌==◌, ==_iff, ltb, ltb→lt,
}
use rtstream.Prelude.Bits.{or_shifted, holds_below, holds_below_sound}
use rtstream.Wire.Bytes.{Bytes, load_be64, store_be64}
use rtstream.Wire.Udp.{
  UdpHeader, IsHeader, write, read, magic_ok, header_size, keyframe, set_keyframe,
}

-- A header of the struct's widths survives `write` and `read`, whatever payload follows it; the
-- receiver's magic test accepts it, and it takes exactly 24 bytes.
pub read-write :
    (h : UdpHeader) (payload : Bytes)
    → IsHeader h
    → (read (write h ++ payload) ≡ h)
      × (magic_ok (write h ++ payload) ≡ true)
      × (length (write h ++ payload) ≡ header_size + length payload)
unfolding read write magic_ok
read-write h payload v = (ground arith, refl, omega arith)

-- One round of the loading loop puts the byte that the storing loop cut off back.
put_back : (w : ℕ) → w < 2 ^ 64 → bit_or (w / 256 * 256 % 2 ^ 64) (w % 256) ≡ w
put_back w h =
    let small : w / 256 * 256 % 2 ^ 64 ≡ w / 256 * 2 ^ 8 = omega arith in
    rw (small, or_shifted 8 (w / 256) (w % 256) (omega arith)) (omega arith)

top_byte : (w : ℕ) → w < 256 → bit_or 0 (w % 256) ≡ w
top_byte w h = omega (arith, or_shifted 8 0 (w % 256) (omega arith))

-- Storing any 64-bit number big-endian takes eight bytes, and loading them gives it back,
-- whatever follows them in the buffer.
pub load-store_be64 :
    (v : ℕ) (rest : Bytes)
    → v < 2 ^ 64
    → (load_be64 (store_be64 v ++ rest) 0 ≡ v) × (length (store_be64 v) ≡ 8)
unfolding load_be64 store_be64
load-store_be64 v rest h = (
  rw
      (
        top_byte (v / 256 / 256 / 256 / 256 / 256 / 256 / 256) (omega arith),
        put_back (v / 256 / 256 / 256 / 256 / 256 / 256) (omega arith),
        put_back (v / 256 / 256 / 256 / 256 / 256) (omega arith),
        put_back (v / 256 / 256 / 256 / 256) (omega arith),
        put_back (v / 256 / 256 / 256) (omega arith),
        put_back (v / 256 / 256) (omega arith),
        put_back (v / 256) (omega arith),
        put_back v h,
      )
      refl,
  refl,
)

flags_table :
    (holds_below (λ f. bit_and (bit_or f 1) 1 == 1) 256 ≡ true)
    × (holds_below (λ f. bit_and (bit_and f 0xfe) 1 == 0) 256 ≡ true)
    × (holds_below (λ f. ltb (bit_or f 1) 256) 256 ≡ true)
    × (holds_below (λ f. ltb (bit_and f 0xfe) 256) 256 ≡ true)
unfolding holds_below
flags_table = (refl, refl, refl, refl)

-- The keyframe bit reads back as it was set, and the flags stay a byte.
pub keyframe-set_keyframe :
    (h : UdpHeader) (on : Bool)
    → h.flags < 2 ^ 8
    → (keyframe (set_keyframe h on) ≡ on) × ((set_keyframe h on).flags < 2 ^ 8)
unfolding keyframe set_keyframe
keyframe-set_keyframe h true small = (
  rw ((==_iff _ 1).0 (holds_below_sound _ 256 h.flags small flags_table.0)) refl,
  ltb→lt _ _ (holds_below_sound _ 256 h.flags small flags_table.2),
)
keyframe-set_keyframe h false small = (
  rw ((==_iff _ 0).0 (holds_below_sound _ 256 h.flags small flags_table.1)) refl,
  ltb→lt _ _ (holds_below_sound _ 256 h.flags small flags_table.3),
)
