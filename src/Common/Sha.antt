-- ===== src/Common/Sha.antt =====
-- src/common/sha1.h: `sha1`. A word has 32 bits.
use rtstream.Prelude.{
  ℕ, zero, suc, ◌+◌, ◌-◌, ◌*◌, ◌/◌, ◌%◌, ◌^◌, ◌≤◌, ◌<◌, ◌≡◌, refl, ap, List, [], ◌∷◌, ◌++◌, bit_and,
  bit_or, bit_xor, length, length-append, get_or, drop, ltb, ◌==◌, ==_iff, ◌≢◌, Bool-cases, inl,
  inr, if◌then◌else◌, arith,
}
use rtstream.Common.Crc.{AreBytes}
use rtstream.Wire.Bytes.{Bytes, u32, be32, read_be32}

-- `h`, and also `a` to `e`.
pub record State : Type 0 where
  pub a : ℕ
  pub b : ℕ
  pub c : ℕ
  pub d : ℕ
  pub e : ℕ

abbrev pub initial : State
initial = record { a = 0x67452301; b = 0xEFCDAB89; c = 0x98BADCFE; d = 0x10325476; e = 0xC3D2E1F0 }

-- `while (msg.size() % 64 != 56) msg.push_back(0);` with `n` rounds of fuel.
unfoldable pub pad_loop : ℕ → Bytes → Bytes
pad_loop zero msg = msg
pad_loop (suc n) msg =
    let more = pad_loop n (msg ++ 0 ∷ []) in if length msg % 64 == 56 then msg else more

-- `static_cast<uint8_t>(bits >> (i * 8))` for `i` from `n - 1` down to 0.
unfoldable pub bit_count : ℕ → ℕ → Bytes
bit_count zero bits = []
bit_count (suc i) bits = (bits / 2 ^ (i * 8) % 2 ^ 8) ∷ bit_count i bits

unfoldable pub padded : Bytes → Bytes
unfolding pad_loop bit_count
padded bytes = pad_loop 64 (bytes ++ 0x80 ∷ []) ++ bit_count 8 (length bytes * 8 % 2 ^ 64)

unfoldable pub rol : ℕ → ℕ → ℕ
rol v n = bit_or (v * 2 ^ n % 2 ^ 32) (v / 2 ^ (32 - n))

-- `w[0]` to `w[15]`: four bytes each, the highest first.
unfoldable pub words : ℕ → Bytes → List ℕ
words zero msg = []
words (suc n) msg = read_be32 msg 0 ∷ words n (drop 4 msg)

-- The second loop, from word `i` on with `n` rounds to go.
unfoldable pub extend : ℕ → ℕ → List ℕ → List ℕ
unfolding rol
extend zero i w = w
extend (suc n) i w =
    let mixed =
      bit_xor (bit_xor (get_or w (i - 3) 0) (get_or w (i - 8) 0))
        (bit_xor (get_or w (i - 14) 0) (get_or w (i - 16) 0)) in
    extend n (i + 1) (w ++ rol mixed 1 ∷ [])

-- `~v` in 32 bits.
abbrev pub complement : ℕ → ℕ
complement v = 2 ^ 32 - 1 - v

unfoldable pub mix : ℕ → State → ℕ
mix i s =
    if ltb i 20
    then bit_or (bit_and s.b s.c) (bit_and (complement s.b) s.d)
    else if ltb i 40
    then bit_xor (bit_xor s.b s.c) s.d
    else if ltb i 60
    then bit_or (bit_or (bit_and s.b s.c) (bit_and s.b s.d)) (bit_and s.c s.d)
    else bit_xor (bit_xor s.b s.c) s.d

unfoldable pub constant : ℕ → ℕ
constant i =
    if ltb i 20
    then 0x5A827999
    else if ltb i 40
    then 0x6ED9EBA1
    else if ltb i 60
    then 0x8F1BBCDC
    else 0xCA62C1D6

-- A round of the third loop.
unfoldable pub step : ℕ → ℕ → State → State
unfolding rol mix constant
step i w s = record {
  a = u32 (rol s.a 5 + mix i s + s.e + constant i + w);
  b = s.a;
  c = rol s.b 30;
  d = s.c;
  e = s.d;
}

unfoldable pub steps : ℕ → List ℕ → State → State
unfolding step
steps i [] s = s
steps i (w ∷ ws) s = steps (i + 1) ws (step i w s)

unfoldable pub block : Bytes → State → State
unfolding words extend steps
block msg h =
    let s = steps 0 (extend 64 16 (words 16 msg)) h in
    record {
      a = u32 (h.a + s.a);
      b = u32 (h.b + s.b);
      c = u32 (h.c + s.c);
      d = u32 (h.d + s.d);
      e = u32 (h.e + s.e);
    }

-- The loop over blocks of 64 bytes, with `n` to go.
unfoldable pub blocks : ℕ → Bytes → State → State
unfolding block
blocks zero msg h = h
blocks (suc n) msg h = blocks n (drop 64 msg) (block msg h)

unfoldable pub sha1 : Bytes → Bytes
unfolding padded blocks
sha1 bytes =
    let msg = padded bytes in
    let h = blocks (length msg / 64) msg initial in
    be32 h.a ++ (be32 h.b ++ (be32 h.c ++ (be32 h.d ++ be32 h.e)))

-- The loop stops before its fuel is used up, at the next length that is 56 more than a multiple of 64.
length-pad_loop :
    (n : ℕ) (msg : Bytes)
    → (120 - length msg % 64) % 64 ≤ n
    → length (pad_loop n msg) ≡ length msg + (120 - length msg % 64) % 64
unfolding pad_loop
length-pad_loop zero msg h = omega arith
length-pad_loop (suc n) msg h = elim (Bool-cases (length msg % 64 == 56)) [
  | inl done ↦ rw done (omega (arith, (==_iff (length msg % 64) 56).0 done))
  | inr not_done ↦
      let other : length msg % 64 ≢ 56 = λ e. cc (not_done, (==_iff (length msg % 64) 56).1 e) in
      let longer = length-append msg (0 ∷ []) in
      rw not_done (
        omega
          (arith, other, longer, length-pad_loop n (msg ++ 0 ∷ []) (omega (arith, other, longer))))
]

length-bit_count : (n bits : ℕ) → length (bit_count n bits) ≡ n
unfolding bit_count
length-bit_count zero bits = refl
length-bit_count (suc n) bits = ap suc (length-bit_count n bits)

-- The padded message is made of whole blocks, has room for the padding and the length, and ends
-- less than a block behind them.
pub length-padded :
    (bytes : Bytes)
    → (length (padded bytes) % 64 ≡ 0)
      × (length bytes + 9 ≤ length (padded bytes))
      × (length (padded bytes) < length bytes + 9 + 64)
unfolding padded
length-padded bytes = omega (
  arith,
  length-append bytes (0x80 ∷ []),
  length-pad_loop 64 (bytes ++ 0x80 ∷ []) (omega arith),
  length-append (pad_loop 64 (bytes ++ 0x80 ∷ [])) (bit_count 8 (length bytes * 8 % 2 ^ 64)),
  length-bit_count 8 (length bytes * 8 % 2 ^ 64),
)

-- The digest has 20 bytes.
pub sha1-AreBytes : (bytes : Bytes) → (length (sha1 bytes) ≡ 20) × AreBytes (sha1 bytes)
unfolding sha1
sha1-AreBytes bytes = (refl, omega arith)
