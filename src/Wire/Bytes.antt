-- ===== src/Wire/Bytes.antt =====
-- Big-endian numbers in byte buffers. `htons`, `htonl` and a `memcpy` store the bytes of a number
-- highest first, on every host.
use rtstream.Prelude.{
  ℕ, zero, suc, ◌+◌, ◌-◌, ◌*◌, ◌/◌, ◌%◌, ◌^◌, List, [], ◌∷◌, bit_or, get_or, ltb, if◌then◌else◌,
}
use rtstream.Prelude.Int.{ℤ, pos, negsuc}

abbrev pub Bytes : Type 0
Bytes = List ℕ

abbrev pub u8 : ℕ → ℕ
u8 n = n % 2 ^ 8

abbrev pub u16 : ℕ → ℕ
u16 n = n % 2 ^ 16

abbrev pub u32 : ℕ → ℕ
u32 n = n % 2 ^ 32

-- `static_cast<uint32_t>` and `static_cast<uint64_t>` of an `int64_t`, in two's complement.
abbrev pub u32_of_int : ℤ → ℕ
u32_of_int (pos n) = n % 2 ^ 32
u32_of_int (negsuc n) = 2 ^ 32 - 1 - n % 2 ^ 32

abbrev pub u64_of_int : ℤ → ℕ
u64_of_int (pos n) = n % 2 ^ 64
u64_of_int (negsuc n) = 2 ^ 64 - 1 - n % 2 ^ 64

-- `static_cast<int64_t>` of a `uint64_t`.
abbrev pub int_of_u64 : ℕ → ℤ
int_of_u64 n = if ltb n (2 ^ 63) then pos n else negsuc (2 ^ 64 - 1 - n)

-- A read inside the buffer; each caller checks the buffer's length first.
abbrev pub byte_at : Bytes → ℕ → ℕ
byte_at buf i = get_or buf i 0

abbrev pub be16 : ℕ → Bytes
be16 v = (v / 2 ^ 8 % 2 ^ 8) ∷ (v % 2 ^ 8) ∷ []

abbrev pub be32 : ℕ → Bytes
be32 v = (v / 2 ^ 24 % 2 ^ 8) ∷ (v / 2 ^ 16 % 2 ^ 8) ∷ (v / 2 ^ 8 % 2 ^ 8) ∷ (v % 2 ^ 8) ∷ []

abbrev pub read_be16 : Bytes → ℕ → ℕ
read_be16 buf i = byte_at buf i * 2 ^ 8 + byte_at buf (i + 1)

abbrev pub read_be32 : Bytes → ℕ → ℕ
read_be32 buf i = read_be16 buf i * 2 ^ 16 + read_be16 buf (i + 2)

-- `load_be64`: the loop from byte `i` with `n` bytes to go; `v << 8` drops what passes 64 bits.
pub load_loop : ℕ → Bytes → ℕ → ℕ → ℕ
load_loop zero p i v = v
load_loop (suc n) p i v = load_loop n p (i + 1) (bit_or (v * 2 ^ 8 % 2 ^ 64) (byte_at p i))

unfoldable pub load_be64 : Bytes → ℕ → ℕ
unfolding load_loop
load_be64 buf at = load_loop 8 buf at 0

-- `store_be64`: the loop with bytes 0 to `n - 1` to write, the bytes behind them written.
pub store_loop : ℕ → ℕ → Bytes → Bytes
store_loop zero v written = written
store_loop (suc n) v written = store_loop n (v / 2 ^ 8) ((v % 2 ^ 8) ∷ written)

unfoldable pub store_be64 : ℕ → Bytes
unfolding store_loop
store_be64 v = store_loop 8 v []
