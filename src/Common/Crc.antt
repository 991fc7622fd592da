-- ===== src/Common/Crc.antt =====
-- src/common/crc32.h: `crc32_table` and `crc32`. A word has 32 bits.
use rtstream.Prelude.{
  ℕ, zero, suc, ◌+◌, ◌*◌, ◌/◌, ◌%◌, ◌^◌, ◌<◌, ◌≡◌, refl, ap, ap₂, ◌∙◌, sym, List, [], ◌∷◌, bit_and,
  bit_xor, get_or, true, false, ◌==◌, if◌then◌else◌, arith,
}
use rtstream.Prelude.Bits.{
  xor_comm, xor_assoc, xor_shifted, xor_byte_high, xor-even, and_1, and_255,
}
use native.Mathlib.Nat.{pow-suc}
use rtstream.Wire.Bytes.{Bytes}

abbrev polynomial : ℕ
polynomial = 0xEDB88320

-- A round of the loop over `k`.
unfoldable pub shift : ℕ → ℕ
shift c = if bit_and c 1 == 0 then c / 2 else bit_xor polynomial (c / 2)

unfoldable pub shifts : ℕ → ℕ → ℕ
unfolding shift
shifts zero c = c
shifts (suc k) c = shifts k (shift c)

-- `table[i]`
unfoldable pub entry : ℕ → ℕ
unfolding shifts
entry i = shifts 8 i

-- The table, from entry `i` on with `n` to go.
unfoldable pub entries : ℕ → ℕ → List ℕ
unfolding entry
entries zero i = []
entries (suc n) i = entry i ∷ entries n (i + 1)

unfoldable pub crc32_table : List ℕ
unfolding entries
crc32_table = entries 256 0

-- A round of the loop over the bytes.
unfoldable pub crc_byte : List ℕ → ℕ → ℕ → ℕ
crc_byte table c b = bit_xor (get_or table (bit_and (bit_xor c b) 0xff) 0) (c / 2 ^ 8)

unfoldable pub crc_loop : List ℕ → Bytes → ℕ → ℕ
unfolding crc_byte
crc_loop table [] c = c
crc_loop table (b ∷ bytes) c = crc_loop table bytes (crc_byte table c b)

unfoldable pub crc32 : Bytes → ℕ → ℕ
unfolding crc32_table crc_loop
crc32 bytes seed = bit_xor (crc_loop crc32_table bytes seed) 0xFFFFFFFF

-- The same bit by bit, as the standard has it: no table.
unfoldable pub bitwise : Bytes → ℕ → ℕ
unfolding shifts
bitwise [] c = c
bitwise (b ∷ bytes) c = bitwise bytes (shifts 8 (bit_xor c b))

entries-get_or : (n i j : ℕ) → j < n → get_or (entries n i) j 0 ≡ entry (i + j)
unfolding entries
entries-get_or zero i j lt = absurd (omega arith)
entries-get_or (suc n) i zero lt = ap entry (omega arith)
entries-get_or (suc n) i (suc j) lt =
    entries-get_or n (i + 1) j (omega arith)
    ∙ ap entry {x = i + 1 + j} {y = i + suc j} (omega arith)

-- The shifts of a word with a part `y` far enough up, which no shift reaches.
shift-xor : (x y : ℕ) → shift (bit_xor x (y * 2)) ≡ bit_xor (shift x) y
unfolding shift
shift-xor x y =
    let even = xor-even x y in
    rw (and_1 (bit_xor x (y * 2)), and_1 x, even.0, even.1)
      (elim (x % 2 == 0)
        as (λ b.
          (if b then bit_xor (x / 2) y else bit_xor polynomial (bit_xor (x / 2) y))
          ≡ bit_xor (if b then x / 2 else bit_xor polynomial (x / 2)) y) [
            | true ↦ refl
            | false ↦ sym (xor_assoc polynomial (x / 2) y)
          ])

shifts-xor : (k x y : ℕ) → shifts k (bit_xor x (y * 2 ^ k)) ≡ bit_xor (shifts k x) y
unfolding shifts
shifts-xor zero x y = ap (bit_xor x) (omega arith)
shifts-xor (suc k) x y =
    let twice : y * 2 ^ suc k ≡ y * 2 ^ k * 2 =
      omega (arith, ap (λ (t : ℕ). y * t) (pow-suc 2 k)) in
    ap (λ n. shifts k (shift (bit_xor x n))) twice
    ∙ ap (shifts k) (shift-xor x (y * 2 ^ k))
    ∙ shifts-xor k (shift x) y

-- A look into the table is eight shifts.
crc_byte-shifts : (c b : ℕ) → b < 2 ^ 8 → crc_byte crc32_table c b ≡ shifts 8 (bit_xor c b)
unfolding crc_byte crc32_table entry
crc_byte-shifts c b lt =
    let w = bit_xor c b in
    let parts : bit_xor (w % 256) (w / 256 * 256) ≡ w =
      xor_comm (w % 256) (w / 256 * 256)
      ∙ xor_shifted 8 (w / 256) (w % 256) (omega arith)
      ∙ omega arith in
    ap₂ bit_xor
      (ap (λ i. get_or (entries 256 0) i 0) (and_255 w)
        ∙ entries-get_or 256 0 (w % 256) (omega arith)
        ∙ ap (shifts 8) {x = 0 + w % 256} (omega arith))
      (sym (xor_byte_high c b lt))
    ∙ sym (shifts-xor 8 (w % 256) (w / 256))
    ∙ ap (shifts 8) parts

abbrev pub AreBytes : Bytes → Type 0
AreBytes [] = Unit {0}
AreBytes (b ∷ bytes) = (b < 2 ^ 8) × AreBytes bytes

crc_loop-bitwise :
    (bytes : Bytes) (c : ℕ) → AreBytes bytes → crc_loop crc32_table bytes c ≡ bitwise bytes c
unfolding crc_loop bitwise
crc_loop-bitwise [] c h = refl
crc_loop-bitwise (b ∷ bytes) c h =
    ap (crc_loop crc32_table bytes) (crc_byte-shifts c b h.0)
    ∙ crc_loop-bitwise bytes (shifts 8 (bit_xor c b)) h.1

-- The checksum by the table is the checksum bit by bit, for every seed.
pub crc32-bitwise :
    (bytes : Bytes) (seed : ℕ)
    → AreBytes bytes
    → crc32 bytes seed ≡ bit_xor (bitwise bytes seed) 0xFFFFFFFF
unfolding crc32
crc32-bitwise bytes seed h = ap (λ c. bit_xor c 0xFFFFFFFF) (crc_loop-bitwise bytes seed h)
