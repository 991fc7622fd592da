-- ===== src/Fec.antt =====
-- src/transport/fec.h: one XOR recovery packet for a group of packets.
pub mod Recover
mod Tests
use rtstream.Prelude.{
  ℕ, zero, suc, ◌+◌, ◌-◌, max, bit_xor, Bool, List, [], ◌∷◌, Option, none, some, length, set,
  replicate, is_empty, ◌==◌, if◌then◌else◌,
}
use rtstream.Wire.Bytes.{Bytes}

-- `for (i = 0; i < d.size() && i < acc.size(); ++i) acc[i] ^= d[i];`
-- In `fec_generate` the second bound is not written, and holds.
pub xor_into : Bytes → Bytes → Bytes
xor_into [] d = []
xor_into (a ∷ acc) [] = a ∷ acc
xor_into (a ∷ acc) (b ∷ d) = bit_xor a b ∷ xor_into acc d

unfoldable pub max_len : ℕ → List Bytes → ℕ
max_len n [] = n
max_len n (d ∷ ds) = max_len (max n (length d)) ds

pub xor_all : Bytes → List Bytes → Bytes
xor_all acc [] = acc
xor_all acc (d ∷ ds) = xor_all (xor_into acc d) ds

unfoldable pub fec_generate : List Bytes → Bytes
unfolding xor_into max_len xor_all
fec_generate ds = xor_all (replicate (max_len 0 ds) 0) ds

-- The first loop of `fec_recover`, from slot `i`: how many slots are empty, and the last of them.
-- The source's index -1 for "none yet" is never used as an index.
pub find_missing : ℕ → List Bytes → ℕ → ℕ → ℕ × ℕ
find_missing i [] missing last = (missing, last)
find_missing i (d ∷ ds) missing last =
    find_missing (i + 1) ds (if is_empty d then missing + 1 else missing)
      (if is_empty d then i else last)

-- The second loop, which passes over the empty slots.
pub xor_known : Bytes → List Bytes → Bytes
xor_known rec [] = rec
xor_known rec (d ∷ ds) = xor_known (if is_empty d then rec else xor_into rec d) ds

-- `none` is the result `false`, which leaves the slots as they were.
unfoldable pub fec_recover : List Bytes → ℕ → Option (List Bytes)
unfolding xor_into find_missing xor_known
fec_recover known expect_len =
    let (missing, at) = find_missing 0 known 0 0 in
    if missing == 1 then some (set known at (xor_known (replicate expect_len 0) known)) else none
