-- ===== src/Fec/Recover.antt =====
-- Any one lost packet of a group comes back from the others and the recovery packet.
use rtstream.Prelude.{
  ℕ, zero, suc, ◌+◌, ◌-◌, ◌≤◌, ◌<◌, ◌≡◌, ◌≢◌, refl, sym, ap, ◌∙◌, max, bit_xor, false, List, [],
  ◌∷◌, ◌++◌, none, some, length, set, get_or, replicate, is_empty, if◌then◌else◌, arith, get_or_ext,
  get_or-replicate, get_or-pad, length-replicate, length-append, set-append, set-set, length-set,
}
use native.Mathlib.Nat.{zero-add}
use mathlib.Core.Logic.{◌↔◌}
use rtstream.Prelude.Bits.{xor-zero, zero-xor, xor_self, xor_comm, xor_assoc}
use rtstream.Wire.Bytes.{Bytes, byte_at}
use rtstream.Fec.{xor_into, max_len, xor_all, fec_generate, find_missing, xor_known, fec_recover}

-- The specification of parity: the XOR of the packets' bytes in column `j`, short packets
-- counting as padded with zeros.
unfoldable pub column : List Bytes → ℕ → ℕ
column [] j = 0
column (d ∷ ds) j = bit_xor (byte_at d j) (column ds j)

length-xor_into : (acc d : Bytes) → length (xor_into acc d) ≡ length acc
unfolding xor_into
length-xor_into [] d = refl
length-xor_into (a ∷ acc) [] = refl
length-xor_into (a ∷ acc) (b ∷ d) = ap suc (length-xor_into acc d)

byte_at-xor_into :
    (acc d : Bytes) (j : ℕ)
    → j < length acc
    → byte_at (xor_into acc d) j ≡ bit_xor (byte_at acc j) (byte_at d j)
unfolding xor_into
byte_at-xor_into [] d j h = absurd (omega arith)
byte_at-xor_into (a ∷ acc) [] j h = sym (xor-zero (byte_at (a ∷ acc) j))
byte_at-xor_into (a ∷ acc) (b ∷ d) zero h = refl
byte_at-xor_into (a ∷ acc) (b ∷ d) (suc j) h = byte_at-xor_into acc d j (omega arith)

length-xor_all : (acc : Bytes) (ds : List Bytes) → length (xor_all acc ds) ≡ length acc
unfolding xor_all
length-xor_all acc [] = refl
length-xor_all acc (d ∷ ds) = length-xor_all (xor_into acc d) ds ∙ length-xor_into acc d

byte_at-xor_all :
    (acc : Bytes) (ds : List Bytes) (j : ℕ)
    → j < length acc
    → byte_at (xor_all acc ds) j ≡ bit_xor (byte_at acc j) (column ds j)
unfolding xor_all column
byte_at-xor_all acc [] j h = sym (xor-zero (byte_at acc j))
byte_at-xor_all acc (d ∷ ds) j h =
    rw (byte_at-xor_all (xor_into acc d) ds j (rw length-xor_into h), byte_at-xor_into acc d j h)
      (xor_assoc (byte_at acc j) (byte_at d j) (column ds j))

xor_known-eq-xor_all : (acc : Bytes) (ds : List Bytes) → xor_known acc ds ≡ xor_all acc ds
unfolding xor_known xor_all xor_into
xor_known-eq-xor_all acc [] = refl
xor_known-eq-xor_all [] ([] ∷ ds) = xor_known-eq-xor_all [] ds
xor_known-eq-xor_all (a ∷ acc) ([] ∷ ds) = xor_known-eq-xor_all (a ∷ acc) ds
xor_known-eq-xor_all acc ((b ∷ d) ∷ ds) = xor_known-eq-xor_all (xor_into acc (b ∷ d)) ds

column-append :
    (ds : List Bytes) (p : Bytes) (j : ℕ)
    → column (ds ++ p ∷ []) j ≡ bit_xor (column ds j) (byte_at p j)
unfolding column
column-append [] p j = rw (xor-zero (byte_at p j), zero-xor (byte_at p j)) refl
column-append (d ∷ ds) p j =
    rw (column-append ds p j) (sym (xor_assoc (byte_at d j) (column ds j) (byte_at p j)))

-- Emptying slot `k` takes that packet out of the column.
column-set :
    (ds : List Bytes) (k j : ℕ)
    → k < length ds
    → bit_xor (column (set ds k []) j) (byte_at (get_or ds k []) j) ≡ column ds j
unfolding column
column-set [] k j h = absurd (omega arith)
column-set (d ∷ ds) zero j h = rw (zero-xor (column ds j)) (xor_comm (column ds j) (byte_at d j))
column-set (d ∷ ds) (suc k) j h =
    xor_assoc (byte_at d j) (column (set ds k []) j) (byte_at (get_or ds k []) j)
    ∙ ap (bit_xor (byte_at d j)) (column-set ds k j (omega arith))

-- Every slot holds at least one byte.
abbrev pub IsFull : List Bytes → Type 0
IsFull [] = Unit {0}
IsFull (d ∷ ds) = (0 < length d) × IsFull ds

pub not-is_empty : (d : Bytes) → 0 < length d → is_empty d ≡ false
not-is_empty [] h = absurd (omega arith)
not-is_empty (b ∷ d) h = refl

find_missing-IsFull : (ds : List Bytes) (i m l : ℕ) → IsFull ds → find_missing i ds m l ≡ (m, l)
unfolding find_missing
find_missing-IsFull [] i m l f = refl
find_missing-IsFull (d ∷ ds) i m l f =
    rw (not-is_empty d f.0) (find_missing-IsFull ds (i + 1) m l f.1)

IsFull-append : (ds ps : List Bytes) → IsFull ds → IsFull ps → IsFull (ds ++ ps)
IsFull-append [] ps f g = g
IsFull-append (d ∷ ds) ps f g = (f.0, IsFull-append ds ps f.1 g)

find_missing-set :
    (ds ps : List Bytes) (k i m l : ℕ)
    → k < length ds
    → IsFull ds
    → IsFull ps
    → find_missing i (set ds k [] ++ ps) m l ≡ (m + 1, i + k)
unfolding find_missing
find_missing-set [] ps k i m l h f g = absurd (omega arith)
find_missing-set (d ∷ ds) ps zero i m l h f g =
    ground (arith, find_missing-IsFull (ds ++ ps) (i + 1) (m + 1) i (IsFull-append ds ps f.1 g))
find_missing-set (d ∷ ds) ps (suc k) i m l h f g =
    ground (arith, not-is_empty d f.0, find_missing-set ds ps k (i + 1) m l (omega arith) f.1 g)

pub max_len-ge : (n : ℕ) (ds : List Bytes) → n ≤ max_len n ds
unfolding max_len
max_len-ge n [] = omega arith
max_len-ge n (d ∷ ds) = omega (arith, max_len-ge (max n (length d)) ds)

pub length-le-max_len : (n : ℕ) (ds : List Bytes) (k : ℕ) → length (get_or ds k []) ≤ max_len n ds
unfolding max_len
length-le-max_len n [] k = omega arith
length-le-max_len n (d ∷ ds) zero = omega (arith, max_len-ge (max n (length d)) ds)
length-le-max_len n (d ∷ ds) (suc k) = length-le-max_len (max n (length d)) ds k

pub length-fec_generate : (ds : List Bytes) → length (fec_generate ds) ≡ max_len 0 ds
unfolding fec_generate
length-fec_generate ds =
    length-xor_all (replicate (max_len 0 ds) 0) ds ∙ length-replicate (max_len 0 ds) 0

-- A packet padded with zeros to the group's longest, as the recovery packet sees it.
unfoldable pub pad : ℕ → Bytes → Bytes
pad n d = d ++ replicate (n - length d) 0

pub length-pad : (n : ℕ) (d : Bytes) → length d ≤ n → length (pad n d) ≡ n
unfolding pad
length-pad n d h =
    omega (
      arith,
      length-append d (replicate (n - length d) 0),
      length-replicate {A = ℕ} (n - length d) 0,
    )

byte_at-pad : (n : ℕ) (d : Bytes) (j : ℕ) → byte_at (pad n d) j ≡ byte_at d j
unfolding pad
byte_at-pad n d j = get_or-pad d (n - length d) j 0

byte_at-parity :
    (ds : List Bytes) (j : ℕ) → j < max_len 0 ds → byte_at (fec_generate ds) j ≡ column ds j
unfolding fec_generate
byte_at-parity ds j h =
    rw
      (
        byte_at-xor_all (replicate (max_len 0 ds) 0) ds j (rw length-replicate h),
        get_or-replicate {A = ℕ} (max_len 0 ds) j 0,
      )
      (zero-xor (column ds j))

-- Byte by byte, the XOR of the packets that are left and of the parity is the lost packet.
byte_at-restored :
    (ds : List Bytes) (k j : ℕ)
    → k < length ds
    → j < max_len 0 ds
    → byte_at (xor_known (replicate (max_len 0 ds) 0) (set ds k [] ++ fec_generate ds ∷ [])) j
      ≡ byte_at (get_or ds k []) j
byte_at-restored ds k j hk hj =
    let left = column (set ds k []) j in
    let lost = byte_at (get_or ds k []) j in
    rw
      (
        xor_known-eq-xor_all (replicate (max_len 0 ds) 0) (set ds k [] ++ fec_generate ds ∷ []),
        byte_at-xor_all (replicate (max_len 0 ds) 0) (set ds k [] ++ fec_generate ds ∷ []) j
            (rw length-replicate hj),
        get_or-replicate {A = ℕ} (max_len 0 ds) j 0,
        zero-xor (column (set ds k [] ++ fec_generate ds ∷ []) j),
        column-append (set ds k []) (fec_generate ds) j,
        byte_at-parity ds j hj,
        ← column-set ds k j hk,
        ← xor_assoc left left lost,
        xor_self left,
      )
      (zero-xor lost)

restored :
    (ds : List Bytes) (k : ℕ)
    → k < length ds
    → xor_known (replicate (max_len 0 ds) 0) (set ds k [] ++ fec_generate ds ∷ [])
      ≡ pad (max_len 0 ds) (get_or ds k [])
restored ds k h =
    get_or_ext {A = ℕ} 0 _ _ (len ∙ sym (length-pad n lost (length-le-max_len 0 ds k)))
      λ j p. byte_at-restored ds k j h (omega (arith, len)) ∙ sym (byte_at-pad n lost j)
  where
    n : ℕ
    n = max_len 0 ds

    lost : Bytes
    lost = get_or ds k []

    len : length (xor_known (replicate n 0) (set ds k [] ++ fec_generate ds ∷ [])) ≡ n
    len =
        ap length (xor_known-eq-xor_all (replicate n 0) (set ds k [] ++ fec_generate ds ∷ []))
        ∙ length-xor_all (replicate n 0) (set ds k [] ++ fec_generate ds ∷ [])
        ∙ length-replicate n 0

IsFull-get_or : (ds : List Bytes) (k : ℕ) → k < length ds → IsFull ds → 0 < length (get_or ds k [])
IsFull-get_or [] k h f = absurd (omega arith)
IsFull-get_or (d ∷ ds) zero h f = f.0
IsFull-get_or (d ∷ ds) (suc k) h f = IsFull-get_or ds k (omega arith) f.1

-- Let a group of non-empty packets lose any one of them. Given the recovery packet, which is as
-- long as the longest packet, `fec_recover` puts the lost packet back into its slot, padded
-- with zeros to that length, and changes no other slot.
pub fec_recover-fec_generate :
    (ds : List Bytes) (k : ℕ)
    → k < length ds
    → IsFull ds
    → (fec_recover (set ds k [] ++ fec_generate ds ∷ []) (length (fec_generate ds))
        ≡ some (set ds k (pad (length (fec_generate ds)) (get_or ds k [])) ++ fec_generate ds ∷ []))
      × (length (fec_generate ds) ≡ max_len 0 ds)
unfolding fec_recover
fec_recover-fec_generate ds k h f = (
  rw
      (
        length-fec_generate ds,
        find_missing-set ds (fec_generate ds ∷ []) k 0 0 0 h f parity_full,
        zero-add k,
        restored ds k h,
      )
      (ap some (
        set-append (set ds k []) (fec_generate ds ∷ []) k (pad (max_len 0 ds) (get_or ds k []))
          (rw length-set h)
        ∙ ap (λ xs. xs ++ fec_generate ds ∷ [])
            (set-set ds k [] (pad (max_len 0 ds) (get_or ds k []))))),
  length-fec_generate ds,
)
  where
    parity_full : IsFull (fec_generate ds ∷ [])
    parity_full = (
      omega (arith, length-fec_generate ds, IsFull-get_or ds k h f, length-le-max_len 0 ds k),
      tt,
    )

-- How many slots are empty.
unfoldable pub empties : List Bytes → ℕ
empties [] = 0
empties (d ∷ ds) = if is_empty d then empties ds + 1 else empties ds

find_missing-empties :
    (i : ℕ) (ds : List Bytes) (m l : ℕ) → (find_missing i ds m l).0 ≡ m + empties ds
unfolding find_missing empties
find_missing-empties i [] m l = omega arith
find_missing-empties i ([] ∷ ds) m l = omega (arith, find_missing-empties (i + 1) ds (m + 1) i)
find_missing-empties i ((b ∷ d) ∷ ds) m l = find_missing-empties (i + 1) ds m l

-- `fec_recover` gives up exactly when the number of empty slots is not one.
fec_recover-none : (known : List Bytes) (n : ℕ) → (fec_recover known n ≡ none) ↔ (empties known ≢ 1)
unfolding fec_recover
fec_recover-none known n = ground (arith, find_missing-empties 0 known 0 0)
