-- ===== src/TestSource/Planes.antt =====
-- The loops of a picture: each writes its plane, inside the buffer, and nothing else.
use rtstream.Prelude.{
  ℕ, zero, suc, ◌+◌, ◌*◌, ◌%◌, ◌^◌, ◌≤◌, ◌<◌, ◌≡◌, ◌≢◌, ◌⊎◌, inl, inr, refl, ap, ◌∙◌, sym, subst,
  Option, some, length, set, get_elem?, get_elem?-set_self, get_elem?-set_ne, length-set, ◌>>=◌,
  arith,
}
use rtstream.Wire.Bytes.{Bytes}
use native.Mathlib.Nat.{mul-le-mul_right}
use native.Mathlib.Decide.{ℕ_discrete}
use rtstream.TestSource.{Moment, luma, write, row, luma_rows}

-- A buffer of `n` bytes comes out, of which `P` holds.
abbrev pub Draws : ℕ → (Bytes → Type 0) → Option Bytes → Type 0
Draws n P o = (buf : Bytes) × (o ≡ some buf) × (length buf ≡ n) × P buf

pub Draws-bind :
    (n : ℕ) (P Q : Bytes → Type 0) (o : Option Bytes) (f : Bytes → Option Bytes)
    → Draws n P o
    → ((buf : Bytes) → length buf ≡ n → P buf → Draws n Q (f buf))
    → Draws n Q (o >>= f)
Draws-bind n P Q o f (buf, e, size, p) go = subst (λ o. Draws n Q (o >>= f)) (sym e) (go buf size p)

-- One byte is `v`, and the others are as they were.
abbrev pub Puts : ℕ → ℕ → Bytes → Bytes → Type 0
Puts i v buf buf' =
    (get_elem? buf' i ≡ some v) × ((j : ℕ) → i ≢ j → get_elem? buf' j ≡ get_elem? buf j)

pub write-Draws :
    (n i v : ℕ) (buf : Bytes) → length buf ≡ n → i < n → Draws n (Puts i v buf) (write i v buf)
unfolding write
write-Draws n i v buf size lt = (
  set buf i v,
  ground arith,
  length-set buf i v ∙ size,
  (get_elem?-set_self buf i v (omega arith), λ j ne. get_elem?-set_ne buf v ne),
)

-- The bytes of a row from column `x` on are `v` of their columns, and the others are as they were.
abbrev RowIs : (ℕ → ℕ) → ℕ → ℕ → ℕ → Bytes → Bytes → Type 0
RowIs v base k x buf buf' =
    ((j : ℕ) → x ≤ j → j < x + k → get_elem? buf' (base + j) ≡ some (v j))
    × ((i : ℕ) → (i < base + x) ⊎ (base + x + k ≤ i) → get_elem? buf' i ≡ get_elem? buf i)

row-Draws :
    (n : ℕ) (v : ℕ → ℕ) (base k x : ℕ) (buf : Bytes)
    → length buf ≡ n
    → base + x + k ≤ n
    → Draws n (RowIs v base k x buf) (row v base k x buf)
unfolding row
row-Draws n v base zero x buf size le =
    (buf, refl, size, (λ j from to. absurd (omega arith), λ i out. refl))
row-Draws n v base (suc k) x buf size le =
    Draws-bind n (Puts (base + x) (v x) buf) (RowIs v base (suc k) x buf)
      (write (base + x) (v x) buf) (row v base k (x + 1))
      (write-Draws n (base + x) (v x) buf size (omega arith))
      (λ buf1 size1 put.
        let (buf2, e, size2, (inside, outside)) =
          row-Draws n v base k (x + 1) buf1 size1 (omega arith) in
        (
          buf2,
          e,
          size2,
          (
            λ j from to. elim (ℕ_discrete x j) [
              | yes same ↦
                  subst (λ j. get_elem? buf2 (base + j) ≡ some (v j)) same
                    (outside (base + x) (inl (omega arith)) ∙ put.0)
              | no other ↦ inside j (omega (arith, other)) (omega arith)
            ],
            λ i out.
                outside i (elim out [ inl low ↦ inl (omega arith) | inr high ↦ inr (omega arith) ])
                ∙ put.1 i (λ e. elim out [
                  | inl low ↦ absurd (omega arith)
                  | inr high ↦ absurd (omega arith)
                ]),
          ),
        ))

-- The rows of Y from row `y` on.
abbrev pub LumaIs : Moment → ℕ → ℕ → ℕ → ℕ → Bytes → Bytes → Type 0
LumaIs m w h k y buf buf' =
    ((r c : ℕ) → y ≤ r → r < y + k → c < w → get_elem? buf' (r * w + c) ≡ some (luma m w h c r))
    × ((i : ℕ) → i < y * w → get_elem? buf' i ≡ get_elem? buf i)

pub luma_rows-Draws :
    (n : ℕ) (m : Moment) (w h k y : ℕ) (buf : Bytes)
    → length buf ≡ n
    → y + k ≤ h
    → h * w ≤ n
    → n < 2 ^ 32
    → Draws n (LumaIs m w h k y buf) (luma_rows m w h k y buf)
unfolding luma_rows
luma_rows-Draws n m w h zero y buf size le fits small =
    (buf, refl, size, (λ r c from to in_row. absurd (omega arith), λ i low. refl))
luma_rows-Draws n m w h (suc k) y buf size le fits small =
    let row_fits : suc y * w ≤ h * w = mul-le-mul_right w (omega arith) in
    let base : y * w % 2 ^ 32 ≡ y * w = omega arith in
    Draws-bind n (RowIs (λ x. luma m w h x y) (y * w % 2 ^ 32) w 0 buf) (LumaIs m w h (suc k) y buf)
      (row (λ x. luma m w h x y) (y * w % 2 ^ 32) w 0 buf) (luma_rows m w h k (y + 1))
      (row-Draws n (λ x. luma m w h x y) (y * w % 2 ^ 32) w 0 buf size (omega arith))
      (λ buf1 size1 is.
        let (buf2, e, size2, (later, before)) =
          luma_rows-Draws n m w h k (y + 1) buf1 size1 (omega arith) fits small in
        (
          buf2,
          e,
          size2,
          (
            λ r c from to in_row. elim (ℕ_discrete y r) [
              | yes same ↦
                  subst (λ r. get_elem? buf2 (r * w + c) ≡ some (luma m w h c r)) same
                    (before (y * w + c) (omega arith)
                      ∙ ap (λ b. get_elem? buf1 (b + c)) (sym base)
                      ∙ is.0 c (omega arith) (omega arith))
              | no other ↦ later r c (omega (arith, other)) (omega arith) in_row
            ],
            λ i low. before i (omega arith) ∙ is.1 i (inl (omega arith)),
          ),
        ))
