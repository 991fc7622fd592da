-- ===== src/TestSource/Chroma.antt =====
-- The loops of U and V: each writes its plane, inside the buffer, and nothing else.
use rtstream.Prelude.{
  ℕ, zero, suc, ◌+◌, ◌*◌, ◌/◌, ◌%◌, ◌^◌, ◌≤◌, ◌<◌, ◌≡◌, ◌≢◌, ◌⊎◌, inl, inr, refl, ◌∙◌, sym, subst,
  some, length, get_elem?, ◌>>=◌, arith,
}
use rtstream.Wire.Bytes.{Bytes}
use native.Mathlib.Nat.{mul-le-mul_right}
use native.Mathlib.Decide.{ℕ_discrete}
use rtstream.TestSource.{Moment, color, write, chroma_row, chroma_rows}
use rtstream.TestSource.Planes.{Draws, Draws-bind, Puts, write-Draws}

-- The bytes of U and V in a row from column `x` on; what lies before them in either plane is as it was.
abbrev ChromaRowIs : Moment → ℕ → ℕ → ℕ → ℕ → ℕ → ℕ → Bytes → Bytes → Type 0
ChromaRowIs m w u v start k x buf buf' =
    ((c : ℕ)
      → x ≤ c
      → c < x + k
      → (get_elem? buf' (u + (start + c)) ≡ some (color w m.shift 1 (c * 2)))
        × (get_elem? buf' (v + (start + c)) ≡ some (color w m.shift 2 (c * 2))))
    × ((i : ℕ)
        → (i < u + (start + x)) ⊎ ((u + (start + x + k) ≤ i) × (i < v + (start + x)))
        → get_elem? buf' i ≡ get_elem? buf i)

-- Both writes of a column.
abbrev Both : ℕ → ℕ → ℕ → ℕ → Bytes → Bytes → Type 0
Both i j a b buf buf' =
    (get_elem? buf' i ≡ some a)
    × (get_elem? buf' j ≡ some b)
    × ((k : ℕ) → i ≢ k → j ≢ k → get_elem? buf' k ≡ get_elem? buf k)

write-write-Draws :
    (n i j a b : ℕ) (buf : Bytes)
    → length buf ≡ n
    → i < j
    → j < n
    → Draws n (Both i j a b buf) (write i a buf >>= write j b)
write-write-Draws n i j a b buf size lt lt' =
    Draws-bind n (Puts i a buf) (Both i j a b buf) (write i a buf) (write j b)
      (write-Draws n i a buf size (omega arith))
      (λ buf1 size1 put.
        let (buf2, e, size2, put2) = write-Draws n j b buf1 size1 lt' in
        (
          buf2,
          e,
          size2,
          (
            put2.1 i (λ e. absurd (omega (arith, e))) ∙ put.0,
            put2.0,
            λ k ne ne'. put2.1 k ne' ∙ put.1 k ne,
          ),
        ))

chroma_row-Draws :
    (n : ℕ) (m : Moment) (w u v start k x : ℕ) (buf : Bytes)
    → length buf ≡ n
    → u + (start + x + k) ≤ v
    → v + (start + x + k) ≤ n
    → n < 2 ^ 32
    → Draws n (ChromaRowIs m w u v start k x buf) (chroma_row m w u v start k x buf)
unfolding chroma_row
chroma_row-Draws n m w u v start zero x buf size apart fits small =
    (buf, refl, size, (λ c from to. absurd (omega arith), λ i out. refl))
chroma_row-Draws n m w u v start (suc k) x buf size apart fits small =
    let place : (start + x) % 2 ^ 32 ≡ start + x = omega arith in
    let a = color w m.shift 1 (x * 2) in
    let b = color w m.shift 2 (x * 2) in
    Draws-bind n (Both (u + (start + x)) (v + (start + x)) a b buf)
      (ChromaRowIs m w u v start (suc k) x buf)
      (write (u + (start + x) % 2 ^ 32) a buf >>= write (v + (start + x) % 2 ^ 32) b)
      (chroma_row m w u v start k (x + 1))
      (subst
        (λ p.
          Draws n (Both (u + (start + x)) (v + (start + x)) a b buf)
            (write (u + p) a buf >>= write (v + p) b))
        (sym place)
        (write-write-Draws n (u + (start + x)) (v + (start + x)) a b buf size (omega arith)
          (omega arith)))
      (λ buf1 size1 both.
        let (buf2, e, size2, (inside, outside)) =
          chroma_row-Draws n m w u v start k (x + 1) buf1 size1 (omega arith) (omega arith) small in
        (
          buf2,
          e,
          size2,
          (
            λ c from to. elim (ℕ_discrete x c) [
              | yes same ↦
                  subst
                    (λ c.
                      (get_elem? buf2 (u + (start + c)) ≡ some (color w m.shift 1 (c * 2)))
                      × (get_elem? buf2 (v + (start + c)) ≡ some (color w m.shift 2 (c * 2))))
                    same
                    (
                      outside (u + (start + x)) (inl (omega arith)) ∙ both.0,
                      outside (v + (start + x)) (inr (omega arith, omega arith)) ∙ both.1,
                    )
              | no other ↦ inside c (omega (arith, other)) (omega arith)
            ],
            λ i out. elim out [
              | inl low ↦
                  outside i (inl (omega arith))
                  ∙ both.2 i (λ e. absurd (omega (arith, e))) (λ e. absurd (omega (arith, e)))
              | inr (high, low) ↦
                  outside i (inr (omega arith, omega arith))
                  ∙ both.2 i (λ e. absurd (omega (arith, e))) (λ e. absurd (omega (arith, e)))
            ],
          ),
        ))

-- The rows of U and V from row `y` on, of `rows` in all.
abbrev pub ChromaIs : Moment → ℕ → ℕ → ℕ → ℕ → ℕ → ℕ → Bytes → Bytes → Type 0
ChromaIs m w u v rows k y buf buf' =
    ((r c : ℕ)
      → y ≤ r
      → r < y + k
      → c < w / 2
      → (get_elem? buf' (u + (r * (w / 2) + c)) ≡ some (color w m.shift 1 (c * 2)))
        × (get_elem? buf' (v + (r * (w / 2) + c)) ≡ some (color w m.shift 2 (c * 2))))
    × ((i : ℕ)
        → (i < u + y * (w / 2)) ⊎ ((u + rows * (w / 2) ≤ i) × (i < v + y * (w / 2)))
        → get_elem? buf' i ≡ get_elem? buf i)

pub chroma_rows-Draws :
    (n : ℕ) (m : Moment) (w u v rows k y : ℕ) (buf : Bytes)
    → length buf ≡ n
    → y + k ≤ rows
    → u + rows * (w / 2) ≤ v
    → v + rows * (w / 2) ≤ n
    → n < 2 ^ 32
    → Draws n (ChromaIs m w u v rows k y buf) (chroma_rows m w u v k y buf)
unfolding chroma_rows
chroma_rows-Draws n m w u v rows zero y buf size le apart fits small =
    (buf, refl, size, (λ r c from to in_row. absurd (omega arith), λ i out. refl))
chroma_rows-Draws n m w u v rows (suc k) y buf size le apart fits small =
    let row_fits : suc y * (w / 2) ≤ rows * (w / 2) = mul-le-mul_right (w / 2) (omega arith) in
    Draws-bind n (ChromaRowIs m w u v (y * (w / 2)) (w / 2) 0 buf)
      (ChromaIs m w u v rows (suc k) y buf) (chroma_row m w u v (y * (w / 2)) (w / 2) 0 buf)
      (chroma_rows m w u v k (y + 1))
      (chroma_row-Draws n m w u v (y * (w / 2)) (w / 2) 0 buf size (omega arith) (omega arith)
        small)
      (λ buf1 size1 is.
        let (buf2, e, size2, (later, before)) =
          chroma_rows-Draws n m w u v rows k (y + 1) buf1 size1 (omega arith) apart fits small in
        (
          buf2,
          e,
          size2,
          (
            λ r c from to in_row. elim (ℕ_discrete y r) [
              | yes same ↦
                  subst
                    (λ r.
                      (get_elem? buf2 (u + (r * (w / 2) + c)) ≡ some (color w m.shift 1 (c * 2)))
                      × (get_elem? buf2 (v + (r * (w / 2) + c)) ≡ some (color w m.shift 2 (c * 2))))
                    same
                    (
                      before (u + (y * (w / 2) + c)) (inl (omega arith))
                          ∙ (is.0 c (omega arith) (omega arith)).0,
                      before (v + (y * (w / 2) + c)) (inr (omega arith, omega arith))
                          ∙ (is.0 c (omega arith) (omega arith)).1,
                    )
              | no other ↦ later r c (omega (arith, other)) (omega arith) in_row
            ],
            λ i out. elim out [
              | inl low ↦ before i (inl (omega arith)) ∙ is.1 i (inl (omega arith))
              | inr (high, low) ↦
                  before i (inr (high, omega arith)) ∙ is.1 i (inr (omega arith, omega arith))
            ],
          ),
        ))
