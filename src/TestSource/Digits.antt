-- ===== src/TestSource/Digits.antt =====
-- The digits of the test source stay in their corner.
use rtstream.Prelude.{
  ℕ, suc, ◌+◌, ◌*◌, ◌/◌, ◌%◌, ◌^◌, ◌≤◌, ◌<◌, ◌≡◌, ◌≢◌, refl, ◌∙◌, sym, subst, Bool, true, ◌&&◌,
  List, [], ◌∷◌, length, get_elem?, ltb, arith,
}
use rtstream.Prelude.Bits.{holds_below, holds_below_sound}
use rtstream.Wire.Bytes.{Bytes}
use native.Mathlib.Nat.{mul-le-mul_right}
use rtstream.TestSource.{write, draw, digit_points, draw_second_digits}
use rtstream.TestSource.Planes.{Draws, Draws-bind, Puts, write-Draws}

-- The digits stand in the corner of 36 columns and 28 rows; nothing outside of it changes.
abbrev pub Marked : ℕ → Bytes → Bytes → Type 0
Marked w buf buf' =
    (i : ℕ)
    → ((px py : ℕ) → px < 36 → py < 28 → py * w + px ≢ i)
    → get_elem? buf' i ≡ get_elem? buf i

unfoldable all_small : List (ℕ × ℕ) → Bool
all_small [] = true
all_small (p ∷ ps) = ltb p.0 36 && ltb p.1 28 && all_small ps

three : (p q : ℕ) (b : Bool) → (ltb p 36 && ltb q 28 && b) ≡ true → (p < 36) × (q < 28) × (b ≡ true)
three p q b e = ground arith

draw-Draws :
    (n w : ℕ) (ps : List (ℕ × ℕ)) (buf : Bytes)
    → length buf ≡ n
    → all_small ps ≡ true
    → 36 ≤ w
    → 28 * w ≤ n
    → n < 2 ^ 32
    → Draws n (Marked w buf) (draw w ps buf)
unfolding draw all_small
draw-Draws n w [] buf size inside wide high small = (buf, refl, size, λ i away. refl)
draw-Draws n w (p ∷ ps) buf size inside wide high small =
    let (left, up, others) = three p.0 p.1 (all_small ps) inside in
    let in_row : suc p.1 * w ≤ 28 * w = mul-le-mul_right w (omega arith) in
    let place : (p.1 * w + p.0) % 2 ^ 32 ≡ p.1 * w + p.0 = omega arith in
    Draws-bind n (Puts (p.1 * w + p.0) 16 buf) (Marked w buf)
      (write ((p.1 * w + p.0) % 2 ^ 32) 16 buf) (draw w ps)
      (subst (λ i. Draws n (Puts (p.1 * w + p.0) 16 buf) (write i 16 buf)) (sym place)
        (write-Draws n (p.1 * w + p.0) 16 buf size (omega arith)))
      (λ buf1 size1 put.
        let (buf2, e, size2, mark) = draw-Draws n w ps buf1 size1 others wide high small in
        (buf2, e, size2, λ i away. mark i away ∙ put.1 i (away p.0 p.1 left up)))

digits_small :
    (holds_below (λ d. all_small (digit_points 0 d)) 10 ≡ true)
    × (holds_below (λ d. all_small (digit_points 1 d)) 10 ≡ true)
unfolding holds_below all_small digit_points
digits_small = (refl, refl)

pub draw_second_digits-Draws :
    (n w seconds : ℕ) (buf : Bytes)
    → length buf ≡ n
    → 36 ≤ w
    → 28 * w ≤ n
    → n < 2 ^ 32
    → Draws n (Marked w buf) (draw_second_digits w seconds buf)
unfolding draw_second_digits
draw_second_digits-Draws n w seconds buf size wide high small =
    Draws-bind n (Marked w buf) (Marked w buf) (draw w (digit_points 0 (seconds % 100 / 10)) buf)
      (draw w (digit_points 1 (seconds % 100 % 10)))
      (draw-Draws n w (digit_points 0 (seconds % 100 / 10)) buf size
        (holds_below_sound (λ d. all_small (digit_points 0 d)) 10 (seconds % 100 / 10) (omega arith)
          digits_small.0)
        wide high small)
      (λ buf1 size1 mark1.
        let (buf2, e, size2, mark2) =
          draw-Draws n w (digit_points 1 (seconds % 100 % 10)) buf1 size1
            (holds_below_sound (λ d. all_small (digit_points 1 d)) 10 (seconds % 100 % 10)
              (omega arith) digits_small.1)
            wide high small in
        (buf2, e, size2, λ i away. mark2 i away ∙ mark1 i away))
