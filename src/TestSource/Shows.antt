-- ===== src/TestSource/Shows.antt =====
-- What a picture of the test source shows.
use rtstream.Prelude.{
  ℕ, suc, ◌+◌, ◌*◌, ◌/◌, ◌%◌, ◌^◌, ◌≤◌, ◌<◌, ◌≡◌, ◌≢◌, ◌⊎◌, inl, inr, refl, ap, ap₂, ◌∙◌, sym,
  subst, dec_lt, ℕ_discrete, Option, some, length, get_elem?, length-replicate, replicate, ◌>>=◌,
  arith,
}
use rtstream.Wire.Bytes.{Bytes}
use native.Mathlib.Nat.{mul-le-mul_right, mul_comm}
use rtstream.TestSource.{
  Moment, color, luma, luma_rows, chroma_rows, draw_second_digits, picture, even_size,
}
use rtstream.TestSource.Planes.{Draws, Draws-bind, LumaIs, luma_rows-Draws}
use rtstream.TestSource.Chroma.{chroma_rows-Draws}
use rtstream.TestSource.Digits.{draw_second_digits-Draws}

-- A point outside of the corner, or behind its rows.
outside_corner :
    (w x y px py : ℕ)
    → x < w
    → 36 ≤ w
    → (36 ≤ x) ⊎ (28 ≤ y)
    → px < 36
    → py < 28
    → py * w + px ≢ y * w + x
outside_corner w x y px py lt wide out left up e = elim (dec_lt py y) [
  | yes below ↦
      let rows : suc py * w ≤ y * w = mul-le-mul_right w (omega arith) in absurd (omega (arith, e))
  | no not_below ↦ elim (ℕ_discrete py y) [
    | yes same ↦ elim out [
      | inl right ↦
          let start : py * w ≡ y * w = ap (λ r. r * w) same in absurd (omega (arith, e, start))
      | inr down ↦ absurd (omega (arith, same))
    ]
    | no other ↦
        let rows : suc y * w ≤ py * w = mul-le-mul_right w (omega (arith, not_below, other)) in
        absurd (omega (arith, e))
  ]
]

behind_corner :
    (w h i px py : ℕ) → 36 ≤ w → 28 ≤ h → h * w ≤ i → px < 36 → py < 28 → py * w + px ≢ i
behind_corner w h i px py wide high behind left up e =
    let rows : suc py * w ≤ h * w = mul-le-mul_right w (omega arith) in absurd (omega (arith, e))

four_parts : (a b : ℕ) → a * 2 * (b * 2) ≡ a * b * 4
four_parts a b = grind arith

even_size-even : (n : ℕ) → even_size n % 2 ≡ 0
unfolding even_size
even_size-even n = ground arith

even_size-le : (n : ℕ) → 64 ≤ even_size n
unfolding even_size
even_size-le n = omega arith

quarter : (h w : ℕ) → h % 2 ≡ 0 → w % 2 ≡ 0 → h * w ≡ h / 2 * (w / 2) * 4
quarter h w even even' =
    let twice : h ≡ h / 2 * 2 = omega arith in
    let twice' : w ≡ w / 2 * 2 = omega arith in
    ap₂ (λ (p q : ℕ). p * q) twice twice' ∙ four_parts (h / 2) (w / 2)

-- The colours of a picture of `w` times `h` points: U and V have a point for two columns and two rows.
abbrev ChromaShows : Moment → ℕ → ℕ → Bytes → Type 0
ChromaShows m w h buf =
    (x y : ℕ)
    → x < w / 2
    → y < h / 2
    → (get_elem? buf (w * h + (y * (w / 2) + x)) ≡ some (color w m.shift 1 (x * 2)))
      × (get_elem? buf (w * h + w * h / 4 + (y * (w / 2) + x)) ≡ some (color w m.shift 2 (x * 2)))

-- What a picture shows: Y is `luma` outside the corner with the digits.
abbrev pub Shows : Moment → ℕ → ℕ → Bytes → Type 0
Shows m w h buf =
    ((x y : ℕ)
      → x < w
      → y < h
      → (36 ≤ x) ⊎ (28 ≤ y)
      → get_elem? buf (y * w + x) ≡ some (luma m w h x y))
    × ChromaShows m w h buf

-- The planes before the digits are drawn.
abbrev PlanesShow : Moment → ℕ → ℕ → Bytes → Type 0
PlanesShow m w h buf =
    ((x y : ℕ) → x < w → y < h → get_elem? buf (y * w + x) ≡ some (luma m w h x y))
    × ChromaShows m w h buf

-- The sizes of a picture with `4 * p` points.
record Sizes (n w h p : ℕ) : Type 0 where
  area : w * h ≡ p * 4
  turned : h * w ≡ p * 4
  part : h / 2 * (w / 2) ≡ p
  all : n ≡ p * 6
  small : n < 2 ^ 32
  wide : 64 ≤ w
  high : 64 ≤ h

planes-Draws :
    (n : ℕ) (m : Moment) (w h p : ℕ) (buf : Bytes)
    → Sizes n w h p
    → length buf ≡ n
    → Draws n
        (PlanesShow m w h)
        (luma_rows m w h h 0 buf >>= chroma_rows m w (w * h) (w * h + w * h / 4) (h / 2) 0)
planes-Draws n m w h p buf s size =
    Draws-bind n (LumaIs m w h h 0 buf) (PlanesShow m w h) (luma_rows m w h h 0 buf)
      (chroma_rows m w (w * h) (w * h + w * h / 4) (h / 2) 0)
      (luma_rows-Draws n m w h h 0 buf size (omega arith) (omega (arith, s.turned, s.all)) s.small)
      (λ buf1 size1 is.
        let (buf2, e, size2, chroma) =
          chroma_rows-Draws n m w (w * h) (w * h + w * h / 4) (h / 2) (h / 2) 0 buf1 size1
            (omega arith) (omega (arith, s.area, s.part)) (omega (arith, s.area, s.part, s.all))
            s.small in
        (
          buf2,
          e,
          size2,
          (
            λ x y in_row in_rows.
                let here : suc y * w ≤ h * w = mul-le-mul_right w (omega arith) in
                chroma.1 (y * w + x) (inl (omega (arith, here, in_row, s.area, s.turned)))
                ∙ is.0 y x (omega arith) (omega arith) in_row,
            λ x y in_row in_rows. chroma.0 y x (omega arith) (omega arith) in_row,
          ),
        ))

-- The digits on top.
digits-Draws :
    (n : ℕ) (m : Moment) (w h p : ℕ) (buf : Bytes)
    → Sizes n w h p
    → length buf ≡ n
    → PlanesShow m w h buf
    → Draws n (Shows m w h) (draw_second_digits w m.seconds buf)
digits-Draws n m w h p buf s size planes =
    let rows : 28 * w ≤ h * w = mul-le-mul_right w (omega (arith, s.high)) in
    let (buf', e, size', mark) =
      draw_second_digits-Draws n w m.seconds buf size (omega (arith, s.wide))
        (omega (arith, rows, s.turned, s.all)) s.small in
    let behind : (i : ℕ) → w * h ≤ i → get_elem? buf' i ≡ get_elem? buf i = λ i le.
      mark i (λ px py left up.
        behind_corner w h i px py (omega (arith, s.wide)) (omega (arith, s.high))
          (omega (arith, le, s.area, s.turned)) left up) in
    (
      buf',
      e,
      size',
      (
        λ x y in_row in_rows out.
            mark (y * w + x) (λ px py left up.
              outside_corner w x y px py in_row (omega (arith, s.wide)) out left up)
            ∙ planes.0 x y in_row in_rows,
        λ x y in_row in_rows.
            let both = planes.1 x y in_row in_rows in
            (
              behind (w * h + (y * (w / 2) + x)) (omega arith) ∙ both.0,
              behind (w * h + w * h / 4 + (y * (w / 2) + x)) (omega arith) ∙ both.1,
            ),
      ),
    )

even_size-Sizes :
    (width height : ℕ)
    → even_size width * even_size height / 2 * 3 < 2 ^ 32
    → Sizes
        (even_size width * even_size height / 2 * 3)
        (even_size width)
        (even_size height)
        (even_size height / 2 * (even_size width / 2))
even_size-Sizes width height small =
    let w = even_size width in
    let h = even_size height in
    let turned = quarter h w (even_size-even height) (even_size-even width) in
    let area : w * h ≡ h / 2 * (w / 2) * 4 = mul_comm w h ∙ turned in
    record {
      area = area;
      turned = turned;
      part = refl;
      all = omega (arith, area);
      small = small;
      wide = even_size-le width;
      high = even_size-le height;
    }

-- For every size asked for, when a frame of the size taken has less than 2^32 bytes: `loop` draws a picture
-- without a write outside its buffer; it has three bytes for two points, and its three planes
-- lie one behind the other and show the bars and the box, outside of the corner with the digits.
pub picture-Shows :
    (m : Moment) (width height : ℕ)
    → even_size width * even_size height / 2 * 3 < 2 ^ 32
    → Draws
        (even_size width * even_size height / 2 * 3)
        (Shows m (even_size width) (even_size height))
        (picture m (even_size width) (even_size height))
unfolding picture
picture-Shows m width height small =
    let w = even_size width in
    let h = even_size height in
    let n = w * h / 2 * 3 in
    let s = even_size-Sizes width height small in
    let ysz : w * h % 2 ^ 32 ≡ w * h = omega (arith, s.area, s.all, s.small) in
    let total : (w * h + w * h / 4 * 2) % 2 ^ 32 ≡ n = omega (arith, s.area, s.all, s.small) in
    let body : ℕ → ℕ → Option Bytes = λ y_size all.
      luma_rows m w h h 0 (replicate all 0)
      >>= chroma_rows m w y_size (y_size + y_size / 4) (h / 2) 0
      >>= draw_second_digits w m.seconds in
    subst (λ y_size. Draws n (Shows m w h) (body y_size ((y_size + y_size / 4 * 2) % 2 ^ 32)))
      (sym ysz)
      (subst (λ all. Draws n (Shows m w h) (body (w * h) all)) (sym total)
        (Draws-bind n (PlanesShow m w h) (Shows m w h)
          (luma_rows m w h h 0 (replicate n 0)
            >>= chroma_rows m w (w * h) (w * h + w * h / 4) (h / 2) 0)
          (draw_second_digits w m.seconds)
          (planes-Draws n m w h (h / 2 * (w / 2)) (replicate n 0) s (length-replicate n 0))
          (λ buf size planes. digits-Draws n m w h (h / 2 * (w / 2)) buf s size planes)))
