-- ===== src/TestSource.antt =====
-- src/capture/test_source.h: the sizes of `start`, the beat and the picture of `loop`, and
-- `draw_second_digits`. A picture is drawn into a buffer of bytes in order: all of Y, then U, then V; a
-- write behind its end is `none`.
pub mod Planes
pub mod Chroma
pub mod Digits
pub mod Shows
pub mod Beat
mod Tests
use rtstream.Prelude.{
  ℕ, zero, suc, ◌+◌, ◌-◌, ◌*◌, ◌/◌, ◌%◌, ◌^◌, max, min, Bool, true, false, ◌&&◌, not, List, [], ◌∷◌,
  ◌++◌, Option, none, some, length, get_or, set, replicate, bit_and, ltb, leb, ◌==◌, if◌then◌else◌,
  ◌>>=◌,
}
use rtstream.Prelude.Int.{ℤ, pos, ◌+ℤ◌, ◌-ℤ◌, ltb_ℤ}
use rtstream.Wire.Bytes.{Bytes}

-- `std::max(64u, n & ~1u)`: the lowest bit is cleared.
unfoldable pub even_size : ℕ → ℕ
even_size n = max 64 (n / 2 * 2)

-- `interval_us`, of type `uint32_t`
unfoldable pub interval_us : ℕ → ℕ
interval_us fps = 1000000 / (if fps == 0 then 30 else fps)

-- The beat: `next_t` after a round; `now` and `later` are the two readings of the clock. The minus in `-interval_us` is that of `uint32_t`.
unfoldable pub beat : ℕ → ℤ → ℤ → ℤ → ℤ
beat interval now later next =
    let wait = next -ℤ now in
    let negative = pos ((2 ^ 32 - interval) % 2 ^ 32) in
    let from = if ltb_ℤ (pos 0) wait then next else if ltb_ℤ wait negative then later else next in
    from +ℤ pos interval

-- What the floating-point functions of the time give for a picture: `shift`, `bx`, `by`, and the seconds.
-- None of them is negative.
pub record Moment : Type 0 where
  pub shift : ℕ
  pub bx : ℕ
  pub by : ℕ
  pub seconds : ℕ

-- `bar_colors`: Y, U and V of each bar.
abbrev pub bar_colors : List (List ℕ)
bar_colors =
    (235 ∷ 128 ∷ 128 ∷ [])
    ∷ (235 ∷ 128 ∷ 240 ∷ [])
    ∷ (160 ∷ 166 ∷ 128 ∷ [])
    ∷ (160 ∷ 166 ∷ 240 ∷ [])
    ∷ (107 ∷ 52 ∷ 128 ∷ [])
    ∷ (107 ∷ 52 ∷ 240 ∷ [])
    ∷ (41 ∷ 240 ∷ 110 ∷ [])
    ∷ (168 ∷ 44 ∷ 6 ∷ [])
    ∷ []

-- `bi`, the bar of column `x`
unfoldable pub bar_of : ℕ → ℕ → ℕ → ℕ
bar_of w shift x = min 7 ((x + shift) % 2 ^ 32 % w * 8 / w)

unfoldable pub color : ℕ → ℕ → ℕ → ℕ → ℕ
unfolding bar_of
color w shift part x = get_or (get_or bar_colors (bar_of w shift x) []) part 0

-- `yv`: the moving box is bright.
unfoldable pub luma : Moment → ℕ → ℕ → ℕ → ℕ → ℕ
unfolding color
luma m w h x y =
    let box = h / 6 in
    let inside = leb m.bx x && ltb x (m.bx + box) && leb m.by y && ltb y (m.by + box) in
    if inside then 235 else color w m.shift 0 x

-- `buf[i] = v`
unfoldable pub write : ℕ → ℕ → Bytes → Option Bytes
write i v buf = if ltb i (length buf) then some (set buf i v) else none

-- The loop over the columns, from `x` on with `n` to go; `base` is where the row begins.
unfoldable pub row : (ℕ → ℕ) → ℕ → ℕ → ℕ → Bytes → Option Bytes
unfolding write
row v base zero x buf = some buf
row v base (suc n) x buf = write (base + x) (v x) buf >>= row v base n (x + 1)

-- The loop over the rows of Y.
unfoldable pub luma_rows : Moment → ℕ → ℕ → ℕ → ℕ → Bytes → Option Bytes
unfolding row luma
luma_rows m w h zero y buf = some buf
luma_rows m w h (suc n) y buf =
    row (λ x. luma m w h x y) (y * w % 2 ^ 32) w 0 buf >>= luma_rows m w h n (y + 1)

-- The loop over the columns of U and V; `start` is where row `y` begins, and the sum has 32 bits.
unfoldable pub chroma_row : Moment → ℕ → ℕ → ℕ → ℕ → ℕ → ℕ → Bytes → Option Bytes
unfolding write color
chroma_row m w u v start zero x buf = some buf
chroma_row m w u v start (suc n) x buf =
    write (u + (start + x) % 2 ^ 32) (color w m.shift 1 (x * 2)) buf
    >>= write (v + (start + x) % 2 ^ 32) (color w m.shift 2 (x * 2))
    >>= chroma_row m w u v start n (x + 1)

-- The loop over the rows of U and V, which begin at `u` and `v`.
unfoldable pub chroma_rows : Moment → ℕ → ℕ → ℕ → ℕ → ℕ → Bytes → Option Bytes
unfolding chroma_row
chroma_rows m w u v zero y buf = some buf
chroma_rows m w u v (suc n) y buf =
    chroma_row m w u v (y * (w / 2)) (w / 2) 0 buf >>= chroma_rows m w u v n (y + 1)

-- `font[d]`: five rows of three bits.
abbrev pub font : List (List ℕ)
font =
    (7 ∷ 5 ∷ 5 ∷ 5 ∷ 7 ∷ [])
    ∷ (2 ∷ 6 ∷ 2 ∷ 2 ∷ 7 ∷ [])
    ∷ (7 ∷ 1 ∷ 7 ∷ 4 ∷ 7 ∷ [])
    ∷ (7 ∷ 1 ∷ 7 ∷ 1 ∷ 7 ∷ [])
    ∷ (5 ∷ 5 ∷ 7 ∷ 1 ∷ 1 ∷ [])
    ∷ (7 ∷ 4 ∷ 7 ∷ 1 ∷ 7 ∷ [])
    ∷ (7 ∷ 4 ∷ 7 ∷ 5 ∷ 7 ∷ [])
    ∷ (7 ∷ 1 ∷ 2 ∷ 2 ∷ 2 ∷ [])
    ∷ (7 ∷ 5 ∷ 7 ∷ 5 ∷ 7 ∷ [])
    ∷ (7 ∷ 5 ∷ 7 ∷ 1 ∷ 7 ∷ [])
    ∷ []

-- 0 to `n - 1`, which the loops run through.
unfoldable pub range : ℕ → List ℕ
range zero = []
range (suc n) = range n ++ n ∷ []

unfoldable pub each : {A B : Type 0} → (A → List B) → List A → List B
each f [] = []
each f (x ∷ xs) = f x ++ each f xs

-- The points that the loops over `sy` and `sx` draw from a corner on.
unfoldable pub square : ℕ → ℕ → List (ℕ × ℕ)
unfolding range each
square px py = each (λ sy. each (λ sx. (px + sx, py + sy) ∷ []) (range 4)) (range 4)

-- The points of digit `d` in place `ci`, in the order of the loops over `r` and `c`.
unfoldable pub digit_points : ℕ → ℕ → List (ℕ × ℕ)
unfolding square
digit_points ci d =
    each
      (λ r.
        each
          (λ c.
            if bit_and (get_or (get_or font d []) r 0) (4 / 2 ^ c) == 0
            then []
            else square (8 + ci * 4 * 4 + c * 4) (8 + r * 4))
          (range 3))
      (range 5)

-- The writes into Y at these points, whose place has 32 bits.
unfoldable pub draw : ℕ → List (ℕ × ℕ) → Bytes → Option Bytes
unfolding write
draw w [] buf = some buf
draw w (p ∷ ps) buf = write ((p.1 * w + p.0) % 2 ^ 32) 16 buf >>= draw w ps

-- `%02d` of `seconds % 100` gives two digits.
unfoldable pub draw_second_digits : ℕ → ℕ → Bytes → Option Bytes
unfolding draw digit_points
draw_second_digits w seconds buf =
    draw w (digit_points 0 (seconds % 100 / 10)) buf
    >>= draw w (digit_points 1 (seconds % 100 % 10))

-- The data of a frame of `w` times `h` points.
unfoldable pub picture : Moment → ℕ → ℕ → Option Bytes
unfolding luma_rows chroma_rows draw_second_digits
picture m w h =
    let ysz = w * h % 2 ^ 32 in
    let usz = ysz / 4 in
    luma_rows m w h h 0 (replicate ((ysz + usz * 2) % 2 ^ 32) 0)
    >>= chroma_rows m w ysz (ysz + usz) (h / 2) 0
    >>= draw_second_digits w m.seconds
