-- ===== src/TestSource/Tests.antt =====
-- Points of pictures, and beats.
use rtstream.Prelude.{◌*◌, ◌/◌, ◌^◌, ◌<◌, ◌≡◌, refl, length, if◌then◌else◌, arith}
use rtstream.Prelude.Int.{pos, ◌+ℤ◌, ◌-ℤ◌, ltb_ℤ}
use rtstream.TestSource.{
  Moment, bar_of, color, luma, even_size, interval_us, beat, picture, digit_points,
}
use rtstream.TestSource.Planes.{Draws}
use rtstream.TestSource.Shows.{Shows, picture-Shows}
use rtstream.TestSource.Beat.{beat-cases}

abbrev moment : Moment
moment = record { shift = 10; bx = 32; by = 40; seconds = 47 }

bar_of-last : bar_of 64 10 53 ≡ 7
unfolding bar_of
bar_of-last = refl

-- In the box, and beside it.
luma-box :
    (luma moment 64 64 33 41 ≡ 235)
    × (luma moment 64 64 63 41 ≡ 235)
    × (luma moment 64 64 20 41 ≡ 160)
unfolding luma color bar_of
luma-box = (refl, refl, refl)

-- A one has eight dots, each of 16 points.
digit_points-one : length (digit_points 1 1) ≡ 8 * 16
unfolding digit_points
digit_points-one = refl

-- A microsecond late at 30 frames a second.
beat-late : beat (interval_us 30) (pos 1000001) (pos 1000002) (pos 1000000) ≡ pos 1033335
unfolding beat interval_us ◌+ℤ◌ ◌-ℤ◌
beat-late = refl

beat-cases_example :
    beat (interval_us 30) (pos 1000001) (pos 1000002) (pos 1000000)
    ≡ (if ltb_ℤ (pos 1000001) (pos 1000000) then pos 1000000 else pos 1000002)
      +ℤ pos (interval_us 30)
beat-cases_example = beat-cases 30 (pos 1000001) (pos 1000002) (pos 1000000) (omega arith)

fits : even_size 100 * even_size 33 / 2 * 3 < 2 ^ 32
unfolding even_size
fits = omega arith

picture-Shows_example :
    Draws
      (even_size 100 * even_size 33 / 2 * 3)
      (Shows moment (even_size 100) (even_size 33))
      (picture moment (even_size 100) (even_size 33))
picture-Shows_example = picture-Shows moment 100 33 fits
