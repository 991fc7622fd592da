-- ===== src/TestSource/Beat.antt =====
-- The beat of the test source.
use rtstream.Prelude.{
  ℕ, ◌-◌, ◌*◌, ◌==◌, ◌%◌, ◌^◌, ◌<◌, ◌≤◌, ◌≡◌, refl, true, false, Bool-cases, inl, inr, lt→ltb,
  not-ltb, ltb→lt, ltb, if◌then◌else◌, arith,
}
use native.Mathlib.Nat.{le-div_iff_mul-le, div-le_self}
use rtstream.Prelude.Int.{ℤ, pos, ◌+ℤ◌, ◌-ℤ◌, ltb_ℤ, int_laws}
use rtstream.TestSource.{beat, interval_us}

interval_us-bounds : (fps : ℕ) → fps ≤ 1000000 → (0 < interval_us fps) × (interval_us fps ≤ 1000000)
unfolding interval_us
interval_us-bounds fps le =
    let d = if fps == 0 then 30 else fps in
    let positive : 0 < d = ground arith in
    let enough : 1 * d ≤ 1000000 = ground arith in
    ((le-div_iff_mul-le {k = d} {x = 1} {y = 1000000} positive).1 enough, div-le_self 1000000 d)

ltb-not : (a b : ℕ) → ltb a b ≡ false → b ≤ a
ltb-not a b e = ground arith

-- For up to a million frames a second: a round that comes before the beat goes on from it, and any other
-- starts the beat again from the clock, however little it is late: the test for a delay of more
-- than one interval is true of every delay.
pub beat-cases :
    (fps : ℕ) (now later next : ℤ)
    → fps ≤ 1000000
    → beat (interval_us fps) now later next
      ≡ (if ltb_ℤ now next then next else later) +ℤ pos (interval_us fps)
unfolding beat
beat-cases fps now later next le = elim (Bool-cases (ltb_ℤ now next)) [
  | inl early ↦
      let wait : ltb_ℤ (pos 0) (next -ℤ now) ≡ true =
        lt→ltb _ _ (omega (int_laws, ltb→lt _ _ early)) in
      rw (early, wait) refl
  | inr late ↦
      let (some_time, short) = interval_us-bounds fps le in
      let wait : ltb_ℤ (pos 0) (next -ℤ now) ≡ false =
        not-ltb _ _ (omega (int_laws, ltb-not _ _ late)) in
      let over : ltb_ℤ (next -ℤ now) (pos ((2 ^ 32 - interval_us fps) % 2 ^ 32)) ≡ true =
        lt→ltb _ _ (omega (int_laws, ltb-not _ _ late, some_time, short)) in
      rw (late, wait, over) refl
]
