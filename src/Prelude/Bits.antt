-- ===== src/Prelude/Bits.antt =====
-- Laws of `^` (XOR) on numbers of every width, and of `|` and `&` at single bits. The library
-- gives the native operations by their binary digits; the group laws of XOR come from those.
use Prim.Native.Nat.{bit_xor-bitwise, bit_or-bitwise, bit_and-bitwise, digits, bitwise, differ}
use mathlib.Core.WellFounded
use native.Mathlib.Nat.{pow-suc}
use rtstream.Prelude.{
  ℕ, zero, suc, ◌+◌, ◌*◌, ◌/◌, ◌%◌, ◌^◌, ◌≤◌, ◌<◌, min, max, bit_and, bit_or, bit_xor, Bool, true,
  ◌&&◌, ◌≡◌, refl, ap, ◌∙◌, arith,
}
use rtstream.Prelude.Order.{lt_wf}

-- One law for the three native operations, which differ in what they do with the digits of the
-- second number (`z`) once the first has run out, and with a pair of digits (`f`).
module _ (z : ℕ → ℕ) (f : ℕ → ℕ → ℕ) where
  spare_fuel : (a n b : ℕ) → a ≤ n → digits z f n a b ≡ digits z f a a b
  spare_fuel a = WellFounded.induction lt_wf {C = λ a. (n b : ℕ) → a ≤ n → Same a n b} a go
    where
      Same : ℕ → ℕ → ℕ → Type 0
      Same a n b = digits z f n a b ≡ digits z f a a b

      go :
          (a : ℕ)
          → ((c : ℕ) → c < a → (n b : ℕ) → c ≤ n → Same c n b)
          → (n b : ℕ) → a ≤ n
          → Same a n b
      go zero ih zero b h = refl
      go zero ih (suc n) b h = refl
      go (suc a) ih zero b h = absurd (omega arith)
      go (suc a) ih (suc n) b h =
          let rest = ih (suc a / 2) (omega arith) in
          omega (arith, rest n (b / 2) (omega arith), rest a (b / 2) (omega arith))

  -- The lowest digit of the result, and the rest of it.
  lowest_digit :
      ((b : ℕ) → z b ≡ z (b / 2) * 2 + f 0 (b % 2))
      → (a b : ℕ) → bitwise z f a b ≡ bitwise z f (a / 2) (b / 2) * 2 + f (a % 2) (b % 2)
  lowest_digit base zero b = base b
  lowest_digit base (suc a) b = omega (arith, spare_fuel (suc a / 2) a (b / 2) (omega arith))

-- XOR of two digits.
abbrev pub digit_xor : ℕ → ℕ → ℕ
digit_xor d e = (d + e) % 2

differ_of_digits : (d e : ℕ) → d < 2 → e < 2 → differ d e ≡ digit_xor d e
differ_of_digits zero zero p q = refl
differ_of_digits zero (suc zero) p q = refl
differ_of_digits zero (suc (suc e)) p q = absurd (omega arith)
differ_of_digits (suc zero) zero p q = refl
differ_of_digits (suc zero) (suc zero) p q = refl
differ_of_digits (suc zero) (suc (suc e)) p q = absurd (omega arith)
differ_of_digits (suc (suc d)) e p q = absurd (omega arith)

pub bit_xor_step : (a b : ℕ) → bit_xor a b ≡ bit_xor (a / 2) (b / 2) * 2 + digit_xor (a % 2) (b % 2)
bit_xor_step a b = simp bit_xor-bitwise (
    omega (
      arith,
      lowest_digit (λ y. y) differ (λ c. omega arith) a b,
      differ_of_digits (a % 2) (b % 2) (omega arith) (omega arith),
    ))

or_step : (n m : ℕ) → bit_or n m ≡ bit_or (n / 2) (m / 2) * 2 + max (n % 2) (m % 2)
or_step n m = simp bit_or-bitwise (lowest_digit (λ y. y) max (λ c. omega arith) n m)

-- An operation with such a step whose digits keep `d` beside 0 keeps every number beside 0.
right_identity :
    (op g : ℕ → ℕ → ℕ)
    → ((a : ℕ) → op a 0 ≡ op (a / 2) 0 * 2 + g (a % 2) 0)
    → op 0 0 ≡ 0
    → ((d : ℕ) → d < 2 → g d 0 ≡ d)
    → (a : ℕ) → op a 0 ≡ a
right_identity op g step base digit a = WellFounded.induction lt_wf {C = λ n. op n 0 ≡ n} a go
  where
    go : (n : ℕ) → ((m : ℕ) → m < n → op m 0 ≡ m) → op n 0 ≡ n
    go zero ih = base
    go (suc n) ih =
        omega (arith, step (suc n), digit (suc n % 2) (omega arith), ih (suc n / 2) (omega arith))

pub xor-zero : (a : ℕ) → bit_xor a 0 ≡ a
xor-zero a = right_identity bit_xor digit_xor (λ n. bit_xor_step n 0) refl (λ d h. omega arith) a

or-zero : (a : ℕ) → bit_or a 0 ≡ a
or-zero a = right_identity bit_or max (λ n. or_step n 0) refl (λ d h. omega arith) a

pub zero-xor : (a : ℕ) → bit_xor 0 a ≡ a
zero-xor a = bit_xor-bitwise 0 a

pub xor_self : (a : ℕ) → bit_xor a a ≡ 0
xor_self a = WellFounded.induction lt_wf a step
  where
    step : (b : ℕ) → ((c : ℕ) → c < b → bit_xor c c ≡ 0) → bit_xor b b ≡ 0
    step zero smaller = refl
    step (suc b) smaller =
        omega (arith, smaller (suc b / 2) (omega arith), bit_xor_step (suc b) (suc b))

pub xor_comm : (a b : ℕ) → bit_xor a b ≡ bit_xor b a
xor_comm a = WellFounded.induction lt_wf {C = λ n. (b : ℕ) → bit_xor n b ≡ bit_xor b n} a step
  where
    step :
        (n : ℕ)
        → ((m : ℕ) → m < n → (b : ℕ) → bit_xor m b ≡ bit_xor b m)
        → (b : ℕ) → bit_xor n b ≡ bit_xor b n
    step zero ih b = omega (arith, zero-xor b, xor-zero b)
    step (suc n) ih b = omega (
      arith,
      bit_xor_step (suc n) b,
      bit_xor_step b (suc n),
      ih (suc n / 2) (omega arith) (b / 2),
    )

digits_of_xor :
    (a b : ℕ)
    → (bit_xor a b / 2 ≡ bit_xor (a / 2) (b / 2)) × (bit_xor a b % 2 ≡ digit_xor (a % 2) (b % 2))
digits_of_xor a b = omega (arith, bit_xor_step a b)

pub xor_assoc : (a b c : ℕ) → bit_xor (bit_xor a b) c ≡ bit_xor a (bit_xor b c)
xor_assoc a =
    WellFounded.induction lt_wf
      {C = λ n. (b c : ℕ) → bit_xor (bit_xor n b) c ≡ bit_xor n (bit_xor b c)} a step
  where
    step :
        (n : ℕ)
        → ((m : ℕ) → m < n → (b c : ℕ) → bit_xor (bit_xor m b) c ≡ bit_xor m (bit_xor b c))
        → (b c : ℕ) → bit_xor (bit_xor n b) c ≡ bit_xor n (bit_xor b c)
    step zero ih b c = rw (zero-xor b, zero-xor (bit_xor b c))
    step (suc n) ih b c =
        let left = digits_of_xor (suc n) b in
        let right = digits_of_xor b c in
        rw (bit_xor_step (bit_xor (suc n) b) c, bit_xor_step (suc n) (bit_xor b c), left.0, right.0)
          (omega (arith, left.1, right.1, ih (suc n / 2) (omega arith) (b / 2) (c / 2)))

-- XOR of two numbers of `k` bits has `k` bits.
pub xor-lt : (k a b : ℕ) → a < 2 ^ k → b < 2 ^ k → bit_xor a b < 2 ^ k
xor-lt zero zero b p q = omega (arith, zero-xor b)
xor-lt zero (suc a) b p q = absurd (omega arith)
xor-lt (suc k) a b p q = omega (
  arith,
  bit_xor_step a b,
  pow-suc 2 k,
  xor-lt k (a / 2) (b / 2) (omega (arith, pow-suc 2 k)) (omega (arith, pow-suc 2 k)),
)

halve_shifted : (k q : ℕ) → (q * 2 ^ suc k / 2 ≡ q * 2 ^ k) × (q * 2 ^ suc k % 2 ≡ 0)
halve_shifted k q = omega (arith, ap (λ (t : ℕ). q * t) (pow-suc 2 k))

-- `(high << k) | low` is a sum when `low` has `k` bits.
pub or_shifted : (k high low : ℕ) → low < 2 ^ k → bit_or (high * 2 ^ k) low ≡ high * 2 ^ k + low
or_shifted zero high zero h = rw (or-zero (high * 1)) (omega arith)
or_shifted zero high (suc low) h = absurd (omega arith)
or_shifted (suc k) high low h =
    let lower = or_shifted k high (low / 2) (omega (arith, pow-suc 2 k)) in
    let shifted = halve_shifted k high in
    rw (or_step (high * 2 ^ suc k) low, shifted.0, lower) (omega (arith, shifted))

-- `high ^ low` is a sum when they share no bit.
pub xor_shifted : (k high low : ℕ) → low < 2 ^ k → bit_xor (high * 2 ^ k) low ≡ high * 2 ^ k + low
xor_shifted zero high zero h = rw (xor-zero (high * 1)) (omega arith)
xor_shifted zero high (suc low) h = absurd (omega arith)
xor_shifted (suc k) high low h =
    let lower = xor_shifted k high (low / 2) (omega (arith, pow-suc 2 k)) in
    let shifted = halve_shifted k high in
    rw (bit_xor_step (high * 2 ^ suc k) low, shifted.0, lower) (omega (arith, shifted))

and_step : (n m : ℕ) → bit_and n m ≡ bit_and (n / 2) (m / 2) * 2 + min (n % 2) (m % 2)
and_step n m = simp bit_and-bitwise (lowest_digit (λ y. 0) min (λ c. omega arith) n m)

and-zero : (a : ℕ) → bit_and a 0 ≡ 0
and-zero a = WellFounded.induction lt_wf {C = λ n. bit_and n 0 ≡ 0} a go
  where
    go : (n : ℕ) → ((m : ℕ) → m < n → bit_and m 0 ≡ 0) → bit_and n 0 ≡ 0
    go zero ih = refl
    go (suc n) ih = omega (arith, and_step (suc n) 0, ih (suc n / 2) (omega arith))

-- Masks of some widths.
pub and_1 : (a : ℕ) → bit_and a 1 ≡ a % 2
and_1 a = omega (arith, and_step a 1, and-zero (a / 2))

and_7 : (a : ℕ) → bit_and a 7 ≡ a % 8
and_7 a = omega (arith, and_step a 7, and_step (a / 2) 3, and_1 (a / 2 / 2))

pub and_63 : (a : ℕ) → bit_and a 63 ≡ a % 64
and_63 a =
    omega
      (arith, and_step a 63, and_step (a / 2) 31, and_step (a / 2 / 2) 15, and_7 (a / 2 / 2 / 2))

pub and_255 : (a : ℕ) → bit_and a 255 ≡ a % 256
and_255 a = omega (arith, and_step a 255, and_step (a / 2) 127, and_63 (a / 2 / 2))

pub xor-half : (a b : ℕ) → bit_xor a b / 2 ≡ bit_xor (a / 2) (b / 2)
xor-half a b = (digits_of_xor a b).0

-- A byte does not reach the bits above it.
pub xor_byte_high : (a b : ℕ) → b < 256 → bit_xor a b / 256 ≡ a / 256
xor_byte_high a b lt = omega (
  arith,
  xor-half a b,
  xor-half (a / 2) (b / 2),
  xor-half (a / 2 / 2) (b / 2 / 2),
  xor-half (a / 2 / 2 / 2) (b / 2 / 2 / 2),
  xor-half (a / 2 / 2 / 2 / 2) (b / 2 / 2 / 2 / 2),
  xor-half (a / 2 / 2 / 2 / 2 / 2) (b / 2 / 2 / 2 / 2 / 2),
  xor-half (a / 2 / 2 / 2 / 2 / 2 / 2) (b / 2 / 2 / 2 / 2 / 2 / 2),
  xor-half (a / 2 / 2 / 2 / 2 / 2 / 2 / 2) (b / 2 / 2 / 2 / 2 / 2 / 2 / 2),
  ap (bit_xor (a / 2 / 2 / 2 / 2 / 2 / 2 / 2 / 2)) high,
  xor-zero (a / 2 / 2 / 2 / 2 / 2 / 2 / 2 / 2),
)
  where
    high : b / 2 / 2 / 2 / 2 / 2 / 2 / 2 / 2 ≡ 0
    high = omega arith

pub xor-even :
    (a b : ℕ) → (bit_xor a (b * 2) / 2 ≡ bit_xor (a / 2) b) × (bit_xor a (b * 2) % 2 ≡ a % 2)
xor-even a b =
    let d = digits_of_xor a (b * 2) in
    let halved : b * 2 / 2 ≡ b = omega arith in
    (d.0 ∙ ap (bit_xor (a / 2)) halved, omega (arith, d.1))

-- A property of the numbers below `n`, tested on each.
unfoldable pub holds_below : (ℕ → Bool) → ℕ → Bool
holds_below test zero = true
holds_below test (suc n) = holds_below test n && test n

pub holds_below_sound :
    (test : ℕ → Bool) (n k : ℕ) → k < n → holds_below test n ≡ true → test k ≡ true
unfolding holds_below
holds_below_sound test zero k lt e = absurd (omega arith)
holds_below_sound test (suc n) k lt e = ground (arith, holds_below_sound test n k)
