-- ===== src/Common/Base.antt =====
-- src/common/sha1.h: `base64_encode`.
use rtstream.Prelude.{
  ℕ, zero, suc, ◌+◌, ◌-◌, ◌*◌, ◌/◌, ◌%◌, ◌^◌, ◌<◌, ◌≡◌, refl, ap, ap₂, ◌∙◌, sym, Bool, true, false,
  ◌&&◌, not, List, [], ◌∷◌, ◌++◌, bit_and, bit_or, get_or, leb, ◌==◌, if◌then◌else◌, arith,
}
use rtstream.Prelude.Bits.{or_shifted, holds_below, holds_below_sound, and_63}
use rtstream.Wire.Bytes.{Bytes}
use rtstream.Common.Crc.{AreBytes}

-- The digits `A` to `Z`, `a` to `z`, `0` to `9`, `+` and `/`.
unfoldable pub run_of : ℕ → ℕ → List ℕ
run_of zero c = []
run_of (suc n) c = c ∷ run_of n (c + 1)

unfoldable pub digits64 : List ℕ
unfolding run_of
digits64 = run_of 26 65 ++ (run_of 26 97 ++ (run_of 10 48 ++ (43 ∷ 47 ∷ [])))

unfoldable pub digit : ℕ → ℕ
unfolding digits64
digit v = get_or digits64 (bit_and v 63) 0

abbrev pub padding : ℕ
padding = 61

-- The bytes of a round of the loop in one number.
abbrev pub packed : ℕ → ℕ → ℕ → ℕ
packed a b c = bit_or (bit_or (a * 2 ^ 16) (b * 2 ^ 8)) c

-- A round takes three bytes, the last one what is left.
unfoldable pub base64_encode : Bytes → Bytes
unfolding digit
base64_encode [] = []
base64_encode (a ∷ []) =
    let v = a * 2 ^ 16 in digit (v / 2 ^ 18) ∷ digit (v / 2 ^ 12) ∷ padding ∷ padding ∷ []
base64_encode (a ∷ b ∷ []) =
    let v = bit_or (a * 2 ^ 16) (b * 2 ^ 8) in
    digit (v / 2 ^ 18) ∷ digit (v / 2 ^ 12) ∷ digit (v / 2 ^ 6) ∷ padding ∷ []
base64_encode (a ∷ b ∷ c ∷ rest) =
    let v = packed a b c in
    digit (v / 2 ^ 18) ∷ digit (v / 2 ^ 12) ∷ digit (v / 2 ^ 6) ∷ digit v ∷ base64_encode rest

-- The alphabet of RFC 4648, table 1: what a digit stands for, by its code.
unfoldable pub value : ℕ → ℕ
value c =
    if leb 65 c && leb c 90
    then c - 65
    else if leb 97 c && leb c 122
    then c - 97 + 26
    else if leb 48 c && leb c 57
    then c - 48 + 52
    else if c == 43
    then 62
    else if c == 47
    then 63
    else 64

-- RFC 4648 read backwards: four digits are three bytes, and `=` stands for missing ones.
unfoldable pub decode : Bytes → Bytes
unfolding value
decode (p ∷ q ∷ r ∷ s ∷ rest) =
    let v = value p * 2 ^ 18 + value q * 2 ^ 12 in
    let w = v + value r * 2 ^ 6 in
    let more = decode rest in
    if r == 61
    then (v / 2 ^ 16) ∷ []
    else if s == 61
    then (w / 2 ^ 16) ∷ (w / 2 ^ 8 % 2 ^ 8) ∷ []
    else ((w + value s) / 2 ^ 16) ∷ ((w + value s) / 2 ^ 8 % 2 ^ 8) ∷ ((w + value s) % 2 ^ 8) ∷ more
decode _ = []

digit_ok : ℕ → Bool
digit_ok n = value (get_or digits64 n 0) == n && not (get_or digits64 n 0 == padding)

digits_ok : holds_below digit_ok 64 ≡ true
unfolding holds_below digit_ok value digits64
digits_ok = refl

two_tests : (c n : ℕ) (b : Bool) → (c == n && not b) ≡ true → (c ≡ n) × (b ≡ false)
two_tests c n b e = ground arith

-- A digit is read back, and is no padding.
digit-value : (v : ℕ) → (value (digit v) ≡ v % 64) × ((digit v == padding) ≡ false)
unfolding digit digit_ok
digit-value v =
    rw (and_63 v)
      (two_tests _ (v % 64) _ (holds_below_sound digit_ok 64 (v % 64) (omega arith) digits_ok))

packed-two : (a b : ℕ) → b < 2 ^ 8 → bit_or (a * 2 ^ 16) (b * 2 ^ 8) ≡ a * 2 ^ 16 + b * 2 ^ 8
packed-two a b lt = or_shifted 16 a (b * 2 ^ 8) (omega arith)

packed-three : (a b c : ℕ) → b < 2 ^ 8 → c < 2 ^ 8 → packed a b c ≡ a * 2 ^ 16 + b * 2 ^ 8 + c
packed-three a b c lt lt' =
    let high : a * 2 ^ 16 + b * 2 ^ 8 ≡ (a * 2 ^ 8 + b) * 2 ^ 8 = omega arith in
    ap (λ v. bit_or v c) (packed-two a b lt ∙ high)
    ∙ or_shifted 8 (a * 2 ^ 8 + b) c lt'
    ∙ ap (λ v. v + c) (sym high)

-- Base64 read backwards gives the bytes again.
pub decode-base64_encode : (bytes : Bytes) → AreBytes bytes → decode (base64_encode bytes) ≡ bytes
unfolding decode base64_encode
decode-base64_encode [] h = refl
decode-base64_encode (a ∷ []) h =
    let p = digit-value (a * 2 ^ 16 / 2 ^ 18) in
    let q = digit-value (a * 2 ^ 16 / 2 ^ 12) in ap (λ n. n ∷ []) (omega (arith, p.0, q.0, h.0))
decode-base64_encode (a ∷ b ∷ []) h =
    let v = a * 2 ^ 16 + b * 2 ^ 8 in
    let p = digit-value (v / 2 ^ 18) in
    let q = digit-value (v / 2 ^ 12) in
    let r = digit-value (v / 2 ^ 6) in
    rw (packed-two a b h.1.0, r.1)
      (ap₂ (λ m n. m ∷ n ∷ []) (omega (arith, p.0, q.0, r.0, h)) (omega (arith, p.0, q.0, r.0, h)))
decode-base64_encode (a ∷ b ∷ c ∷ rest) h =
    let v = a * 2 ^ 16 + b * 2 ^ 8 + c in
    let p = digit-value (v / 2 ^ 18) in
    let q = digit-value (v / 2 ^ 12) in
    let r = digit-value (v / 2 ^ 6) in
    let s = digit-value v in
    rw (packed-three a b c h.1.0 h.1.1.0, r.1, s.1)
      (ap₂ (λ m xs. m ∷ xs) (omega (arith, p.0, q.0, r.0, s.0, h))
        (ap₂ (λ n xs. n ∷ xs) (omega (arith, p.0, q.0, r.0, s.0, h))
          (ap₂ (λ o xs. o ∷ xs) (omega (arith, p.0, q.0, r.0, s.0, h))
            (decode-base64_encode rest h.1.1.1))))
