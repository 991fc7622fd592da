-- ===== src/UdpServer/Fragments.antt =====
-- How a frame is cut into fragments, and that nothing of it is lost.
use rtstream.Prelude.{
  ℕ, zero, suc, ◌+◌, ◌-◌, ◌*◌, ◌/◌, ◌≤◌, ◌<◌, ◌≡◌, refl, ap, ap₂, ◌∙◌, sym, min, List, [], ◌∷◌,
  ◌++◌, take, drop, length, length-take, length-drop, take-append-drop, drop-drop, ◌==◌,
  if◌then◌else◌, arith,
}
use native.Mathlib.Nat.{div-add-mod', mod-lt, zero-add}
use rtstream.Wire.Bytes.{Bytes}
use rtstream.UdpServer.{fragment_count, fragment_loop, fragments}

-- The payloads of the datagrams, one after the other.
unfoldable pub glue : List Bytes → Bytes
glue [] = []
glue (d ∷ ds) = d ++ glue ds

take-min : (n : ℕ) (xs : Bytes) → take (min n (length xs)) xs ≡ take n xs
take-min zero xs = ap (λ k. take k xs) {x = min 0 (length xs)} {y = 0} (omega arith)
take-min (suc n) [] = ap (λ k. take k []) {x = min (suc n) 0} {y = 0} (omega arith)
take-min (suc n) (x ∷ xs) =
    ap (λ k. take k (x ∷ xs)) {x = min (suc n) (suc (length xs))} {y = suc (min n (length xs))}
      (omega arith)
    ∙ ap (λ zs. x ∷ zs) (take-min n xs)

drop_all : (n : ℕ) (xs : Bytes) → length xs ≤ n → drop n xs ≡ []
drop_all zero [] h = refl
drop_all zero (x ∷ xs) h = absurd (omega arith)
drop_all (suc n) [] h = refl
drop_all (suc n) (x ∷ xs) h = drop_all n xs (omega arith)

-- The fragment at number `i` is what `take` gives of the rest.
piece :
    (i size : ℕ) (frame : Bytes)
    → take (min size (length frame - i * size)) (drop (i * size) frame)
      ≡ take size (drop (i * size) frame)
piece i size frame =
    ap (λ k. take (min size k) (drop (i * size) frame)) (sym (length-drop (i * size) frame))
    ∙ take-min size (drop (i * size) frame)

glue-fragment_loop :
    (n i size : ℕ) (frame : Bytes)
    → length frame ≤ (i + n) * size
    → glue (fragment_loop n i size frame) ≡ drop (i * size) frame
unfolding glue fragment_loop
glue-fragment_loop zero i size frame h = sym (
    drop_all (i * size) frame (omega (arith, ap (λ k. k * size) {x = i + 0} {y = i} (omega arith))))
glue-fragment_loop (suc n) i size frame h =
    ap₂ ◌++◌ (piece i size frame) (
      glue-fragment_loop n (i + 1) size frame
        (omega (arith, ap (λ k. k * size) {x = i + suc n} {y = i + 1 + n} (omega arith)))
      ∙ ap (λ k. drop k frame) {x = (i + 1) * size} {y = i * size + size} (omega arith)
      ∙ sym (drop-drop size (i * size) frame))
    ∙ take-append-drop size (drop (i * size) frame)

abbrev pub AllFit : ℕ → List Bytes → Type 0
AllFit size [] = Unit {0}
AllFit size (d ∷ ds) = (0 < length d) × (length d ≤ size) × AllFit size ds

length_of_piece :
    (off size : ℕ) (frame : Bytes)
    → length (take (min size (length frame - off)) (drop off frame)) ≡ min size (length frame - off)
length_of_piece off size frame =
    omega
      (arith, length-take (min size (length frame - off)) (drop off frame), length-drop off frame)

fragment_loop-AllFit :
    (n i size : ℕ) (frame : Bytes)
    → 0 < size
    → (i + n) * size < length frame + size
    → AllFit size (fragment_loop n i size frame)
unfolding fragment_loop
fragment_loop-AllFit zero i size frame p h = tt
fragment_loop-AllFit (suc n) i size frame p h =
    let shift : (i + suc n) * size ≡ i * size + n * size + size = omega arith in
    (
      omega (arith, length_of_piece (i * size) size frame),
      omega (arith, length_of_piece (i * size) size frame),
      fragment_loop-AllFit n (i + 1) size frame p
          (omega (arith, ap (λ k. k * size) {x = i + suc n} {y = i + 1 + n} (omega arith))),
    )

length-fragment_loop : (n i size : ℕ) (frame : Bytes) → length (fragment_loop n i size frame) ≡ n
unfolding fragment_loop
length-fragment_loop zero i size frame = refl
length-fragment_loop (suc n) i size frame = ap suc (length-fragment_loop n (i + 1) size frame)

-- The quotient of the division that rounds up.
quotient_bounds :
    (l size q : ℕ)
    → 0 < size
    → q ≡ (l + size - 1) / size
    → (l ≤ q * size) × (q * size < l + size) × (0 < l → 0 < q)
quotient_bounds l size q p e =
    let whole = div-add-mod' (l + size - 1) size in
    let small = mod-lt (l + size - 1) p in
    let same : (l + size - 1) / size * size ≡ q * size = ap (λ k. k * size) (sym e) in
    let low : l ≤ q * size = omega arith in (low, omega arith, positive q low)
  where
    positive : (q : ℕ) → l ≤ q * size → 0 < l → 0 < q
    positive zero low h = omega arith
    positive (suc q) low h = omega arith

count_bounds :
    (size : ℕ) (frame : Bytes)
    → 0 < size
    → (length frame ≤ fragment_count size frame * size)
      × (0 < length frame → fragment_count size frame * size < length frame + size)
unfolding fragment_count
count_bounds size frame p =
    by_quotient ((length frame + size - 1) / size) (quotient_bounds (length frame) size _ p refl)
  where
    by_quotient :
        (q : ℕ)
        → (length frame ≤ q * size) × (q * size < length frame + size) × (0 < length frame → 0 < q)
        → (length frame ≤ (if q == 0 then 1 else q) * size)
          × (0 < length frame → (if q == 0 then 1 else q) * size < length frame + size)
    by_quotient zero b = (omega (arith, b.0), λ h. absurd (omega (arith, b.2 h)))
    by_quotient (suc q) b =
        let same : (if suc q == 0 then 1 else suc q) ≡ suc q = ground arith in
        rw same (b.0, λ h. b.1)

-- The fragments of a frame, one after the other, are the frame, and there are as many of them as
-- the server counts; a frame that is not empty has no empty fragment and none that is longer than
-- the payload size. The payload size is not 0.
pub fragments-Whole :
    (size : ℕ) (frame : Bytes)
    → 0 < size
    → (glue (fragments size frame) ≡ frame)
      × (length (fragments size frame) ≡ fragment_count size frame)
      × (0 < length frame → AllFit size (fragments size frame))
unfolding fragments
fragments-Whole size frame p =
    let n = fragment_count size frame in
    let bounds = count_bounds size frame p in
    (
      glue-fragment_loop n 0 size frame (rw (zero-add n) bounds.0)
          ∙ ap (λ k. drop k frame) {x = 0 * size} {y = 0} (omega arith),
      length-fragment_loop n 0 size frame,
      λ h. fragment_loop-AllFit n 0 size frame p (rw (zero-add n) (bounds.1 h)),
    )
