-- ===== src/UdpReceiver/Clock.antt =====
-- `UdpReceiver::extend_capture_us`: the 64-bit capture time behind its lowest 32 bits.
use rtstream.Prelude.{
  ℕ, zero, suc, ◌+◌, ◌-◌, ◌*◌, ◌/◌, ◌^◌, ◌<◌, ◌≡◌, ◌⊎◌, inl, inr, refl, ◌∙◌, ap, sym, ◌≢◌, true,
  false, lt→ltb, not-ltb, ltb→lt, Bool-cases, if◌then◌else◌, arith,
}
use rtstream.Prelude.Int.{
  ℤ, pos, negsuc, ◌+ℤ◌, ◌-ℤ◌, ◌≤ℤ◌, ltb_ℤ, int_laws, pos_part, neg_part, eq_of_parts,
}
use rtstream.Wire.Bytes.{u32_of_int}

abbrev wrap : ℤ
wrap = pos 4294967296

abbrev half : ℤ
half = pos 2147483648

-- `t & ~0xFFFFFFFFLL`, on two's complement.
abbrev pub high_part : ℤ → ℤ
high_part (pos n) = pos (n / 2 ^ 32 * 2 ^ 32)
high_part (negsuc n) = negsuc (n / 2 ^ 32 * 2 ^ 32 + 2 ^ 32 - 1)

-- `while (candidate + (1LL << 31) < last) candidate += (1LL << 32);` for `n` rounds at most.
unfoldable pub raise_loop : ℕ → ℤ → ℤ → ℤ
raise_loop zero last candidate = candidate
raise_loop (suc n) last candidate =
    let rest = raise_loop n last (candidate +ℤ wrap) in
    if ltb_ℤ (candidate +ℤ half) last then rest else candidate

-- `while (candidate > last + (1LL << 31)) candidate -= (1LL << 32);` for `n` rounds at most.
unfoldable pub lower_loop : ℕ → ℤ → ℤ → ℤ
lower_loop zero last candidate = candidate
lower_loop (suc n) last candidate =
    let rest = lower_loop n last (candidate -ℤ wrap) in
    if ltb_ℤ (last +ℤ half) candidate then rest else candidate

-- The result, which is also the new `last_capture_us_`. The first packet takes the clock's high
-- bits; the later ones those of the packet before.
unfoldable pub extend_capture_us : ℤ → ℕ → ℤ → ℤ
unfolding raise_loop lower_loop
extend_capture_us (pos zero) lo now =
    let candidate = high_part now +ℤ pos lo in
    let lowered = if ltb_ℤ (now +ℤ half) candidate then candidate -ℤ wrap else candidate in
    if ltb_ℤ lowered (now -ℤ half) then lowered +ℤ wrap else lowered
extend_capture_us last lo now = lower_loop 2 last (raise_loop 2 last (high_part last +ℤ pos lo))

high_part-bounds : (t : ℤ) → (high_part t ≤ℤ t) × (t ≤ℤ (high_part t +ℤ pos 4294967295))
high_part-bounds (pos n) = (omega arith, omega (int_laws))
high_part-bounds (negsuc n) = (omega arith, omega (int_laws))

high_part-u32_of_int : (t : ℤ) → high_part t +ℤ pos (u32_of_int t) ≡ t
unfolding ◌+ℤ◌
high_part-u32_of_int (pos n) = omega int_laws
high_part-u32_of_int (negsuc n) = ground arith

-- Times less than 2^31 us apart have the same high part, or neighbouring ones.
high_part-near :
    (a b : ℤ)
    → b ≤ℤ (a +ℤ half)
    → a ≤ℤ (b +ℤ half)
    → (high_part a ≡ high_part b)
      ⊎ ((high_part a ≡ high_part b +ℤ wrap) ⊎ (high_part a +ℤ wrap ≡ high_part b))
unfolding ◌+ℤ◌
high_part-near (pos a) (pos b) h k = ground arith
high_part-near (pos a) (negsuc b) h k = ground arith
high_part-near (negsuc a) (pos b) h k = ground arith
high_part-near (negsuc a) (negsuc b) h k = ground arith

raise_still : (n : ℕ) (last c : ℤ) → last ≤ℤ (c +ℤ half) → raise_loop n last c ≡ c
unfolding raise_loop
raise_still zero last c h = refl
raise_still (suc n) last c h = ground (arith, h)

lower_still : (n : ℕ) (last c : ℤ) → c ≤ℤ (last +ℤ half) → lower_loop n last c ≡ c
unfolding lower_loop
lower_still zero last c h = refl
lower_still (suc n) last c h = ground (arith, h)

raise_once :
    (last c : ℤ)
    → ltb_ℤ (c +ℤ half) last ≡ true
    → last ≤ℤ (c +ℤ wrap +ℤ half)
    → raise_loop 2 last c ≡ c +ℤ wrap
unfolding raise_loop
raise_once last c h k = rw h (raise_still 1 last (c +ℤ wrap) k)

lower_once :
    (last c : ℤ)
    → ltb_ℤ (last +ℤ half) c ≡ true
    → (c -ℤ wrap) ≤ℤ (last +ℤ half)
    → lower_loop 2 last c ≡ c -ℤ wrap
unfolding lower_loop
lower_once last c h k = rw h (lower_still 1 last (c -ℤ wrap) k)

-- Both loops, from the candidate that is `t`, or a wrap-around off.
loops-settle :
    (last t c : ℤ)
    → t ≤ℤ (last +ℤ half)
    → last ≤ℤ (t +ℤ half)
    → (t +ℤ pos 1) ≤ℤ (last +ℤ half)
    → (last +ℤ pos 1) ≤ℤ (t +ℤ half)
    → (c ≡ t) ⊎ ((c ≡ t +ℤ wrap) ⊎ (c +ℤ wrap ≡ t))
    → lower_loop 2 last (raise_loop 2 last c) ≡ t
loops-settle last t c h k h' k' (inl e) = rw (e, raise_still 2 last t k) (lower_still 2 last t h)
loops-settle last t c h k h' k' (inr (inl e)) =
    rw (e, raise_still 2 last (t +ℤ wrap) (omega int_laws))
      (lower_once last (t +ℤ wrap) (lt→ltb _ _ (omega int_laws)) (omega int_laws)
        ∙ eq_of_parts _ _ (omega int_laws))
loops-settle last t c h k h' k' (inr (inr e)) = raised ∙ lower_still 2 last t h
  where
    raised : lower_loop 2 last (raise_loop 2 last c) ≡ lower_loop 2 last t
    raised = ap (lower_loop 2 last) (
        raise_once last c (lt→ltb _ _ (omega (int_laws, ap pos_part e, ap neg_part e)))
          (omega (int_laws, ap pos_part e, ap neg_part e))
        ∙ e)

-- Two times that are less than 2^31 us apart.
abbrev pub IsNear : ℤ → ℤ → Type 0
IsNear a b = ((a +ℤ pos 1) ≤ℤ (b +ℤ half)) × ((b +ℤ pos 1) ≤ℤ (a +ℤ half))

candidate-cases :
    (t base : ℤ)
    → IsNear t base
    → (high_part base +ℤ pos (u32_of_int t) ≡ t)
      ⊎ ((high_part base +ℤ pos (u32_of_int t) ≡ t +ℤ wrap)
          ⊎ (high_part base +ℤ pos (u32_of_int t) +ℤ wrap ≡ t))
candidate-cases t base near =
    let back = high_part-u32_of_int t in
    elim (high_part-near base t (omega int_laws) (omega int_laws)) [
      | inl same ↦ inl (ap (λ h. h +ℤ pos (u32_of_int t)) same ∙ back)
      | inr (inl above) ↦ inr (
          inl (
            ap (λ h. h +ℤ pos (u32_of_int t)) above
            ∙ eq_of_parts _ _ (omega (int_laws, ap pos_part back, ap neg_part back))))
      | inr (inr below) ↦ inr (
          inr (
            eq_of_parts _ (high_part t +ℤ pos (u32_of_int t))
              (omega (int_laws, ap pos_part below, ap neg_part below))
            ∙ back))
    ]

first_settles :
    (now t c : ℤ)
    → IsNear t now
    → (c ≡ t) ⊎ ((c ≡ t +ℤ wrap) ⊎ (c +ℤ wrap ≡ t))
    → (let lowered = if ltb_ℤ (now +ℤ half) c then c -ℤ wrap else c in
        if ltb_ℤ lowered (now -ℤ half) then lowered +ℤ wrap else lowered)
      ≡ t
first_settles now t c near (inl e) =
    let a : ltb_ℤ (now +ℤ half) c ≡ false =
      not-ltb _ _ (omega (int_laws, ap pos_part e, ap neg_part e)) in
    let b : ltb_ℤ c (now -ℤ half) ≡ false =
      not-ltb _ _ (omega (int_laws, ap pos_part e, ap neg_part e)) in
    rw (a, b) e
first_settles now t c near (inr (inl e)) =
    let a : ltb_ℤ (now +ℤ half) c ≡ true =
      lt→ltb _ _ (omega (int_laws, ap pos_part e, ap neg_part e)) in
    let b : ltb_ℤ (c -ℤ wrap) (now -ℤ half) ≡ false =
      not-ltb _ _ (omega (int_laws, ap pos_part e, ap neg_part e)) in
    rw (a, b) (eq_of_parts _ _ (omega (int_laws, ap pos_part e, ap neg_part e)))
first_settles now t c near (inr (inr e)) =
    let a : ltb_ℤ (now +ℤ half) c ≡ false =
      not-ltb _ _ (omega (int_laws, ap pos_part e, ap neg_part e)) in
    let b : ltb_ℤ c (now -ℤ half) ≡ true =
      lt→ltb _ _ (omega (int_laws, ap pos_part e, ap neg_part e)) in
    rw (a, b) e

-- The capture time comes back whole from its lowest 32 bits, when it is less than 2^31 us from the
-- clock, for the first packet, or else from the capture time before, which is not 0 then.
pub extend_capture_us-u32_of_int :
    (last t now : ℤ)
    → (last ≡ pos 0 → IsNear t now)
    → (last ≢ pos 0 → IsNear t last)
    → extend_capture_us last (u32_of_int t) now ≡ t
unfolding extend_capture_us
extend_capture_us-u32_of_int (pos zero) t now first later =
    first_settles now t _ (first refl) (candidate-cases t now (first refl))
extend_capture_us-u32_of_int (pos (suc n)) t now first later =
    let near = later (λ e. absurd (omega (arith, ap pos_part e))) in
    loops-settle (pos (suc n)) t _ (omega (int_laws, near)) (omega (int_laws, near)) near.0 near.1
      (candidate-cases t (pos (suc n)) near)
extend_capture_us-u32_of_int (negsuc n) t now first later =
    let near = later (λ e. absurd (omega (arith, ap neg_part e))) in
    loops-settle (negsuc n) t _ (omega (int_laws, near)) (omega (int_laws, near)) near.0 near.1
      (candidate-cases t (negsuc n) near)

raise_loop-suc :
    (n : ℕ) (last c : ℤ)
    → last ≤ℤ (c +ℤ wrap +ℤ half)
    → raise_loop (suc n) last c ≡ (if ltb_ℤ (c +ℤ half) last then c +ℤ wrap else c)
unfolding raise_loop
raise_loop-suc n last c h = rw (raise_still n last (c +ℤ wrap) h) refl

lower_loop-suc :
    (n : ℕ) (last c : ℤ)
    → (c -ℤ wrap) ≤ℤ (last +ℤ half)
    → lower_loop (suc n) last c ≡ (if ltb_ℤ (last +ℤ half) c then c -ℤ wrap else c)
unfolding lower_loop
lower_loop-suc n last c h = rw (lower_still n last (c -ℤ wrap) h) refl

raised-near :
    (last c : ℤ)
    → c ≤ℤ (last +ℤ wrap)
    → ((if ltb_ℤ (c +ℤ half) last then c +ℤ wrap else c) -ℤ wrap) ≤ℤ (last +ℤ half)
raised-near last c h = elim (Bool-cases (ltb_ℤ (c +ℤ half) last)) [
  | inl low ↦ let less = ltb→lt _ _ low in rw low (omega (int_laws, less))
  | inr high ↦ rw high (omega int_laws)
]

-- From the candidate that the code starts with, each of the two loops stops after one round at
-- most: more rounds than the two that `extend_capture_us` allows change nothing. The low part
-- has 32 bits.
extend_loops_stop :
    (m n lo : ℕ) (last : ℤ)
    → lo < 2 ^ 32
    → (raise_loop (suc n) last (high_part last +ℤ pos lo)
        ≡ raise_loop 2 last (high_part last +ℤ pos lo))
      × (lower_loop (suc m) last (raise_loop 2 last (high_part last +ℤ pos lo))
          ≡ lower_loop 2 last (raise_loop 2 last (high_part last +ℤ pos lo)))
extend_loops_stop m n lo last h =
    let bounds = high_part-bounds last in
    let c = high_part last +ℤ pos lo in
    let above : last ≤ℤ (c +ℤ wrap +ℤ half) = omega (int_laws, bounds) in
    let below : c ≤ℤ (last +ℤ wrap) = omega (int_laws, bounds) in
    (
      raise_loop-suc n last c above ∙ sym (raise_loop-suc 1 last c above),
      rw (raise_loop-suc 1 last c above) (
          lower_loop-suc m last _ (raised-near last c below)
          ∙ sym (lower_loop-suc 1 last _ (raised-near last c below))),
    )
