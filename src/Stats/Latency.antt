-- ===== src/Stats/Latency.antt =====
-- The window of latencies in src/stats/metrics.h: `add_e2e_ms` and `latency`. A latency is of any type.
use rtstream.Prelude.{
  ℕ, ◌+◌, ◌/◌, ◌%◌, ◌<◌, ◌≡◌, refl, ap, ap₂, ◌∙◌, sym, subst, ◌⊎◌, inl, inr, List, [], ◌∷◌, ◌++◌,
  append_assoc, append-nil, length, length-append, length-replicate, take, take-append, drop, set,
  set_middle, replicate, last_n, last_n-append, is_empty, ltb, if◌then◌else◌, arith,
}

-- `kLatCapacity`
abbrev pub capacity : ℕ
capacity = 1024

-- `latencies_`, `lat_head_`, `lat_count_`
pub record Window {ℓ} (A : Type ℓ) : Type ℓ where
  pub latencies : List A
  pub head : ℕ
  pub count : ℕ

pub record LatencyStats {ℓ} (A : Type ℓ) : Type ℓ where
  pub p50 : A
  pub p95 : A
  pub p99 : A
  pub max : A
  pub samples : ℕ

module _ {ℓ} {A : Type ℓ} where
  abbrev pub no_latencies : A → Window A
  no_latencies nothing = record { latencies = replicate capacity nothing; head = 0; count = 0 }

  unfoldable pub add_e2e_ms : A → Window A → Window A
  add_e2e_ms ms w = record {
    latencies = set w.latencies w.head ms;
    head = (w.head + 1) % capacity;
    count = if ltb w.count capacity then w.count + 1 else w.count;
  }

  unfoldable pub add_all : List A → Window A → Window A
  unfolding add_e2e_ms
  add_all [] w = w
  add_all (ms ∷ later) w = add_all later (add_e2e_ms ms w)

  -- What `latency` makes of the samples `v`. `nothing` is 0; `select` is what `std::nth_element` puts at a
  -- place, `largest` is `*std::max_element`; `rank95` and `rank99` are the places that the
  -- floating-point products give for a number of samples.
  unfoldable pub stats_of :
      A → (List A → ℕ → A) → (List A → A) → (ℕ → ℕ) → (ℕ → ℕ) → List A → LatencyStats A
  stats_of nothing select largest rank95 rank99 v =
      if is_empty v
      then record { p50 = nothing; p95 = nothing; p99 = nothing; max = nothing; samples = length v }
      else record {
        p50 = select v (length v / 2);
        p95 = select v (rank95 (length v));
        p99 = select v (rank99 (length v));
        max = largest v;
        samples = length v;
      }

  -- `v` is a copy of the samples in the window.
  unfoldable pub latency :
      A → (List A → ℕ → A) → (List A → A) → (ℕ → ℕ) → (ℕ → ℕ) → Window A → LatencyStats A
  unfolding stats_of
  latency nothing select largest rank95 rank99 w =
      stats_of nothing select largest rank95 rank99 (take w.count w.latencies)

  -- The window holds `log`: all of it, or the last of it in two parts, the older part behind the head.
  record Holds (w : Window A) (log : List A) : Type ℓ where
    before : List A
    behind : List A
    whole : w.latencies ≡ before ++ behind
    at : w.head ≡ length before
    size : length before + length behind ≡ capacity
    room : 0 < length behind
    kept :
        ((before ≡ log) × (w.count ≡ length before))
        ⊎ ((behind ++ before ≡ last_n capacity log) × (w.count ≡ capacity))

  no_latencies-Holds : (nothing : A) → Holds (no_latencies nothing) []
  no_latencies-Holds nothing = record {
    before = [];
    behind = replicate capacity nothing;
    whole = refl;
    at = refl;
    size = length-replicate capacity nothing;
    room = omega (arith, length-replicate capacity nothing);
    kept = inl (refl, refl);
  }

  -- A sample more, when the window is `a` before the head and `b` behind it.
  advance :
      (w : Window A) (log : List A) (ms : A) (a b : List A)
      → w.latencies ≡ a ++ b
      → w.head ≡ length a
      → length a + length b ≡ capacity
      → 0 < length b
      → ((a ≡ log) × (w.count ≡ length a)) ⊎ ((b ++ a ≡ last_n capacity log) × (w.count ≡ capacity))
      → Holds (add_e2e_ms ms w) (log ++ ms ∷ [])
  unfolding add_e2e_ms
  advance w log ms a [] whole at size room kept = absurd (omega arith)
  advance w log ms a (y ∷ []) whole at size room kept = record {
    before = [];
    behind = a ++ ms ∷ [];
    whole =
        ap (λ l. set l w.head ms) whole
        ∙ set_middle a y ms [] w.head at
        ∙ append-nil (a ++ ms ∷ []);
    at = omega arith;
    size = omega (arith, length-append a (ms ∷ []));
    room = omega (arith, length-append a (ms ∷ []));
    kept = inr (elim kept [
      | inl (e, n) ↦ (
        append-nil (a ++ ms ∷ [])
            ∙ ap (λ l. l ++ ms ∷ []) e
            ∙ sym (
                ap (λ n. drop n (log ++ ms ∷ [])) {y = 0}
                  (omega (arith, ap length e, length-append log (ms ∷ [])))),
        ground arith,
      )
      | inr (e, n) ↦ (
        append-nil (a ++ ms ∷ []) ∙ sym (last_n-append capacity log y a ms (omega arith) (sym e)),
        ground arith,
      )
    ]);
  }
  advance w log ms a (y ∷ z ∷ b) whole at size room kept = record {
    before = a ++ ms ∷ [];
    behind = z ∷ b;
    whole = ap (λ l. set l w.head ms) whole ∙ set_middle a y ms (z ∷ b) w.head at;
    at = omega (arith, length-append a (ms ∷ []));
    size = omega (arith, length-append a (ms ∷ []));
    room = omega arith;
    kept = elim kept [
      | inl (e, n) ↦ inl (ap (λ l. l ++ ms ∷ []) e, ground (arith, length-append a (ms ∷ [])))
      | inr (e, n) ↦ inr (
        sym (append_assoc (z ∷ b) a (ms ∷ []))
            ∙ sym (
                last_n-append capacity log y (z ∷ b ++ a) ms (omega (arith, length-append b a))
                  (sym e)),
        ground arith,
      )
    ];
  }

  add_all-Holds :
      (xs : List A) (w : Window A) (log : List A) → Holds w log → Holds (add_all xs w) (log ++ xs)
  unfolding add_all
  add_all-Holds [] w log h = subst (Holds w) (sym (append-nil log)) h
  add_all-Holds (ms ∷ xs) w log h =
      subst (Holds (add_all (ms ∷ xs) w)) (append_assoc log (ms ∷ []) xs) (
        add_all-Holds xs (add_e2e_ms ms w) (log ++ ms ∷ [])
          (advance w log ms h.before h.behind h.whole h.at h.size h.room h.kept))

  module _ (nothing : A) (select : List A → ℕ → A) (largest : List A → A) (rank95 rank99 : ℕ → ℕ)
      (select_cut : (a b : List A) (i : ℕ) → select (a ++ b) i ≡ select (b ++ a) i)
      (largest_cut : (a b : List A) → largest (a ++ b) ≡ largest (b ++ a)) where
    stats_of_cut :
        (a b : List A)
        → stats_of nothing select largest rank95 rank99 (a ++ b)
          ≡ stats_of nothing select largest rank95 rank99 (b ++ a)
    unfolding stats_of
    stats_of_cut [] b = ap (stats_of nothing select largest rank95 rank99) (sym (append-nil b))
    stats_of_cut (x ∷ a) [] =
        ap (λ l. stats_of nothing select largest rank95 rank99 (x ∷ l)) (append-nil a)
    stats_of_cut (x ∷ a) (y ∷ b) =
        let n : length (x ∷ a ++ y ∷ b) ≡ length (y ∷ b ++ x ∷ a) =
          omega (arith, length-append a (y ∷ b), length-append b (x ∷ a)) in
        let at : (f : ℕ → ℕ)
            → select (x ∷ a ++ y ∷ b) (f (length (x ∷ a ++ y ∷ b)))
              ≡ select (y ∷ b ++ x ∷ a) (f (length (y ∷ b ++ x ∷ a))) =
          λ f.
            select_cut (x ∷ a) (y ∷ b) (f (length (x ∷ a ++ y ∷ b)))
            ∙ ap (λ k. select (y ∷ b ++ x ∷ a) (f k)) n in
        λ i. record {
          p50 = at (λ k. k / 2) i;
          p95 = at rank95 i;
          p99 = at rank99 i;
          max = largest_cut (x ∷ a) (y ∷ b) i;
          samples = n i;
        }

    latency-Holds :
        (w : Window A) (log : List A)
        → Holds w log
        → latency nothing select largest rank95 rank99 w
          ≡ stats_of nothing select largest rank95 rank99 (last_n capacity log)
    unfolding latency
    latency-Holds w log h = elim h.kept [
      | inl (e, n) ↦ ap (stats_of nothing select largest rank95 rank99) (
          ap₂ take n h.whole
          ∙ take-append h.before h.behind
          ∙ e
          ∙ sym (ap (λ k. drop k log) {y = 0} (omega (arith, ap length e, h.size))))
      | inr (e, n) ↦
          ap (stats_of nothing select largest rank95 rank99) (
            ap₂ take (n ∙ sym h.size ∙ sym (length-append h.before h.behind)) h.whole
            ∙ ap (take (length (h.before ++ h.behind))) (sym (append-nil (h.before ++ h.behind)))
            ∙ take-append (h.before ++ h.behind) [])
          ∙ stats_of_cut h.before h.behind
          ∙ ap (stats_of nothing select largest rank95 rank99) e
    ]

    -- After any latencies `xs`, `latency` gives the statistics of the last 1024 of them, wherever the ring
    -- was cut: `std::nth_element` and `std::max_element` do not depend on where a list is cut in two.
    pub latency-add_all :
        (xs : List A)
        → latency nothing select largest rank95 rank99 (add_all xs (no_latencies nothing))
          ≡ stats_of nothing select largest rank95 rank99 (last_n capacity xs)
    latency-add_all xs =
        latency-Holds (add_all xs (no_latencies nothing)) xs
          (add_all-Holds xs (no_latencies nothing) [] (no_latencies-Holds nothing))
