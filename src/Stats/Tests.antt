-- ===== src/Stats/Tests.antt =====
-- The statistics of a few latencies, with an insertion sort for `std::nth_element`.
use rtstream.Prelude.{
  ℕ, ◌-◌, ◌*◌, ◌/◌, ◌≡◌, refl, ap, ap₂, ◌∙◌, sym, List, [], ◌∷◌, ◌++◌, append-nil, length,
  length-append, get_or, last_n, leb, if◌then◌else◌, arith,
}
use rtstream.Stats.Latency.{capacity, no_latencies, add_all, stats_of, latency, latency-add_all}

insert_sorted : ℕ → List ℕ → List ℕ
insert_sorted x [] = x ∷ []
insert_sorted x (y ∷ ys) = let rest = insert_sorted x ys in if leb x y then x ∷ y ∷ ys else y ∷ rest

sort : List ℕ → List ℕ
unfolding insert_sorted
sort [] = []
sort (x ∷ xs) = insert_sorted x (sort xs)

insert_sorted_comm :
    (x y : ℕ) (l : List ℕ)
    → insert_sorted x (insert_sorted y l) ≡ insert_sorted y (insert_sorted x l)
unfolding insert_sorted
insert_sorted_comm x y [] = ground arith
insert_sorted_comm x y (z ∷ l) = ground (arith, insert_sorted_comm x y l)

sort-insert :
    (a : List ℕ) (x : ℕ) (b : List ℕ) → sort (a ++ x ∷ b) ≡ insert_sorted x (sort (a ++ b))
unfolding sort
sort-insert [] x b = refl
sort-insert (y ∷ a) x b =
    ap (insert_sorted y) (sort-insert a x b) ∙ insert_sorted_comm y x (sort (a ++ b))

sort_cut : (a b : List ℕ) → sort (a ++ b) ≡ sort (b ++ a)
unfolding sort
sort_cut [] b = ap sort (sym (append-nil b))
sort_cut (x ∷ a) b = ap (insert_sorted x) (sort_cut a b) ∙ sym (sort-insert b x a)

nth : List ℕ → ℕ → ℕ
nth v i = get_or (sort v) i 0

greatest : List ℕ → ℕ
greatest v = get_or (sort v) (length v - 1) 0

rank : ℕ → ℕ → ℕ
rank percent n = percent * (n - 1) / 100

-- With two samples, the 95 % place is the first, and the 50 % place the second.
latency-two :
    latency 0 nth greatest (rank 95) (rank 99) (add_all (20 ∷ 10 ∷ []) (no_latencies 0))
    ≡ record { p50 = 20; p95 = 10; p99 = 10; max = 20; samples = 2 }
unfolding latency add_all nth greatest rank sort insert_sorted
latency-two = refl

nth_cut : (a b : List ℕ) (i : ℕ) → nth (a ++ b) i ≡ nth (b ++ a) i
unfolding nth
nth_cut a b i = ap (λ v. get_or v i 0) (sort_cut a b)

greatest_cut : (a b : List ℕ) → greatest (a ++ b) ≡ greatest (b ++ a)
unfolding greatest
greatest_cut a b =
    ap₂ (λ v n. get_or v (n - 1) 0) (sort_cut a b)
      (omega (arith, length-append a b, length-append b a))

latency-add_all_example :
    latency 0 nth greatest (rank 95) (rank 99) (add_all (20 ∷ 10 ∷ []) (no_latencies 0))
    ≡ stats_of 0 nth greatest (rank 95) (rank 99) (last_n capacity (20 ∷ 10 ∷ []))
latency-add_all_example =
    latency-add_all 0 nth greatest (rank 95) (rank 99) nth_cut greatest_cut (20 ∷ 10 ∷ [])
