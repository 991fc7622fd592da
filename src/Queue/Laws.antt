-- ===== src/Queue/Laws.antt =====
-- What each operation of the queue does, against a plain first-in-first-out list.
use rtstream.Prelude.{
  ◌+◌, ◌-◌, ◌^◌, ◌≤◌, ◌<◌, ◌≡◌, ◌⊎◌, inl, inr, refl, ap, false, List, [], ◌∷◌, ◌++◌, length,
  length-append, drop, arith, dec_lt,
}
use rtstream.Stats.{bump}
use rtstream.Queue.{Queue, Pushed, Popped, put, replace_front, try_push, push, pop, close}

module _ {ℓ} {A : Type ℓ} where
  -- A queue within its capacity, which is not zero.
  pub record IsBounded (q : Queue A) : Type ℓ where
    pub room : 0 < q.capacity
    pub within : length q.items ≤ q.capacity

  -- On an open queue `try_push` always succeeds: the new item goes to the end, and where the queue
  -- is full the oldest item is dropped and counted. The bound is kept.
  pub record Appends (q : Queue A) (v : A) (r : Queue A) : Type ℓ where
    pub items : r.items ≡ drop (length q.items + 1 - q.capacity) (q.items ++ v ∷ [])
    pub count : r.drop_count ≡ bump q.drop_count (length q.items + 1 - q.capacity)
    pub bounded : IsBounded r
    pub same_capacity : r.capacity ≡ q.capacity
    pub same_mode : r.drop_old ≡ q.drop_old
    pub stays_open : r.is_closed ≡ false

  put-Appends :
      (q : Queue A) (v : A)
      → IsBounded q
      → q.is_closed ≡ false
      → q.drop_count < 2 ^ 64
      → length q.items < q.capacity
      → Appends q v (put q q.items v)
  unfolding put
  put-Appends q v b c d h =
      let none_out : length q.items + 1 - q.capacity ≡ 0 = omega arith in
      record {
        items = rw none_out refl;
        count = rw none_out (omega arith);
        bounded = record { room = b.room; within = omega (arith, length-append q.items (v ∷ [])) };
        same_capacity = refl;
        same_mode = refl;
        stays_open = c;
      }

  replace_front-Appends :
      (q : Queue A) (items : List A) (v : A)
      → q.items ≡ items
      → IsBounded q
      → q.is_closed ≡ false
      → length q.items ≡ q.capacity
      → (r : Queue A) × (replace_front q items v ≡ Pushed.pushed r) × Appends q v r
  unfolding replace_front put
  replace_front-Appends q [] v e b c h = absurd (omega (arith, ap length e, b.room))
  replace_front-Appends q (x ∷ items) v e b c h =
      let one_out : length q.items + 1 - q.capacity ≡ 1 = omega arith in
      (
        record (put q items v) { drop_count = bump q.drop_count 1 },
        refl,
        record {
          items = rw (one_out, e) refl;
          count = rw one_out refl;
          bounded = record {
            room = b.room;
            within = omega (arith, length-append items (v ∷ []), ap length e);
          };
          same_capacity = refl;
          same_mode = refl;
          stays_open = c;
        },
      )

  -- An open queue takes every item that `try_push` is given: the item goes to the end; a full
  -- queue loses its oldest item, and counts it; the queue stays within its capacity.
  pub try_push-Appends :
      (q : Queue A) (v : A)
      → IsBounded q
      → q.is_closed ≡ false
      → q.drop_count < 2 ^ 64
      → (r : Queue A) × (try_push q v ≡ Pushed.pushed r) × Appends q v r
  unfolding try_push
  try_push-Appends q v b c d = elim (dec_lt (length q.items) q.capacity) [
    | yes h ↦ (put q q.items v, ground arith, put-Appends q v b c d h)
    | no h ↦
        let full = replace_front-Appends q q.items v refl b c (omega (arith, b.within)) in
        (full.0, ground (arith, full.1), full.2)
  ]

  -- After `close` nothing is taken any more, and no operation waits: `pop` hands out what is left,
  -- oldest first, and then reports the end.
  after_close :
      (q : Queue A) (v : A)
      → (try_push (close q) v ≡ Pushed.refused)
        × (push (close q) v ≡ Pushed.refused)
        × ((q.items ≡ []) × (pop (close q) ≡ Popped.nothing)
            ⊎ ((x : A) × (rest : List A) × (q.items ≡ x ∷ rest)
                × (pop (close q) ≡ Popped.popped x (record (close q) { items = rest }))))
  unfolding try_push push pop close
  after_close q v = (refl, refl, go q.items refl)
    where
      go :
          (items : List A)
          → q.items ≡ items
          → (q.items ≡ []) × (pop (close q) ≡ Popped.nothing)
            ⊎ ((x : A) × (rest : List A) × (q.items ≡ x ∷ rest)
                × (pop (close q) ≡ Popped.popped x (record (close q) { items = rest })))
      go [] e = inl (e, ground arith)
      go (x ∷ rest) e = inr (x, rest, e, ground arith)
