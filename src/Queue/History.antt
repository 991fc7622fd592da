-- ===== src/Queue/History.antt =====
-- A whole run of a queue: any sequence of operations, by any threads.
use mathlib.Core.List.{Sublist, sublist-append_right}
use mathlib.Core.List.Sublist
use rtstream.Prelude.{
  ◌+◌, ◌%◌, ◌^◌, ◌≡◌, refl, ap, List, [], ◌∷◌, ◌++◌, length, length-append, append_assoc,
  append-nil, arith, ◌⊎◌, inl, inr,
}
use rtstream.Queue.{
  Queue, Pushed, Popped, put, replace_front, try_push, push, take_front, pop, pop_for, close,
}

pub data Op {ℓ} (A : Type ℓ) : Type ℓ where
  pushes tries : A → Op A
  pops pops_for closes : Op A

-- What an operation took in, what it handed out, and the queue after it.
pub record Effect {ℓ} (A : Type ℓ) : Type ℓ where
  pub taken : List A
  pub handed : List A
  pub after : Queue A

module _ {ℓ} {A : Type ℓ} where
  after_push : Queue A → A → Pushed A → Effect A
  after_push q v (Pushed.pushed r) = record { taken = v ∷ []; handed = []; after = r }
  after_push q v _ = record { taken = []; handed = []; after = q }

  after_pop : Queue A → Popped A → Effect A
  after_pop q (Popped.popped x r) = record { taken = []; handed = x ∷ []; after = r }
  after_pop q _ = record { taken = []; handed = []; after = q }

  pub step : Queue A → Op A → Effect A
  unfolding after_push after_pop
  step q (Op.pushes v) = after_push q v (push q v)
  step q (Op.tries v) = after_push q v (try_push q v)
  step q Op.pops = after_pop q (pop q)
  step q Op.pops_for = after_pop q (pop_for q)
  step q Op.closes = record { taken = []; handed = []; after = close q }

  unfoldable pub run : Queue A → List (Op A) → Effect A
  unfolding step
  run q [] = record { taken = []; handed = []; after = q }
  run q (o ∷ ops) =
      let one = step q o in
      let rest = run one.after ops in
      record {
        taken = one.taken ++ rest.taken;
        handed = one.handed ++ rest.handed;
        after = rest.after;
      }

  -- Nothing is made up or reordered, and whatever is lost is counted.
  pub record Keeps (q : Queue A) (e : Effect A) : Type ℓ where
    pub order : Sublist (e.handed ++ e.after.items) (q.items ++ e.taken)
    pub count :
        (length e.handed + length e.after.items + e.after.drop_count) % 2 ^ 64
        ≡ (length q.items + length e.taken + q.drop_count) % 2 ^ 64

  idle-Keeps : (q : Queue A) → Keeps q (record { taken = []; handed = []; after = q })
  idle-Keeps q = record { order = rw append-nil (Sublist.refl q.items); count = omega arith }

  replace_front-Keeps :
      (q : Queue A) (items : List A) (v : A)
      → q.items ≡ items
      → Keeps q (after_push q v (replace_front q items v))
  unfolding replace_front put after_push
  replace_front-Keeps q [] v e = idle-Keeps q
  replace_front-Keeps q (x ∷ items) v e = record {
    order = rw e (sublist-append_right (x ∷ []) (items ++ v ∷ []));
    count = omega (arith, ap length e, length-append items (v ∷ []));
  }

  try_push_cases :
      (q : Queue A) (v : A)
      → (try_push q v ≡ Pushed.refused)
        ⊎ (try_push q v ≡ replace_front q q.items v)
        ⊎ (try_push q v ≡ Pushed.pushed (put q q.items v))
  unfolding try_push
  try_push_cases q v = ground arith

  try_push-Keeps : (q : Queue A) (v : A) → Keeps q (after_push q v (try_push q v))
  try_push-Keeps q v = elim (try_push_cases q v) [
    | inl closed ↦ rw closed (unfold after_push in idle-Keeps q)
    | inr (inl full) ↦ rw full (replace_front-Keeps q q.items v refl)
    | inr (inr room) ↦ rw room (
        unfold after_push put in
        record {
          order = Sublist.refl (q.items ++ v ∷ []);
          count = omega (arith, length-append q.items (v ∷ []));
        })
  ]

  take_front-Keeps :
      (q : Queue A) (items : List A) → q.items ≡ items → Keeps q (after_pop q (take_front q items))
  unfolding take_front after_pop
  take_front-Keeps q [] e = idle-Keeps q
  take_front-Keeps q (x ∷ items) e = record {
    order = rw (append-nil q.items, e) (Sublist.refl (x ∷ items));
    count = omega (arith, ap length e);
  }

  pop_cases : (q : Queue A) → (pop q ≡ take_front q q.items) ⊎ (pop q ≡ Popped.waits)
  unfolding pop
  pop_cases q = ground arith

  pop_for_cases : (q : Queue A) → (pop_for q ≡ take_front q q.items) ⊎ (pop_for q ≡ Popped.nothing)
  unfolding pop_for
  pop_for_cases q = ground arith

  push_cases : (q : Queue A) (v : A) → (push q v ≡ try_push q v) ⊎ (push q v ≡ Pushed.waits)
  unfolding push
  push_cases q v = ground arith

  pub step-Keeps : (q : Queue A) (o : Op A) → Keeps q (step q o)
  unfolding step
  step-Keeps q (Op.pushes v) = elim (push_cases q v) [
    | inl go ↦ rw go (try_push-Keeps q v)
    | inr stuck ↦ rw stuck (unfold after_push in idle-Keeps q)
  ]
  step-Keeps q (Op.tries v) = try_push-Keeps q v
  step-Keeps q Op.pops = elim (pop_cases q) [
    | inl go ↦ rw go (take_front-Keeps q q.items refl)
    | inr stuck ↦ rw stuck (unfold after_pop in idle-Keeps q)
  ]
  step-Keeps q Op.pops_for = elim (pop_for_cases q) [
    | inl go ↦ rw go (take_front-Keeps q q.items refl)
    | inr late ↦ rw late (unfold after_pop in idle-Keeps q)
  ]
  step-Keeps q Op.closes =
      unfold close in record { order = rw append-nil (Sublist.refl q.items); count = omega arith }

  -- Over any sequence of operations, by any threads, what the queue hands out and what it still
  -- holds is a subsequence, in order, of what it held and took in; and every item taken in
  -- is handed out, still held, or counted as dropped (the counter being 64 bits wide).
  pub run-Keeps : (q : Queue A) (ops : List (Op A)) → Keeps q (run q ops)
  unfolding run
  run-Keeps q [] = idle-Keeps q
  run-Keeps q (o ∷ ops) =
      let one = step q o in
      let rest = run one.after ops in
      let now = step-Keeps q o in
      let later = run-Keeps one.after ops in
      record {
        order =
            rw
              (
                append_assoc one.handed rest.handed rest.after.items,
                ← append_assoc q.items one.taken rest.taken,
              )
              (Sublist.trans (Sublist.append (Sublist.refl one.handed) later.order) (
                rw (← append_assoc one.handed one.after.items rest.taken)
                  (Sublist.append now.order (Sublist.refl rest.taken))));
        count = omega (
          arith,
          now.count,
          later.count,
          length-append one.handed rest.handed,
          length-append one.taken rest.taken,
        );
      }
