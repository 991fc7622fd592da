-- ===== src/Sim/Laws.antt =====
-- Where the packets given to the simulated network go.
use mathlib.Core.List.{Perm}
use mathlib.Core.List.Perm
use rtstream.Prelude.{
  ◌≡◌, ◌⊎◌, inl, inr, refl, true, false, List, [], ◌∷◌, sym, subst, Bool-cases, arith,
}
use rtstream.Prelude.Int.{ℤ, pos, ◌≤ℤ◌, ltb_ℤ, ◌+ℤ◌, int_laws}
use rtstream.Wire.Bytes.{Bytes}
use rtstream.Sim.{Pending, LossSimulator, earliest, take_due, due_now, drain}

-- All of the packets held back are due at `at` or later.
abbrev pub AllAfter : ℤ → List Pending → Type 0
AllAfter at [] = Unit {0}
AllAfter at (p ∷ ps) = (at ≤ℤ p.due_us) × AllAfter at ps

AllAfter-mono : (a b : ℤ) (ps : List Pending) → a ≤ℤ b → AllAfter b ps → AllAfter a ps
AllAfter-mono a b [] h all = tt
AllAfter-mono a b (p ∷ ps) h all = (omega (arith, all.0), AllAfter-mono a b ps h all.1)

earliest-sooner :
    (p q : Pending) (qs : List Pending)
    → ltb_ℤ q.due_us p.due_us ≡ true
    → earliest p (q ∷ qs) ≡ ((earliest q qs).0, p ∷ (earliest q qs).1)
unfolding earliest
earliest-sooner p q qs h = rw h refl

earliest-later :
    (p q : Pending) (qs : List Pending)
    → ltb_ℤ q.due_us p.due_us ≡ false
    → earliest p (q ∷ qs) ≡ ((earliest p qs).0, q ∷ (earliest p qs).1)
unfolding earliest
earliest-later p q qs h = rw h refl

-- The earliest of the packets of a list, and the others.
record IsEarliest (p : Pending) (qs : List Pending) (r : Pending × List Pending) : Type 0 where
  first : AllAfter r.0.due_us (p ∷ qs)
  others : Perm (r.0 ∷ r.1) (p ∷ qs)

earliest-IsEarliest : (p : Pending) (qs : List Pending) → IsEarliest p qs (earliest p qs)
unfolding earliest
earliest-IsEarliest p [] = record { first = (omega arith, tt); others = Perm.rfl }
earliest-IsEarliest p (q ∷ qs) = elim (Bool-cases (ltb_ℤ q.due_us p.due_us)) [
  | inl sooner ↦
      let rest = earliest-IsEarliest q qs in
      let below : q.due_us ≤ℤ p.due_us = ground (arith, sooner) in
      subst (IsEarliest p (q ∷ qs)) (sym (earliest-sooner p q qs sooner)) (record {
        first = (omega (arith, rest.first.0, below), rest.first);
        others =
            Perm.trans (Perm.swap p (earliest q qs).0 (earliest q qs).1) (Perm.cons p rest.others);
      })
  | inr later ↦
      let rest = earliest-IsEarliest p qs in
      let above : p.due_us ≤ℤ q.due_us = ground (arith, later) in
      subst (IsEarliest p (q ∷ qs)) (sym (earliest-later p q qs later)) (record {
        first = (rest.first.0, (omega (arith, rest.first.0, above), rest.first.1));
        others =
            Perm.trans (Perm.swap q (earliest p qs).0 (earliest p qs).1)
              (Perm.trans (Perm.cons q rest.others) (Perm.swap p q qs));
      })
]

-- Nothing is due.
abbrev pub Waits : LossSimulator → ℤ → LossSimulator × List Bytes → Type 0
Waits s now r = (r ≡ (s, [])) × AllAfter (now +ℤ pos 1) s.pending

-- `p`, one of the packets held back, goes out; the others are still held back, and nothing else changes.
pub record GoesOut (s : LossSimulator) (now : ℤ) (r : LossSimulator × List Bytes) (p : Pending)
    : Type 0 where
  pub sent : r.1 ≡ p.packet ∷ []
  pub due : p.due_us ≤ℤ now
  pub first : AllAfter p.due_us s.pending
  pub others : Perm (p ∷ r.0.pending) s.pending
  pub rest : r.0 ≡ record s { pending = r.0.pending }

take_due-cases :
    (s : LossSimulator) (now : ℤ) (p : Pending) (qs : List Pending) (r : Pending × List Pending)
    → s.pending ≡ p ∷ qs
    → IsEarliest p qs r
    → Waits s now (take_due s r now) ⊎ ((l : Pending) × GoesOut s now (take_due s r now) l)
unfolding take_due
take_due-cases s now p qs r e h = elim (Bool-cases (ltb_ℤ now r.0.due_us)) [
  | inl early ↦
      let next : (now +ℤ pos 1) ≤ℤ r.0.due_us = grind (int_laws, early) in
      inl (
        rw early refl,
        subst (AllAfter (now +ℤ pos 1)) (sym e) (AllAfter-mono _ _ (p ∷ qs) next h.first),
      )
  | inr due ↦
      let on_time : r.0.due_us ≤ℤ now = ground (arith, due) in
      inr (
        r.0,
        rw due (record {
          sent = refl;
          due = on_time;
          first = subst (AllAfter r.0.due_us) (sym e) h.first;
          others = subst (λ ps. Perm (r.0 ∷ r.1) ps) (sym e) h.others;
          rest = refl;
        }),
      )
]

-- A round of the delivery thread at time `now`: when every packet held back is due later, nothing
-- happens; else one of the packets held back goes out, which is due, and before which none is due; exactly
-- the others are still held back, in some order, and nothing else of the simulator changes.
pub drain-cases :
    (s : LossSimulator) (now : ℤ)
    → Waits s now (drain s now) ⊎ ((p : Pending) × GoesOut s now (drain s now) p)
unfolding drain due_now
drain-cases s now = by_pending s.pending refl
  where
    by_pending :
        (ps : List Pending)
        → s.pending ≡ ps
        → Waits s now (due_now s ps now) ⊎ ((p : Pending) × GoesOut s now (due_now s ps now) p)
    by_pending [] e = inl (refl, subst (AllAfter (now +ℤ pos 1)) (sym e) tt)
    by_pending (p ∷ qs) e = take_due-cases s now p qs (earliest p qs) e (earliest-IsEarliest p qs)
