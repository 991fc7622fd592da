-- ===== src/Jitter/Run.antt =====
-- Whole runs of the buffer: pushes and pops in any interleaving.
use rtstream.Prelude.{
  ℕ, suc, ◌≤◌, subst, inl, inr, List, [], ◌∷◌, ◌++◌, Option, none, some, Bool-cases, arith,
}
use rtstream.Prelude.Int.{ℤ}
use rtstream.Stats.{Metrics}
use rtstream.Jitter.Double.{Double}
use rtstream.Jitter.State.{Packet, JitterBuffer}
use rtstream.Jitter.Push.{push}
use rtstream.Jitter.Pop.{pop}
use rtstream.Jitter.Order.{IsOrdered, IsNear, push-IsOrdered}
use rtstream.Jitter.Delivery.{Popped, quiet, gives, pop-Popped}

-- What the threads do to the buffer: the receiving one pushes, the assembling one pops.
pub data Event (Ctx : Type 0) : Type 0 where
  arrives : ℕ → ℤ → Ctx → ℤ → Event Ctx
  asks : ℤ → Event Ctx

-- Numbers that rise strictly from `lo` on.
abbrev pub Rises : ℕ → List ℕ → Type 0
Rises lo [] = Unit {0}
Rises lo (s ∷ ss) = (lo ≤ s) × Rises (suc s) ss

Rises-mono : (lo hi : ℕ) (ss : List ℕ) → lo ≤ hi → Rises hi ss → Rises lo ss
Rises-mono lo hi [] h r = tt
Rises-mono lo hi (s ∷ ss) h r = (omega arith, r.1)

abbrev pub emitted : {Ctx : Type 0} → Option (Packet Ctx) → List ℕ
emitted none = []
emitted (some u) = u.seq ∷ []

module _ {D : Double} {Ctx : Type 0} where
  -- The numbers of the packets that a run hands out, in the order in which it does.
  unfoldable pub run : JitterBuffer D Ctx → Metrics → List (Event Ctx) → List ℕ
  run jb stats [] = []
  run jb stats (arrives seq gen c now ∷ es) =
      let e = (push jb seq gen c now stats).1 in run e.after e.stats es
  run jb stats (asks now ∷ es) =
      let (out, e) = pop jb now stats in emitted out ++ run e.after e.stats es

  -- Every packet of the run comes below the wrap, and not far ahead of the output at that time.
  abbrev pub Steady : JitterBuffer D Ctx → Metrics → List (Event Ctx) → Type 0
  Steady jb stats [] = Unit {0}
  Steady jb stats (arrives seq gen c now ∷ es) =
      IsNear jb seq
      × Steady (push jb seq gen c now stats).1.after (push jb seq gen c now stats).1.stats es
  Steady jb stats (asks now ∷ es) = Steady (pop jb now stats).1.after (pop jb now stats).1.stats es

  -- A push never moves the output back.
  push_forward :
      (jb : JitterBuffer D Ctx) (seq : ℕ) (gen : ℤ) (c : Ctx) (now : ℤ) (stats : Metrics)
      → IsOrdered jb
      → IsNear jb seq
      → jb.next_out ≤ (push jb seq gen c now stats).1.after.next_out
  push_forward jb seq gen c now stats v near = elim (Bool-cases jb.started) [
    | inl on ↦ omega (arith, (push-IsOrdered jb seq gen c now stats v near).1 on)
    | inr off ↦ omega (arith, v.fresh_out off)
  ]

  Popped-IsOrdered :
      {jb : JitterBuffer D Ctx} {r : Option (Packet Ctx)} {after : JitterBuffer D Ctx}
      → Popped jb r after
      → IsOrdered after
  Popped-IsOrdered (quiet e n o) = o
  Popped-IsOrdered (gives u e g) = g.ordered

  emitted-Rises :
      {jb : JitterBuffer D Ctx} {r : Option (Packet Ctx)} {after : JitterBuffer D Ctx}
      → Popped jb r after
      → (later : List ℕ) → Rises after.next_out later
      → Rises jb.next_out (emitted r ++ later)
  emitted-Rises (quiet e n o) later rest = rw e (subst (λ k. Rises k later) n rest)
  emitted-Rises (gives u e g) later rest =
      rw e (g.not_behind, subst (λ k. Rises k later) g.goes_on rest)

  -- In any interleaving of pushes and pops in which each packet comes below 2^31 and at most 1024
  -- ahead of the output, the packets handed out have strictly rising numbers: none comes twice,
  -- and none comes after a later one.
  pub run-Rises :
      (jb : JitterBuffer D Ctx) (stats : Metrics) (es : List (Event Ctx))
      → IsOrdered jb
      → Steady jb stats es
      → Rises jb.next_out (run jb stats es)
  unfolding run
  run-Rises jb stats [] v st = tt
  run-Rises jb stats (arrives seq gen c now ∷ es) v (near, st) =
      let e = (push jb seq gen c now stats).1 in
      let rest = run-Rises e.after e.stats es (push-IsOrdered jb seq gen c now stats v near).0 st in
      Rises-mono jb.next_out e.after.next_out (run e.after e.stats es)
        (push_forward jb seq gen c now stats v near) rest
  run-Rises jb stats (asks now ∷ es) v st =
      let popped = pop-Popped jb now stats v in
      let (out, e) = pop jb now stats in
      emitted-Rises popped (run e.after e.stats es)
        (run-Rises e.after e.stats es (Popped-IsOrdered popped) st)
