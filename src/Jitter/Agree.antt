-- ===== src/Jitter/Agree.antt =====
-- Which steps of `push` leave alone what the order of the output rests on.
use rtstream.Prelude.{
  ℕ, zero, suc, ◌+◌, ◌-◌, ◌%◌, ◌^◌, ◌≤◌, ◌≡◌, refl, ◌∙◌, inl, inr, Option-cases, arith,
}
use rtstream.Prelude.Int.{ℤ}
use rtstream.Prelude.Maps.{lookup}
use rtstream.Stats.{Metrics}
use rtstream.Jitter.Double.{Double}
use rtstream.Jitter.State.{seq_delta, JitterBuffer}
use rtstream.Jitter.Missing.{maybe_nack, missing_loop, detect_missing}
use rtstream.Jitter.Push.{observe}

module _ {D : Double} {Ctx : Type 0} where
  -- Two states that agree on what the order of the output rests on.
  pub record Agree (jb jb' : JitterBuffer D Ctx) : Type 0 where
    pub buf : jb'.buf ≡ jb.buf
    pub next_out : jb'.next_out ≡ jb.next_out
    pub started : jb'.started ≡ jb.started

  pub Agree-refl : (jb : JitterBuffer D Ctx) → Agree jb jb
  Agree-refl jb = record { buf = refl; next_out = refl; started = refl }

  Agree-trans : {a b c : JitterBuffer D Ctx} → Agree a b → Agree b c → Agree a c
  Agree-trans p q = record {
    buf = q.buf ∙ p.buf;
    next_out = q.next_out ∙ p.next_out;
    started = q.started ∙ p.started;
  }

  pub observe-Agree :
      (jb : JitterBuffer D Ctx) (seq : ℕ) (gen now : ℤ) → Agree jb (observe jb seq gen now)
  unfolding observe
  observe-Agree jb seq gen now = ground arith

  maybe_nack-Agree :
      (jb : JitterBuffer D Ctx) (s : ℕ) (now : ℤ) (stats : Metrics)
      → Agree jb (maybe_nack jb s now stats).after
  unfolding maybe_nack
  maybe_nack-Agree jb s now stats = ground arith

  missing_loop-Agree :
      (n s : ℕ) (now : ℤ) (jb : JitterBuffer D Ctx) (stats : Metrics)
      → Agree jb (missing_loop n s now jb stats).after
  unfolding missing_loop
  missing_loop-Agree zero s now jb stats = Agree-refl jb
  missing_loop-Agree (suc n) s now jb stats = elim (Option-cases (lookup s jb.buf)) [
    | inl gone ↦
        let here = maybe_nack jb s now stats in
        rw (gone, missing_loop)
          (Agree-trans (maybe_nack-Agree jb s now stats)
            (missing_loop-Agree n ((s + 1) % 2 ^ 32) now here.after here.stats))
    | inr (u, there) ↦
        rw (there, missing_loop) (missing_loop-Agree n ((s + 1) % 2 ^ 32) now jb stats)
  ]

  -- Up to a gap of 1024, looking for missing numbers changes nothing of this.
  pub detect_missing-Agree :
      (jb : JitterBuffer D Ctx) (seq : ℕ) (now : ℤ) (stats : Metrics)
      → seq_delta seq jb.next_out ≤ 1024
      → Agree jb (detect_missing jb seq now stats).after
  unfolding detect_missing
  detect_missing-Agree jb seq now stats h = ground (
    arith,
    Agree-refl jb,
    missing_loop-Agree ((seq + 2 ^ 32 - jb.next_out) % 2 ^ 32) jb.next_out now jb stats,
  )
