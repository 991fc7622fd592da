-- ===== src/Jitter/Tune.antt =====
-- The adaptive delay: whatever the floating-point estimate comes to, the delay stays in its range.
use rtstream.Prelude.{
  ℕ, zero, suc, ◌+◌, ◌-◌, ◌*◌, min, max, ◌%◌, ◌^◌, ◌≤◌, ◌≡◌, refl, ◌∙◌, ◌&&◌, inl, inr, ◌==◌,
  Bool-cases, Option-cases, arith,
}
use rtstream.Prelude.Int.{ℤ, pos, negsuc, ◌+ℤ◌, ◌-ℤ◌}
use rtstream.Prelude.Maps.{lookup}
use rtstream.Stats.{Metrics}
use rtstream.Jitter.Double.{Double}
use rtstream.Jitter.State.{
  JitterBuffer, new, retune_target, set_rtt_ms, estimate, smooth, deviation, usable, max_ℤ, min_ℤ,
  seq_lt,
}
use rtstream.Jitter.Missing.{maybe_nack, missing_loop, detect_missing, evict_overflow}
use rtstream.Jitter.Push.{push, start, observe, store}

-- `max`, then `min`: the value is brought into the range.
clamp_range :
    (t : ℤ)
    → (d : ℕ) × (min_ℤ (max_ℤ t (pos 15000)) (pos 250000) ≡ pos d) × (15000 ≤ d) × (d ≤ 250000)
clamp_range (pos n) = (min (max n 15000) 250000, ground arith, omega arith, omega arith)
clamp_range (negsuc n) = (15000, ground arith, omega arith, omega arith)

wait_time : (d : ℕ) → pos d +ℤ pos d +ℤ pos 50000 ≡ pos (2 * d + 50000)
unfolding ◌+ℤ◌
wait_time d = ground arith

module _ {D : Double} {Ctx : Type 0} where
  -- The target delay is between 15 and 250 milliseconds, and the wait for a missing packet is
  -- twice that and 50 milliseconds.
  pub record IsTuned (jb : JitterBuffer D Ctx) : Type 0 where
    pub delay : ℕ
    pub target : jb.target_delay_us ≡ pos delay
    pub at_least : 15000 ≤ delay
    pub at_most : delay ≤ 250000
    pub wait : jb.max_wait_us ≡ pos (2 * delay + 50000)

  -- The delay and the wait are left as they were.
  record Keeps (jb jb' : JitterBuffer D Ctx) : Type 0 where
    target : jb'.target_delay_us ≡ jb.target_delay_us
    wait : jb'.max_wait_us ≡ jb.max_wait_us

  Keeps-IsTuned : {jb jb' : JitterBuffer D Ctx} → Keeps jb jb' → IsTuned jb → IsTuned jb'
  Keeps-IsTuned k v = record {
    delay = v.delay;
    target = k.target ∙ v.target;
    at_least = v.at_least;
    at_most = v.at_most;
    wait = k.wait ∙ v.wait;
  }

  Keeps-trans : {a b c : JitterBuffer D Ctx} → Keeps a b → Keeps b c → Keeps a c
  Keeps-trans p q = record { target = q.target ∙ p.target; wait = q.wait ∙ p.wait }

  retune_target-IsTuned : (jb : JitterBuffer D Ctx) → IsTuned (retune_target D jb)
  unfolding retune_target
  retune_target-IsTuned jb =
      let (d, eq, low, high) = clamp_range (
        D.to_int (
          D.plus (D.times (D.of_int (pos 3)) jb.jitter_us)
            (D.times jb.rtt_ms (D.of_int (pos 1000))))) in
      record { delay = d; target = eq; at_least = low; at_most = high; wait = rw eq (wait_time d) }

  new-IsTuned : (n : ℕ) → IsTuned (new D {Ctx = Ctx} n)
  unfolding new
  new-IsTuned n = record {
    delay = 40000;
    target = refl;
    at_least = omega arith;
    at_most = omega arith;
    wait = refl;
  }

  estimate-IsTuned :
      (jb : JitterBuffer D Ctx) (gen now : ℤ) → IsTuned jb → IsTuned (estimate D jb gen now)
  unfolding estimate
  estimate-IsTuned jb gen now v =
      let d_arr = now -ℤ jb.last_arrival_us in
      let d_gen = gen -ℤ jb.last_gen_us in
      elim (Bool-cases (usable jb.last_arrival_us d_arr d_gen)) [
        | inl use_it ↦
            rw (use_it, estimate) (retune_target-IsTuned (smooth D jb (deviation D d_arr d_gen)))
        | inr skip ↦ rw (skip, estimate) v
      ]

  start-Keeps : (jb : JitterBuffer D Ctx) (seq : ℕ) (now : ℤ) → Keeps jb (start jb seq now)
  unfolding start
  start-Keeps jb seq now = ground arith

  observe-IsTuned :
      (jb : JitterBuffer D Ctx) (seq : ℕ) (gen now : ℤ)
      → IsTuned jb
      → IsTuned (observe jb seq gen now)
  unfolding observe
  observe-IsTuned jb seq gen now v = elim (Bool-cases (seq == jb.next_out)) [
    | inl next ↦
        let same : Keeps (estimate D jb gen now)
            (record (estimate D jb gen now) { last_arrival_us = now; last_gen_us = gen }) =
          record { target = refl; wait = refl } in
        rw (next, observe) (Keeps-IsTuned same (estimate-IsTuned jb gen now v))
    | inr other ↦ rw (other, observe) v
  ]

  store-Keeps :
      (jb : JitterBuffer D Ctx) (seq : ℕ) (gen now : ℤ) (c : Ctx)
      → Keeps jb (store jb seq gen now c)
  unfolding store
  store-Keeps jb seq gen now c = ground arith

  maybe_nack-Keeps :
      (jb : JitterBuffer D Ctx) (s : ℕ) (now : ℤ) (stats : Metrics)
      → Keeps jb (maybe_nack jb s now stats).after
  unfolding maybe_nack
  maybe_nack-Keeps jb s now stats = ground arith

  missing_loop-Keeps :
      (n s : ℕ) (now : ℤ) (jb : JitterBuffer D Ctx) (stats : Metrics)
      → Keeps jb (missing_loop n s now jb stats).after
  unfolding missing_loop
  missing_loop-Keeps zero s now jb stats = record { target = refl; wait = refl }
  missing_loop-Keeps (suc n) s now jb stats = elim (Option-cases (lookup s jb.buf)) [
    | inl gone ↦
        let here = maybe_nack jb s now stats in
        rw (gone, missing_loop)
          (Keeps-trans (maybe_nack-Keeps jb s now stats)
            (missing_loop-Keeps n ((s + 1) % 2 ^ 32) now here.after here.stats))
    | inr (u, there) ↦
        rw (there, missing_loop) (missing_loop-Keeps n ((s + 1) % 2 ^ 32) now jb stats)
  ]

  detect_missing-Keeps :
      (jb : JitterBuffer D Ctx) (seq : ℕ) (now : ℤ) (stats : Metrics)
      → Keeps jb (detect_missing jb seq now stats).after
  unfolding detect_missing
  detect_missing-Keeps jb seq now stats =
      ground
        (arith, missing_loop-Keeps ((seq + 2 ^ 32 - jb.next_out) % 2 ^ 32) jb.next_out now jb stats)

  evict_overflow-Keeps :
      (jb : JitterBuffer D Ctx) (stats : Metrics) → Keeps jb (evict_overflow jb stats).0
  unfolding evict_overflow
  evict_overflow-Keeps jb stats = record { target = refl; wait = refl }

  -- The delay stays in its range through every push: whatever the floating-point estimate and
  -- its conversion to an integer come to, the target is from 15 to 250 ms, and the wait follows it.
  pub push-IsTuned :
      (jb : JitterBuffer D Ctx) (seq : ℕ) (gen : ℤ) (c : Ctx) (now : ℤ) (stats : Metrics)
      → IsTuned jb
      → IsTuned (push jb seq gen c now stats).1.after
  unfolding push
  push-IsTuned jb seq gen c now stats v =
      let begun = start jb seq now in
      let stored = store (observe begun seq gen now) seq gen now c in
      let found = detect_missing stored seq now stats in
      let seen = observe-IsTuned begun seq gen now (Keeps-IsTuned (start-Keeps jb seq now) v) in
      let kept = Keeps-trans (store-Keeps (observe begun seq gen now) seq gen now c) (
        Keeps-trans (detect_missing-Keeps stored seq now stats)
          (evict_overflow-Keeps found.after found.stats)) in
      elim (Bool-cases (jb.started && seq_lt seq jb.next_out)) [
        | inl late ↦ rw (late, push) v
        | inr fine ↦ rw (fine, push) (Keeps-IsTuned kept seen)
      ]

  -- A new round-trip time retunes the delay into its range, whatever it was before.
  set_rtt_ms-IsTuned : (jb : JitterBuffer D Ctx) (ms : D.Num) → IsTuned (set_rtt_ms D jb ms)
  unfolding set_rtt_ms
  set_rtt_ms-IsTuned jb ms = retune_target-IsTuned (record jb { rtt_ms = ms })
