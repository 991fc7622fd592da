-- ===== src/Jitter/Push.antt =====
-- `JitterBuffer::push`.
use rtstream.Prelude.{ℕ, ◌+◌, Bool, true, false, ◌&&◌, [], none, some, ◌==◌, if◌then◌else◌}
use rtstream.Prelude.Int.{ℤ}
use rtstream.Prelude.Maps.{lookup, insert}
use rtstream.Stats.{Metrics}
use rtstream.Jitter.Double.{Double}
use rtstream.Jitter.State.{JitterBuffer, seq_lt, estimate}
use rtstream.Jitter.Missing.{Effect, detect_missing, evict_overflow}

module _ {D : Double} {Ctx : Type 0} where
  -- The first packet fixes where the output starts.
  unfoldable pub start : JitterBuffer D Ctx → ℕ → ℤ → JitterBuffer D Ctx
  start jb seq now =
      if jb.started
      then jb
      else record jb { started = true; next_out = seq; first_arrival_us = now }

  -- The jitter estimate looks at packets in order only.
  unfoldable pub observe : JitterBuffer D Ctx → ℕ → ℤ → ℤ → JitterBuffer D Ctx
  unfolding estimate
  observe jb seq gen_us now =
      if seq == jb.next_out
      then record (estimate D jb gen_us now) { last_arrival_us = now; last_gen_us = gen_us }
      else jb

  -- A packet that is there already is not overwritten.
  unfoldable pub store : JitterBuffer D Ctx → ℕ → ℤ → ℤ → Ctx → JitterBuffer D Ctx
  store jb seq gen_us now content = elim (lookup seq jb.buf) [
    | some u ↦ jb
    | none ↦ record jb {
      buf =
          insert seq (record { seq = seq; gen_us = gen_us; first_recv_us = now; content = content })
            jb.buf;
      total_buffered = jb.total_buffered + 1;
    }
  ]

  unfoldable pub push : JitterBuffer D Ctx → ℕ → ℤ → Ctx → ℤ → Metrics → Bool × Effect D Ctx
  unfolding start observe store
  push jb seq gen_us content now stats =
      let stored = store (observe (start jb seq now) seq gen_us now) seq gen_us now content in
      let found = detect_missing stored seq now stats in
      let (kept, stats') = evict_overflow found.after found.stats in
      if jb.started && seq_lt seq jb.next_out
      then (false, record { after = jb; asked = []; stats = stats })
      else (true, record { after = kept; asked = found.asked; stats = stats' })
