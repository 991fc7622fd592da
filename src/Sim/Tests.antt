-- ===== src/Sim/Tests.antt =====
-- The simulated network on concrete packets, and its theorem there.
use rtstream.Prelude.{ℕ, ◌≡◌, ◌⊎◌, refl, true, [], ◌∷◌, ◌==◌}
use rtstream.Prelude.Int.{pos, ◌+ℤ◌}
use rtstream.Stats.{no_metrics}
use rtstream.Sim.{
  Draw, Pending, LossSimulator, inject, delay_of, drain, earliest, take_due, due_now,
}
use rtstream.Sim.Laws.{Waits, GoesOut, drain-cases}

-- The packet with number 1 is lost, and every packet is 5 ms late.
abbrev bad_luck : ℕ → Draw
bad_luck k = record { unlucky = k == 1; late_ms = 5 }

abbrev lossy_network : LossSimulator
lossy_network = record { lossy = true; delay_ms = 10; jitter_ms = 9; pending = []; drawn = 0 }

abbrev two_held : LossSimulator
two_held = record lossy_network {
  pending =
      record { due_us = pos 900; packet = 1 ∷ [] }
      ∷ record { due_us = pos 700; packet = 2 ∷ [] }
      ∷ [];
}

inject-held :
    (inject bad_luck lossy_network (7 ∷ []) (pos 100) no_metrics).after.pending
    ≡ record { due_us = pos 15100; packet = 7 ∷ [] } ∷ []
unfolding inject delay_of ◌+ℤ◌
inject-held = refl

inject-dropped :
    (inject bad_luck
      (record lossy_network { drawn = 1 })
      (7 ∷ [])
      (pos 100)
      no_metrics).stats.sim_dropped
    ≡ 1
unfolding inject delay_of
inject-dropped = refl

drain-two_held : drain two_held (pos 800) ≡ (
  record two_held { pending = record { due_us = pos 900; packet = 1 ∷ [] } ∷ [] },
  (2 ∷ []) ∷ [],
)
unfolding drain due_now take_due earliest
drain-two_held = refl

drain-cases_example :
    Waits two_held (pos 800) (drain two_held (pos 800))
    ⊎ ((p : Pending) × GoesOut two_held (pos 800) (drain two_held (pos 800)) p)
drain-cases_example = drain-cases two_held (pos 800)
