-- ===== src/Jitter/Tests.antt =====
-- Runs of the jitter buffer with integers for the floating-point numbers, and its theorems.
use rtstream.Prelude.{ℕ, ◌+◌, ◌-◌, ◌/◌, ◌^◌, ◌≡◌, refl, false, true, List, [], ◌∷◌, some, arith}
use rtstream.Prelude.Int.{ℤ, pos, pos_part, ◌+ℤ◌, ◌-ℤ◌, ◌*ℤ◌, ltb_ℤ}
use rtstream.Prelude.Maps.{lookup, insert, erase}
use rtstream.Stats.{no_metrics}
use rtstream.Jitter.Double.{Double}
use rtstream.Jitter.State.{Packet, JitterBuffer}
use rtstream.Jitter.Missing.{maybe_nack, detect_missing, evict_overflow}
use rtstream.Jitter.Push.{push}
use rtstream.Jitter.Pop.{pop}
use rtstream.Jitter.Bounds.{IsValid, push-IsValid}
use rtstream.Jitter.Order.{IsOrdered}
use rtstream.Jitter.Delivery.{Popped, pop-Popped}
use rtstream.Jitter.Run.{Event, arrives, asks, run, Steady, Rises, run-Rises}
use rtstream.Jitter.Stall.{run_after_wrap}
use rtstream.Jitter.Tune.{IsTuned, push-IsTuned}

-- Whole numbers in place of `double`.
abbrev whole : Double
whole = record {
  Num = ℤ;
  of_int = λ a. a;
  to_int = λ a. a;
  negate = λ a. pos 0 -ℤ a;
  plus = ◌+ℤ◌;
  minus = ◌-ℤ◌;
  times = ◌*ℤ◌;
  over = λ a b. pos (pos_part a / pos_part b);
  less = ltb_ℤ;
  equal = λ a b. false;
}

abbrev packet : ℕ → Packet ℕ
packet n = record { seq = n; gen_us = pos 0; first_recv_us = pos 1000; content = n }

-- Packets 8 and 9 are there, 7 is awaited.
abbrev waiting : JitterBuffer whole ℕ
waiting = record {
  buf = (8, packet 8) ∷ (9, packet 9) ∷ [];
  next_out = 7;
  started = true;
  head_missing_since_us = pos 0;
  first_arrival_us = pos 1000;
  last_arrival_us = pos 1000;
  last_gen_us = pos 0;
  last_pop_us = pos 1000;
  jitter_us = pos 0;
  jitter_metric = pos 0;
  rtt_ms = pos 0;
  target_delay_us = pos 40000;
  max_wait_us = pos 130000;
  nack_interval_us = pos 10000;
  last_nack_us = [];
  miss_set = true;
  max_units = 4;
  total_buffered = 2;
}

abbrev history : List (Event ℕ)
history =
    asks (pos 2000)
    ∷ arrives 10 (pos 5) 10 (pos 3000)
    ∷ asks (pos 900000)
    ∷ asks (pos 990000)
    ∷ arrives 7 (pos 5) 7 (pos 991000)
    ∷ asks (pos 1990000)
    ∷ []

-- Packet 7 is given up for 8 and 9, and refused when it comes after them.
run-history : run waiting no_metrics history ≡ 8 ∷ 9 ∷ 10 ∷ []
unfolding run push pop lookup insert erase ◌-ℤ◌ ◌+ℤ◌ ◌*ℤ◌ evict_overflow detect_missing maybe_nack
run-history = refl

waiting-IsValid : IsValid waiting
waiting-IsValid = omega arith

waiting-IsOrdered : IsOrdered waiting
waiting-IsOrdered = record {
  valid = waiting-IsValid;
  ahead = omega arith;
  low = omega arith;
  next_low = omega arith;
  fresh = λ off. cc;
  fresh_out = λ off. cc;
}

waiting-IsTuned : IsTuned waiting
waiting-IsTuned = record {
  delay = 40000;
  target = refl;
  at_least = omega arith;
  at_most = omega arith;
  wait = refl;
}

push-IsValid_example : IsValid (push waiting 12 (pos 5) 12 (pos 3000) no_metrics).1.after
push-IsValid_example =
    push-IsValid waiting 12 (pos 5) 12 (pos 3000) no_metrics (omega arith) waiting-IsValid

pop-Popped_example :
    Popped waiting
      (pop waiting (pos 900000) no_metrics).0
      (pop waiting (pos 900000) no_metrics).1.after
pop-Popped_example = pop-Popped waiting (pos 900000) no_metrics waiting-IsOrdered

push-IsTuned_example : IsTuned (push waiting 7 (pos 5) 7 (pos 3000) no_metrics).1.after
push-IsTuned_example = push-IsTuned waiting 7 (pos 5) 7 (pos 3000) no_metrics waiting-IsTuned

history-Steady : Steady waiting no_metrics history
unfolding push pop lookup insert erase ◌-ℤ◌ ◌+ℤ◌ ◌*ℤ◌ evict_overflow detect_missing maybe_nack
history-Steady = ((omega arith, λ on. omega arith), ((omega arith, λ on. omega arith), tt))

run-Rises_example : Rises 7 (run waiting no_metrics history)
run-Rises_example = run-Rises waiting no_metrics history waiting-IsOrdered history-Steady

-- The RTP numbers 0, 1, 2 behind the wrap.
abbrev wrapped : JitterBuffer whole ℕ
wrapped = record waiting { buf = []; next_out = 65536 }

run_after_wrap_example :
    run wrapped no_metrics
      (arrives 0 (pos 5) 0 (pos 3000) ∷ asks (pos 4000) ∷ arrives 1 (pos 6) 1 (pos 5000) ∷ [])
    ≡ []
run_after_wrap_example =
    run_after_wrap wrapped no_metrics
      (arrives 0 (pos 5) 0 (pos 3000) ∷ asks (pos 4000) ∷ arrives 1 (pos 6) 1 (pos 5000) ∷ []) refl
      refl refl (omega arith)

-- Packet 8 was left behind by a jump to 5000.
abbrev jumped : JitterBuffer whole ℕ
jumped = record waiting { buf = (8, packet 8) ∷ []; next_out = 5000 }

-- It goes out, the output goes back to behind it, and almost 2^32 packets count as lost.
pop-jumped :
    ((pop jumped (pos 900000) no_metrics).0 ≡ some (packet 8))
    × ((pop jumped (pos 900000) no_metrics).1.after.next_out ≡ 9)
    × ((pop jumped (pos 900000) no_metrics).1.stats.net_lost ≡ 2 ^ 32 + 8 - 5000)
unfolding pop lookup erase ◌-ℤ◌ ◌+ℤ◌ ◌*ℤ◌
pop-jumped = (refl, refl, refl)
