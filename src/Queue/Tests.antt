-- ===== src/Queue/Tests.antt =====
-- Runs of the bounded queue, and its theorems at a small queue.
use rtstream.Prelude.{ℕ, ◌≡◌, refl, true, false, List, [], ◌∷◌, arith}
use rtstream.Queue.{Queue, Pushed, try_push, push, pop, close}
use rtstream.Queue.Laws.{IsBounded}
use rtstream.Queue.History.{Op, Keeps, run, run-Keeps}

-- Two places, both taken.
abbrev full : Queue ℕ
full = record {
  items = 1 ∷ 2 ∷ [];
  capacity = 2;
  drop_old = true;
  is_closed = false;
  drop_count = 0;
}

abbrev script : List (Op ℕ)
script = Op.pushes 3 ∷ Op.pops ∷ Op.tries 4 ∷ Op.tries 5 ∷ Op.closes ∷ Op.pops ∷ Op.tries 6 ∷ []

try_push-full : try_push full 3 ≡ Pushed.pushed (record full { items = 2 ∷ 3 ∷ []; drop_count = 1 })
unfolding try_push
try_push-full = refl

run-script : run full script ≡ record {
  taken = 3 ∷ 4 ∷ 5 ∷ [];
  handed = 2 ∷ 4 ∷ [];
  after = record full { items = 5 ∷ []; is_closed = true; drop_count = 2 };
}
unfolding run try_push push pop close
run-script = refl

full-IsBounded : IsBounded full
full-IsBounded = omega arith

run-Keeps_example : Keeps full (run full script)
run-Keeps_example = run-Keeps full script
