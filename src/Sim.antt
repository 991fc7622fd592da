-- ===== src/Sim.antt =====
-- src/transport/loss_simulator.h: the simulated bad network in front of the socket. The random
-- numbers are a parameter: the `k`-th draw is what the generators give the `k`-th packet.
mod Tests
pub mod Laws
use rtstream.Prelude.{
  ℕ, suc, ◌+◌, ◌*◌, ◌%◌, ◌^◌, Bool, true, false, ◌&&◌, not, List, [], ◌∷◌, ◌++◌, Option, none, some,
  ltb, ◌==◌, if◌then◌else◌,
}
use rtstream.Prelude.Int.{ℤ, pos, ◌+ℤ◌, ltb_ℤ}
use rtstream.Wire.Bytes.{Bytes}
use rtstream.Stats.{Metrics, bump}

-- `unlucky` is `uni(rng) < loss_`; `late_ms` is what the uniform distribution on 0 to `jitter_` gives.
pub record Draw : Type 0 where
  pub unlucky : Bool
  pub late_ms : ℕ

pub record Pending : Type 0 where
  pub due_us : ℤ
  pub packet : Bytes

-- `lossy` is `loss_ > 0`. `pending` stands for the priority queue, whose order among equal times is
-- the library's; `drawn` counts the packets that were given random numbers.
pub record LossSimulator : Type 0 where
  pub lossy : Bool
  pub delay_ms : ℕ
  pub jitter_ms : ℕ
  pub pending : List Pending
  pub drawn : ℕ

-- A packet given to the simulator is sent on at once, held back, or dropped.
pub record Injected : Type 0 where
  pub after : LossSimulator
  pub sent : List Bytes
  pub stats : Metrics
  pub taken : Bool

module _ (draws : ℕ → Draw) where
  -- `uint32_t d = delay_` and, with jitter, `d += j(rng2)`.
  unfoldable pub delay_of : LossSimulator → ℕ
  delay_of s =
      if ltb 0 s.jitter_ms then (s.delay_ms + (draws s.drawn).late_ms) % 2 ^ 32 else s.delay_ms

  unfoldable pub inject : LossSimulator → Bytes → ℤ → Metrics → Injected
  unfolding delay_of
  inject s packet now stats =
      let next : LossSimulator = record s { drawn = suc s.drawn } in
      let held : Pending = record { due_us = now +ℤ pos (delay_of s * 1000); packet = packet } in
      if s.lossy && (draws s.drawn).unlucky
      then record {
        after = next;
        sent = [];
        stats = record stats { sim_dropped = bump stats.sim_dropped 1 };
        taken = false;
      }
      else if delay_of s == 0
      then record { after = next; sent = packet ∷ []; stats = stats; taken = true }
      else record {
        after = record next { pending = held ∷ s.pending };
        sent = [];
        stats = stats;
        taken = true;
      }

-- The earliest of the packets held back, and the others.
unfoldable pub earliest : Pending → List Pending → Pending × List Pending
earliest p [] = (p, [])
earliest p (q ∷ qs) =
    if ltb_ℤ q.due_us p.due_us
    then (let (least, rest) = earliest q qs in (least, p ∷ rest))
    else (let (least, rest) = earliest p qs in (least, q ∷ rest))

take_due : LossSimulator → Pending × List Pending → ℤ → LossSimulator × List Bytes
take_due s (p, rest) now =
    if ltb_ℤ now p.due_us then (s, []) else (record s { pending = rest }, p.packet ∷ [])

due_now : LossSimulator → List Pending → ℤ → LossSimulator × List Bytes
unfolding take_due
due_now s [] now = (s, [])
due_now s (p ∷ ps) now = take_due s (earliest p ps) now

-- One round of `drain_loop` at time `now`: the earliest packet goes out if it is due.
unfoldable pub drain : LossSimulator → ℤ → LossSimulator × List Bytes
unfolding due_now
drain s now = due_now s s.pending now
