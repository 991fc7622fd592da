-- ===== src/Jitter/Missing.antt =====
-- `maybe_nack_locked`, `detect_missing_locked` and `evict_overflow_locked`.
use rtstream.Prelude.{
  ℕ, zero, suc, ◌+◌, ◌%◌, ◌^◌, Bool, false, ◌||◌, List, [], ◌∷◌, ◌++◌, none, some, length, ltb,
  ◌==◌, if◌then◌else◌,
}
use rtstream.Prelude.Int.{ℤ, ◌-ℤ◌, ltb_ℤ}
use rtstream.Prelude.Maps.{Map, lookup, insert}
use rtstream.Stats.{Metrics, bump}
use rtstream.Jitter.Double.{Double}
use rtstream.Jitter.State.{Packet, JitterBuffer, seq_lt, seq_delta}

-- What a part of a call does: the buffer after it, the sequence numbers that it hands to
-- `on_missing_`, and the counters.
pub record Effect (D : Double) (Ctx : Type 0) : Type 0 where
  pub after : JitterBuffer D Ctx
  pub asked : List ℕ
  pub stats : Metrics

-- `while (buf_.size() > max_units_)`: each round erases the least key and counts a loss.
unfoldable pub evict_loop : {Ctx : Type 0} → ℕ → Map (Packet Ctx) → ℕ → Map (Packet Ctx) × ℕ
evict_loop max_units [] lost = ([], lost)
evict_loop max_units (u ∷ buf) lost =
    if ltb max_units (length (u ∷ buf))
    then evict_loop max_units buf (bump lost 1)
    else (u ∷ buf, lost)

module _ {D : Double} {Ctx : Type 0} where
  -- A number asked for less than `nack_interval_us_` ago is passed over. The table of these times
  -- is emptied when it grows past 4096 entries.
  unfoldable pub throttled : JitterBuffer D Ctx → ℕ → ℤ → Bool
  throttled jb seq now = elim (lookup seq jb.last_nack_us) [
    | none ↦ false
    | some t ↦ ltb_ℤ (now -ℤ t) jb.nack_interval_us
  ]

  unfoldable pub maybe_nack : JitterBuffer D Ctx → ℕ → ℤ → Metrics → Effect D Ctx
  unfolding throttled
  maybe_nack jb seq now stats =
      let noted = insert seq now jb.last_nack_us in
      if throttled jb seq now then record { after = jb; asked = []; stats = stats } else record {
        after = record jb { last_nack_us = if ltb 4096 (length noted) then [] else noted };
        asked = if jb.miss_set then seq ∷ [] else [];
        stats = record stats { nack_requested = bump stats.nack_requested 1 };
      }

  -- The loop `for (s = next_out_; s != arrived_seq; ++s)` with `n` numbers to go.
  unfoldable pub missing_loop : ℕ → ℕ → ℤ → JitterBuffer D Ctx → Metrics → Effect D Ctx
  missing_loop zero s now jb stats = record { after = jb; asked = []; stats = stats }
  missing_loop (suc n) s now jb stats =
      let here : Effect D Ctx = elim (lookup s jb.buf) [
        | none ↦ maybe_nack jb s now stats
        | some u ↦ record { after = jb; asked = []; stats = stats }
      ] in
      let later = missing_loop n ((s + 1) % 2 ^ 32) now here.after here.stats in
      record { after = later.after; asked = here.asked ++ later.asked; stats = later.stats }

  unfoldable pub detect_missing : JitterBuffer D Ctx → ℕ → ℤ → Metrics → Effect D Ctx
  unfolding missing_loop
  detect_missing jb arrived now stats =
      let gap = seq_delta arrived jb.next_out in
      let nothing : Effect D Ctx = record { after = jb; asked = []; stats = stats } in
      if seq_lt arrived jb.next_out || arrived == jb.next_out
      then nothing
      else if ltb 1024 gap
      then record nothing { after = record jb { next_out = arrived; first_arrival_us = now } }
      else missing_loop gap jb.next_out now jb stats

  unfoldable pub evict_overflow : JitterBuffer D Ctx → Metrics → JitterBuffer D Ctx × Metrics
  unfolding evict_loop
  evict_overflow jb stats =
      let (buf, lost) = evict_loop jb.max_units jb.buf stats.net_lost in
      (record jb { buf = buf }, record stats { net_lost = lost })
