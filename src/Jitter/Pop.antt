-- ===== src/Jitter/Pop.antt =====
-- `JitterBuffer::pop`.
use rtstream.Prelude.{
  ℕ, ◌+◌, ◌-◌, ◌%◌, ◌^◌, Bool, ◌&&◌, ◌||◌, not, [], ◌∷◌, Option, none, some, is_empty,
  if◌then◌else◌,
}
use rtstream.Prelude.Int.{ℤ, pos, ◌-ℤ◌, ltb_ℤ}
use rtstream.Prelude.Maps.{Map, lookup, erase}
use rtstream.Stats.{Metrics, bump}
use rtstream.Jitter.Double.{Double}
use rtstream.Jitter.State.{Packet, JitterBuffer, seq_delta, is_zero}
use rtstream.Jitter.Missing.{Effect}

module _ {D : Double} {Ctx : Type 0} where
  -- Nothing went out for longer than the target delay.
  abbrev pub starved : JitterBuffer D Ctx → ℤ → Bool
  starved jb now = ltb_ℤ jb.target_delay_us (now -ℤ jb.last_pop_us)

  -- The end of `pop`: unit `u`, found under key `key`, goes out. `total_buffered_` is a `size_t`.
  unfoldable pub release : JitterBuffer D Ctx → ℕ → Packet Ctx → ℤ → JitterBuffer D Ctx
  release jb key u now = record jb {
    buf = erase key jb.buf;
    next_out = (u.seq + 1) % 2 ^ 32;
    last_pop_us = now;
    total_buffered = (jb.total_buffered + 2 ^ 64 - 1) % 2 ^ 64;
  }

  -- The head is missing, and has been for `max_wait_us_`, or the output starves: go on with the
  -- least key there is.
  unfoldable pub skip_gap :
      JitterBuffer D Ctx → Map (Packet Ctx) → ℤ → Metrics → Option (Packet Ctx) × Effect D Ctx
  unfolding release
  skip_gap jb [] now stats = (none, record { after = jb; asked = []; stats = stats })
  skip_gap jb ((head, u) ∷ rest) now stats = (
    some u,
    record {
      after = release (record jb { next_out = head; head_missing_since_us = pos 0 }) head u now;
      asked = [];
      stats = record stats { net_lost = bump stats.net_lost (seq_delta head jb.next_out) };
    },
  )

  -- The wait for a missing head starts when it is first noticed.
  unfoldable pub note_missing : JitterBuffer D Ctx → ℤ → JitterBuffer D Ctx
  note_missing jb now =
      if is_zero jb.head_missing_since_us then record jb { head_missing_since_us = now } else jb

  unfoldable pub head_missing :
      JitterBuffer D Ctx → ℤ → Metrics → Option (Packet Ctx) × Effect D Ctx
  unfolding note_missing skip_gap
  head_missing jb now stats =
      let jb' = note_missing jb now in
      if ltb_ℤ (now -ℤ jb'.head_missing_since_us) jb'.max_wait_us && not (starved jb now)
      then (
        none,
        record {
          after = jb';
          asked = if jb.miss_set then jb.next_out ∷ [] else [];
          stats = record stats { nack_requested = bump stats.nack_requested 1 };
        },
      )
      else skip_gap jb' jb'.buf now stats

  -- The head is there: it is held back until it has waited for the target delay.
  unfoldable pub head_ready :
      JitterBuffer D Ctx → Packet Ctx → ℤ → Metrics → Option (Packet Ctx) × Effect D Ctx
  unfolding release
  head_ready jb u now stats =
      let jb' : JitterBuffer D Ctx = record jb { head_missing_since_us = pos 0 } in
      if ltb_ℤ (now -ℤ u.first_recv_us) jb.target_delay_us && not (starved jb now)
      then (none, record { after = jb'; asked = []; stats = stats })
      else (some u, record { after = release jb' jb.next_out u now; asked = []; stats = stats })

  unfoldable pub pop : JitterBuffer D Ctx → ℤ → Metrics → Option (Packet Ctx) × Effect D Ctx
  unfolding head_missing head_ready
  pop jb now stats =
      if not jb.started || is_empty jb.buf
      then (none, record { after = jb; asked = []; stats = stats })
      else elim (lookup jb.next_out jb.buf) [
        | none ↦ head_missing jb now stats
        | some u ↦ head_ready jb u now stats
      ]
