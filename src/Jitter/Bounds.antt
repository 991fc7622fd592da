-- ===== src/Jitter/Bounds.antt =====
-- The representation invariant of the jitter buffer, and that every operation keeps it.
use rtstream.Prelude.{
  ℕ, zero, suc, ◌+◌, ◌-◌, ◌%◌, ◌^◌, ◌≤◌, ◌<◌, ◌≡◌, refl, ap, ◌∙◌, ◌&&◌, ◌||◌, not, is_empty, inl,
  inr, [], ◌∷◌, some, length, Bool-cases, Option-cases, arith,
}
use rtstream.Prelude.Int.{ℤ, pos}
use rtstream.Prelude.Maps.{
  Map, lookup, Ascends, KeysBelow, insert-Ascends, erase-Ascends, insert-KeysBelow, erase-KeysBelow,
  lookup_first, length-insert_le, length-erase,
}
use rtstream.Stats.{Metrics}
use rtstream.Jitter.Double.{Double}
use rtstream.Jitter.State.{seq_lt, Packet, JitterBuffer}
use rtstream.Jitter.Missing.{maybe_nack, missing_loop, detect_missing, evict_overflow}
use rtstream.Jitter.Keys.{
  KeysMatch, insert-KeysMatch, erase-KeysMatch, lookup-KeysBelow, evict_loop-sub,
}
use rtstream.Jitter.Push.{push, start, observe, store}
use rtstream.Jitter.Pop.{pop, release, skip_gap, note_missing, head_missing, head_ready}

module _ {D : Double} {Ctx : Type 0} where
  -- The map is sorted, its keys are 32-bit numbers that its packets carry, and there are no more of
  -- them than `max_units_`; the table of NACK times keeps below its limit.
  pub record IsValid (jb : JitterBuffer D Ctx) : Type 0 where
    pub sorted : Ascends 0 jb.buf
    pub narrow : KeysBelow (2 ^ 32) jb.buf
    pub matching : KeysMatch jb.buf
    pub next_fits : jb.next_out < 2 ^ 32
    pub bounded : length jb.buf ≤ jb.max_units
    pub table_bounded : length jb.last_nack_us ≤ 4096

  -- What is between the store and the eviction: one packet more than the bound at most.
  record IsNearlyValid (jb : JitterBuffer D Ctx) : Type 0 where
    sorted : Ascends 0 jb.buf
    narrow : KeysBelow (2 ^ 32) jb.buf
    matching : KeysMatch jb.buf
    next_fits : jb.next_out < 2 ^ 32
    nearly : length jb.buf ≤ jb.max_units + 1
    table_bounded : length jb.last_nack_us ≤ 4096

  start-IsValid :
      (jb : JitterBuffer D Ctx) (seq : ℕ) (now : ℤ)
      → seq < 2 ^ 32
      → IsValid jb
      → IsValid (start jb seq now)
  unfolding start
  start-IsValid jb seq now h v = ground arith

  observe-IsValid :
      (jb : JitterBuffer D Ctx) (seq : ℕ) (gen now : ℤ)
      → IsValid jb
      → IsValid (observe jb seq gen now)
  unfolding observe
  observe-IsValid jb seq gen now v = ground arith

  store-IsNearlyValid :
      (jb : JitterBuffer D Ctx) (seq : ℕ) (gen now : ℤ) (c : Ctx)
      → seq < 2 ^ 32
      → IsValid jb
      → IsNearlyValid (store jb seq gen now c)
  unfolding store
  store-IsNearlyValid jb seq gen now c h v =
      let u : Packet Ctx = record { seq = seq; gen_us = gen; first_recv_us = now; content = c } in
      ground (
        arith,
        insert-Ascends seq 0 u jb.buf (omega arith) v.sorted,
        insert-KeysBelow seq (2 ^ 32) u jb.buf h v.narrow,
        insert-KeysMatch seq u jb.buf refl v.matching,
        length-insert_le seq u jb.buf,
      )

  maybe_nack-IsNearlyValid :
      (jb : JitterBuffer D Ctx) (s : ℕ) (now : ℤ) (stats : Metrics)
      → IsNearlyValid jb
      → IsNearlyValid (maybe_nack jb s now stats).after
  unfolding maybe_nack
  maybe_nack-IsNearlyValid jb s now stats v = ground arith

  missing_loop-IsNearlyValid :
      (n s : ℕ) (now : ℤ) (jb : JitterBuffer D Ctx) (stats : Metrics)
      → IsNearlyValid jb
      → IsNearlyValid (missing_loop n s now jb stats).after
  unfolding missing_loop
  missing_loop-IsNearlyValid zero s now jb stats v = v
  missing_loop-IsNearlyValid (suc n) s now jb stats v = elim (Option-cases (lookup s jb.buf)) [
    | inl gone ↦
        let here = maybe_nack jb s now stats in
        rw (gone, missing_loop)
          (missing_loop-IsNearlyValid n ((s + 1) % 2 ^ 32) now here.after here.stats
            (maybe_nack-IsNearlyValid jb s now stats v))
    | inr (u, there) ↦
        rw (there, missing_loop) (missing_loop-IsNearlyValid n ((s + 1) % 2 ^ 32) now jb stats v)
  ]

  detect_missing-IsNearlyValid :
      (jb : JitterBuffer D Ctx) (seq : ℕ) (now : ℤ) (stats : Metrics)
      → seq < 2 ^ 32
      → IsNearlyValid jb
      → IsNearlyValid (detect_missing jb seq now stats).after
  unfolding detect_missing
  detect_missing-IsNearlyValid jb seq now stats h v = ground (
    arith,
    missing_loop-IsNearlyValid ((seq + 2 ^ 32 - jb.next_out) % 2 ^ 32) jb.next_out now jb stats v,
  )

  evict_overflow-IsValid :
      (jb : JitterBuffer D Ctx) (stats : Metrics)
      → IsNearlyValid jb
      → IsValid (evict_overflow jb stats).0
  unfolding evict_overflow
  evict_overflow-IsValid jb stats v =
      let rest =
        evict_loop-sub jb.max_units 0 (2 ^ 32) stats.net_lost jb.buf v.sorted v.narrow v.matching in
      record {
        sorted = rest.0;
        narrow = rest.1;
        matching = rest.2;
        next_fits = v.next_fits;
        bounded = rest.3;
        table_bounded = v.table_bounded;
      }

  -- `push` of a 32-bit sequence number keeps the invariant, so the buffer never holds more than
  -- `max_units_` packets, however they arrive.
  pub push-IsValid :
      (jb : JitterBuffer D Ctx) (seq : ℕ) (gen : ℤ) (c : Ctx) (now : ℤ) (stats : Metrics)
      → seq < 2 ^ 32
      → IsValid jb
      → IsValid (push jb seq gen c now stats).1.after
  unfolding push
  push-IsValid jb seq gen c now stats h v =
      let begun = start-IsValid jb seq now h v in
      let seen = observe-IsValid (start jb seq now) seq gen now begun in
      let stored = store (observe (start jb seq now) seq gen now) seq gen now c in
      let held =
        store-IsNearlyValid (observe (start jb seq now) seq gen now) seq gen now c h seen in
      let found = detect_missing stored seq now stats in
      let kept =
        evict_overflow-IsValid found.after found.stats
          (detect_missing-IsNearlyValid stored seq now stats h held) in
      elim (Bool-cases (jb.started && seq_lt seq jb.next_out)) [
        | inl late ↦ rw (late, push) v
        | inr fine ↦ rw (fine, push) kept
      ]

  pub release-IsValid :
      (jb : JitterBuffer D Ctx) (key : ℕ) (u : Packet Ctx) (now : ℤ)
      → lookup key jb.buf ≡ some u
      → IsValid jb
      → IsValid (release jb key u now)
  unfolding release
  release-IsValid jb key u now e v = record {
    sorted = erase-Ascends key 0 jb.buf v.sorted;
    narrow = erase-KeysBelow key (2 ^ 32) jb.buf v.narrow;
    matching = erase-KeysMatch key jb.buf v.matching;
    next_fits = omega arith;
    bounded = omega (arith, length-erase key u jb.buf e, v.bounded);
    table_bounded = v.table_bounded;
  }

  skip_gap-IsValid :
      (jb : JitterBuffer D Ctx) (m : Map (Packet Ctx)) (now : ℤ) (stats : Metrics)
      → jb.buf ≡ m
      → IsValid jb
      → IsValid (skip_gap jb m now stats).1.after
  unfolding skip_gap
  skip_gap-IsValid jb [] now stats e v = v
  skip_gap-IsValid jb ((head, u) ∷ rest) now stats e v =
      let found : lookup head jb.buf ≡ some u = ap (lookup head) e ∙ lookup_first head u rest in
      release-IsValid (record jb { next_out = head; head_missing_since_us = pos 0 }) head u now
        found
        (record {
          sorted = v.sorted;
          narrow = v.narrow;
          matching = v.matching;
          next_fits = lookup-KeysBelow head (2 ^ 32) u jb.buf v.narrow found;
          bounded = v.bounded;
          table_bounded = v.table_bounded;
        })

  pub note_missing-IsValid :
      (jb : JitterBuffer D Ctx) (now : ℤ) → IsValid jb → IsValid (note_missing jb now)
  unfolding note_missing
  note_missing-IsValid jb now v = ground arith

  head_missing-IsValid :
      (jb : JitterBuffer D Ctx) (now : ℤ) (stats : Metrics)
      → IsValid jb
      → IsValid (head_missing jb now stats).1.after
  unfolding head_missing
  head_missing-IsValid jb now stats v =
      let jb' = note_missing jb now in
      let noted = note_missing-IsValid jb now v in
      ground (arith, noted, skip_gap-IsValid jb' jb'.buf now stats refl noted)

  head_ready-IsValid :
      (jb : JitterBuffer D Ctx) (u : Packet Ctx) (now : ℤ) (stats : Metrics)
      → lookup jb.next_out jb.buf ≡ some u
      → IsValid jb
      → IsValid (head_ready jb u now stats).1.after
  unfolding head_ready
  head_ready-IsValid jb u now stats e v =
      let jb' : JitterBuffer D Ctx = record jb { head_missing_since_us = pos 0 } in
      let same : IsValid jb' = record {
        sorted = v.sorted;
        narrow = v.narrow;
        matching = v.matching;
        next_fits = v.next_fits;
        bounded = v.bounded;
        table_bounded = v.table_bounded;
      } in
      ground (arith, same, release-IsValid jb' jb.next_out u now e same)

  -- `pop` keeps the invariant on each of its branches.
  pop-IsValid :
      (jb : JitterBuffer D Ctx) (now : ℤ) (stats : Metrics)
      → IsValid jb
      → IsValid (pop jb now stats).1.after
  unfolding pop
  pop-IsValid jb now stats v = elim (Bool-cases (not jb.started || is_empty jb.buf)) [
    | inl idle ↦ rw (idle, pop) v
    | inr busy ↦ elim (Option-cases (lookup jb.next_out jb.buf)) [
      | inl gone ↦ rw (busy, gone, pop) (head_missing-IsValid jb now stats v)
      | inr (u, there) ↦ rw (busy, there, pop) (head_ready-IsValid jb u now stats there v)
    ]
  ]
