-- ===== src/Jitter/Delivery.antt =====
-- What `pop` hands out, and that a whole run hands packets out in strictly rising order.
use mathlib.Core.Bool.{true≢false}
use rtstream.Prelude.{
  ℕ, suc, ◌+◌, ◌%◌, ◌^◌, ◌≤◌, ◌≡◌, refl, ap, subst, ◌∙◌, sym, Bool, true, false, ◌&&◌, ◌||◌, not,
  is_empty, inl, inr, [], ◌∷◌, Option, none, some, Bool-cases, Option-cases, arith,
}
use rtstream.Prelude.Int.{ℤ, pos, ◌-ℤ◌, ltb_ℤ}
use rtstream.Prelude.Maps.{Map, lookup, Ascends, erase-KeysBelow, erase_least-Ascends, lookup_first}
use rtstream.Stats.{Metrics}
use rtstream.Jitter.Double.{Double}
use rtstream.Jitter.State.{Packet, JitterBuffer}
use rtstream.Jitter.Keys.{lookup-KeysMatch, lookup-KeysBelow}
use rtstream.Jitter.Agree.{Agree}
use rtstream.Jitter.Pop.{pop, release, skip_gap, note_missing, head_missing, head_ready, starved}
use rtstream.Jitter.Order.{IsOrdered}
use rtstream.Jitter.Bounds.{IsValid, release-IsValid, note_missing-IsValid}

is_started : (on empty : Bool) → (not on || empty) ≡ false → on ≡ true
is_started on empty h = ground arith

module _ {D : Double} {Ctx : Type 0} where
  -- Packet `u` goes out: it was in the buffer, not behind the output, which goes on after it.
  pub record Gives (jb : JitterBuffer D Ctx) (u : Packet Ctx) (after : JitterBuffer D Ctx)
      : Type 0 where
    pub was_there : lookup u.seq jb.buf ≡ some u
    pub not_behind : jb.next_out ≤ u.seq
    pub goes_on : after.next_out ≡ suc u.seq
    pub ordered : IsOrdered after

  pub data Popped (jb : JitterBuffer D Ctx) (r : Option (Packet Ctx)) (after : JitterBuffer D Ctx)
      : Type 0 where
    quiet : r ≡ none → after.next_out ≡ jb.next_out → IsOrdered after → Popped jb r after
    gives : (u : Packet Ctx) → r ≡ some u → Gives jb u after → Popped jb r after

  -- Releasing the least packet of an ordered buffer.
  release-Gives :
      (jb jb' : JitterBuffer D Ctx) (key : ℕ) (u : Packet Ctx) (now : ℤ)
      → IsOrdered jb
      → jb.started ≡ true
      → jb'.buf ≡ jb.buf
      → jb'.started ≡ jb.started
      → IsValid (release jb' key u now)
      → lookup key jb.buf ≡ some u
      → jb.next_out ≤ key
      → Ascends key jb.buf
      → Gives jb u (release jb' key u now)
  unfolding release
  release-Gives jb jb' key u now v on same same_on valid found ge least =
      let at_key = lookup-KeysMatch key u jb.buf v.valid.matching found in
      let small = lookup-KeysBelow key (2 ^ 31) u jb.buf v.low found in
      let next : (u.seq + 1) % 2 ^ 32 ≡ suc u.seq = omega arith in
      record {
        was_there = subst (λ k. lookup k jb.buf ≡ some u) (sym at_key) found;
        not_behind = omega arith;
        goes_on = next;
        ordered = record {
          valid = valid;
          ahead = rw (next, at_key, same) (erase_least-Ascends key u jb.buf least found);
          low = rw same (erase-KeysBelow key (2 ^ 31) jb.buf v.low);
          next_low = rw (next, at_key) small;
          fresh = λ off. absurd (true≢false (sym on ∙ sym same_on ∙ off));
          fresh_out = λ off. absurd (true≢false (sym on ∙ sym same_on ∙ off));
        };
      }

  Agree-IsOrdered :
      {jb jb' : JitterBuffer D Ctx} → Agree jb jb' → IsValid jb' → IsOrdered jb → IsOrdered jb'
  Agree-IsOrdered p valid v = record {
    valid = valid;
    ahead = rw (p.buf, p.next_out) v.ahead;
    low = rw p.buf v.low;
    next_low = rw p.next_out v.next_low;
    fresh = λ off. p.buf ∙ v.fresh (sym p.started ∙ off);
    fresh_out = λ off. p.next_out ∙ v.fresh_out (sym p.started ∙ off);
  }

  note_missing-Agree : (jb : JitterBuffer D Ctx) (now : ℤ) → Agree jb (note_missing jb now)
  unfolding note_missing
  note_missing-Agree jb now = ground arith

  skip_gap-Popped :
      (jb jb' : JitterBuffer D Ctx) (m : Map (Packet Ctx)) (now : ℤ) (stats : Metrics)
      → jb.buf ≡ m
      → Agree jb jb'
      → IsOrdered jb
      → IsValid jb'
      → jb.started ≡ true
      → Popped jb (skip_gap jb' m now stats).0 (skip_gap jb' m now stats).1.after
  unfolding skip_gap
  skip_gap-Popped jb jb' [] now stats e p v w on = quiet refl p.next_out (Agree-IsOrdered p w v)
  skip_gap-Popped jb jb' ((head, u) ∷ rest) now stats e p v w on =
      let found : lookup head jb.buf ≡ some u = ap (lookup head) e ∙ lookup_first head u rest in
      let found' : lookup head jb'.buf ≡ some u = ap (lookup head) p.buf ∙ found in
      let ascends : Ascends jb.next_out ((head, u) ∷ rest) =
        subst (Ascends jb.next_out) e v.ahead in
      let moved : JitterBuffer D Ctx = record jb' {
        next_out = head;
        head_missing_since_us = pos 0;
      } in
      let valid : IsValid moved = record {
        sorted = w.sorted;
        narrow = w.narrow;
        matching = w.matching;
        next_fits = lookup-KeysBelow head (2 ^ 32) u jb'.buf w.narrow found';
        bounded = w.bounded;
        table_bounded = w.table_bounded;
      } in
      gives u refl (
        release-Gives jb moved head u now v on p.buf p.started
          (release-IsValid moved head u now found' valid) found ascends.0
          (subst (Ascends head) (sym e) (omega arith, ascends.1)))

  head_missing-Popped :
      (jb : JitterBuffer D Ctx) (now : ℤ) (stats : Metrics)
      → IsOrdered jb
      → jb.started ≡ true
      → Popped jb (head_missing jb now stats).0 (head_missing jb now stats).1.after
  unfolding head_missing
  head_missing-Popped jb now stats v on =
      let jb' = note_missing jb now in
      let p = note_missing-Agree jb now in
      let w = note_missing-IsValid jb now v.valid in
      elim (Bool-cases
        (ltb_ℤ (now -ℤ jb'.head_missing_since_us) jb'.max_wait_us && not (starved jb now))) [
          | inl wait ↦ rw (wait, head_missing) (quiet refl p.next_out (Agree-IsOrdered p w v))
          | inr skip ↦
              rw (skip, head_missing)
                (skip_gap-Popped jb jb' jb'.buf now stats (sym p.buf) p v w on)
        ]

  head_ready-Popped :
      (jb : JitterBuffer D Ctx) (u : Packet Ctx) (now : ℤ) (stats : Metrics)
      → IsOrdered jb
      → jb.started ≡ true
      → lookup jb.next_out jb.buf ≡ some u
      → Popped jb (head_ready jb u now stats).0 (head_ready jb u now stats).1.after
  unfolding head_ready
  head_ready-Popped jb u now stats v on found =
      let jb' : JitterBuffer D Ctx = record jb { head_missing_since_us = pos 0 } in
      let p : Agree jb jb' = record { buf = refl; next_out = refl; started = refl } in
      let w : IsValid jb' = record {
        sorted = v.valid.sorted;
        narrow = v.valid.narrow;
        matching = v.valid.matching;
        next_fits = v.valid.next_fits;
        bounded = v.valid.bounded;
        table_bounded = v.valid.table_bounded;
      } in
      elim (Bool-cases
        (ltb_ℤ (now -ℤ u.first_recv_us) jb.target_delay_us && not (starved jb now))) [
          | inl wait ↦ rw (wait, head_ready) (quiet refl refl (Agree-IsOrdered p w v))
          | inr go ↦
              rw (go, head_ready)
                (gives u refl (
                  release-Gives jb jb' jb.next_out u now v on refl refl
                    (release-IsValid jb' jb.next_out u now found w) found (omega arith) v.ahead))
        ]

  -- From an ordered buffer, `pop` either hands out nothing and leaves the output where it is, or
  -- hands out a packet of the buffer that is not behind the output, which goes on just after it.
  pub pop-Popped :
      (jb : JitterBuffer D Ctx) (now : ℤ) (stats : Metrics)
      → IsOrdered jb
      → Popped jb (pop jb now stats).0 (pop jb now stats).1.after
  unfolding pop
  pop-Popped jb now stats v = elim (Bool-cases (not jb.started || is_empty jb.buf)) [
    | inl idle ↦ rw (idle, pop) (quiet refl refl v)
    | inr busy ↦
        let on : jb.started ≡ true = is_started jb.started (is_empty jb.buf) busy in
        elim (Option-cases (lookup jb.next_out jb.buf)) [
          | inl gone ↦ rw (busy, gone, pop) (head_missing-Popped jb now stats v on)
          | inr (u, there) ↦ rw (busy, there, pop) (head_ready-Popped jb u now stats v on there)
        ]
  ]
