-- ===== src/Jitter/Order.antt =====
-- What the buffer hands out comes in order, as long as the numbers do not wrap and do not jump.
use mathlib.Core.Bool.{true≢false}
use rtstream.Prelude.{
  ℕ, ◌+◌, ◌^◌, ◌≤◌, ◌<◌, ◌≡◌, refl, ◌∙◌, sym, Bool, true, false, ◌&&◌, inl, inr, [], Bool-cases,
  arith,
}
use rtstream.Prelude.Int.{ℤ}
use rtstream.Prelude.Maps.{Ascends, KeysBelow, insert-Ascends, insert-KeysBelow}
use rtstream.Stats.{Metrics}
use rtstream.Jitter.Double.{Double}
use rtstream.Jitter.State.{seq_lt, seq_delta, Packet, JitterBuffer}
use rtstream.Jitter.Missing.{detect_missing, evict_overflow}
use rtstream.Jitter.Keys.{KeysMatch, insert-KeysMatch, evict_loop-sub}
use rtstream.Jitter.Agree.{Agree, observe-Agree, detect_missing-Agree}
use rtstream.Jitter.Push.{push, start, observe, store}
use rtstream.Jitter.Bounds.{IsValid, push-IsValid}

in_front : (a b : ℕ) → a < 2 ^ 31 → b ≤ 2 ^ 31 → seq_lt a b ≡ false → b ≤ a
in_front a b h k e = ground arith

not_late : (on late : Bool) → on ≡ true → (on && late) ≡ false → late ≡ false
not_late on late e h = ground arith

module _ {D : Double} {Ctx : Type 0} where
  -- No packet in the buffer is behind the next one to go out, and no number is near the wrap.
  pub record IsOrdered (jb : JitterBuffer D Ctx) : Type 0 where
    pub valid : IsValid jb
    pub ahead : Ascends jb.next_out jb.buf
    pub low : KeysBelow (2 ^ 31) jb.buf
    pub next_low : jb.next_out ≤ 2 ^ 31
    pub fresh : jb.started ≡ false → jb.buf ≡ []
    pub fresh_out : jb.started ≡ false → jb.next_out ≡ 0

  -- What holds of the buffer between the steps of a `push` that starts from `lo`.
  record Holds (lo : ℕ) (jb : JitterBuffer D Ctx) : Type 0 where
    ahead : Ascends lo jb.buf
    low : KeysBelow (2 ^ 31) jb.buf
    matching : KeysMatch jb.buf
    next_is : jb.next_out ≡ lo
    begun : jb.started ≡ true

  Agree-Holds : (lo : ℕ) {jb jb' : JitterBuffer D Ctx} → Agree jb jb' → Holds lo jb → Holds lo jb'
  Agree-Holds lo p h = record {
    ahead = rw p.buf h.ahead;
    low = rw p.buf h.low;
    matching = rw p.buf h.matching;
    next_is = p.next_out ∙ h.next_is;
    begun = p.started ∙ h.begun;
  }

  -- A packet that `push` may take: below the wrap, and not far ahead of the output.
  abbrev pub IsNear : JitterBuffer D Ctx → ℕ → Type 0
  IsNear jb seq = (seq < 2 ^ 31) × (jb.started ≡ true → seq ≤ jb.next_out + 1024)

  start_again :
      (jb : JitterBuffer D Ctx) (seq : ℕ) (now : ℤ) → jb.started ≡ true → start jb seq now ≡ jb
  unfolding start
  start_again jb seq now e = ground arith

  start_first :
      (jb : JitterBuffer D Ctx) (seq : ℕ) (now : ℤ)
      → jb.started ≡ false
      → start jb seq now ≡ record jb { started = true; next_out = seq; first_arrival_us = now }
  unfolding start
  start_first jb seq now e = ground arith

  -- Where the output stands once `push` has started: at `lo`, at most 1024 behind the packet.
  record Begins (jb jb' : JitterBuffer D Ctx) (seq lo : ℕ) : Type 0 where
    holds : Holds lo jb'
    behind : lo ≤ seq
    close : seq ≤ lo + 1024
    stays : jb.started ≡ true → lo ≡ jb.next_out

  start-Begins :
      (jb : JitterBuffer D Ctx) (seq : ℕ) (now : ℤ)
      → IsOrdered jb
      → IsNear jb seq
      → (jb.started && seq_lt seq jb.next_out) ≡ false
      → (lo : ℕ) × Begins jb (start jb seq now) seq lo
  start-Begins jb seq now v near fine = elim (Bool-cases jb.started) [
    | inl on ↦ (
      jb.next_out,
      rw (start_again jb seq now on) (record {
        holds = record {
          ahead = v.ahead;
          low = v.low;
          matching = v.valid.matching;
          next_is = refl;
          begun = on;
        };
        behind = in_front seq jb.next_out near.0 v.next_low (not_late jb.started _ on fine);
        close = near.1 on;
        stays = λ _. refl;
      }),
    )
    | inr off ↦
        let none_yet = v.fresh off in
        (
          seq,
          rw (start_first jb seq now off) (record {
            holds = record {
              ahead = rw none_yet tt;
              low = rw none_yet tt;
              matching = rw none_yet tt;
              next_is = refl;
              begun = refl;
            };
            behind = omega arith;
            close = omega arith;
            stays = λ on. cc;
          }),
        )
  ]

  store-Holds :
      (jb : JitterBuffer D Ctx) (seq lo : ℕ) (gen now : ℤ) (c : Ctx)
      → lo ≤ seq
      → seq < 2 ^ 31
      → Holds lo jb
      → Holds lo (store jb seq gen now c)
  unfolding store
  store-Holds jb seq lo gen now c h small v =
      let u : Packet Ctx = record { seq = seq; gen_us = gen; first_recv_us = now; content = c } in
      ground (
        arith,
        insert-Ascends seq lo u jb.buf h v.ahead,
        insert-KeysBelow seq (2 ^ 31) u jb.buf small v.low,
        insert-KeysMatch seq u jb.buf refl v.matching,
      )

  evict_overflow-Holds :
      (jb : JitterBuffer D Ctx) (lo : ℕ) (stats : Metrics)
      → Holds lo jb
      → Holds lo (evict_overflow jb stats).0
  unfolding evict_overflow
  evict_overflow-Holds jb lo stats v =
      let rest =
        evict_loop-sub jb.max_units lo (2 ^ 31) stats.net_lost jb.buf v.ahead v.low v.matching in
      record {
        ahead = rest.0;
        low = rest.1;
        matching = rest.2;
        next_is = v.next_is;
        begun = v.begun;
      }

  -- A packet behind the output is refused, and nothing changes.
  pub push_late :
      (jb : JitterBuffer D Ctx) (seq : ℕ) (gen : ℤ) (c : Ctx) (now : ℤ) (stats : Metrics)
      → (jb.started && seq_lt seq jb.next_out) ≡ true
      → push jb seq gen c now stats ≡ (false, record { after = jb; asked = []; stats = stats })
  unfolding push
  push_late jb seq gen c now stats late = rw (late, push) refl

  push_accepted :
      (jb : JitterBuffer D Ctx) (seq : ℕ) (gen : ℤ) (c : Ctx) (now : ℤ) (stats : Metrics)
      → IsOrdered jb
      → IsNear jb seq
      → (jb.started && seq_lt seq jb.next_out) ≡ false
      → (lo : ℕ) × Holds lo (push jb seq gen c now stats).1.after
        × (lo ≤ seq)
        × (jb.started ≡ true → lo ≡ jb.next_out)
  unfolding push
  push_accepted jb seq gen c now stats v near fine =
      let (lo, begins) = start-Begins jb seq now v near fine in
      let seen = Agree-Holds lo (observe-Agree (start jb seq now) seq gen now) begins.holds in
      let stored = store (observe (start jb seq now) seq gen now) seq gen now c in
      let held =
        store-Holds (observe (start jb seq now) seq gen now) seq lo gen now c begins.behind near.0
          seen in
      let close : seq_delta seq stored.next_out ≤ 1024 =
        rw held.next_is (omega (arith, begins.behind, begins.close, near.0)) in
      let found = detect_missing stored seq now stats in
      let kept =
        evict_overflow-Holds found.after lo found.stats
          (Agree-Holds lo (detect_missing-Agree stored seq now stats close) held) in
      (lo, rw (fine, push) kept, begins.behind, begins.stays)

  -- A packet below 2^31 that is at most 1024 ahead of the output leaves the buffer in order and,
  -- once it is started, the output where it was; a packet behind the output changes nothing.
  pub push-IsOrdered :
      (jb : JitterBuffer D Ctx) (seq : ℕ) (gen : ℤ) (c : Ctx) (now : ℤ) (stats : Metrics)
      → IsOrdered jb
      → IsNear jb seq
      → IsOrdered (push jb seq gen c now stats).1.after
        × (jb.started ≡ true → (push jb seq gen c now stats).1.after.next_out ≡ jb.next_out)
  push-IsOrdered jb seq gen c now stats v near =
      elim (Bool-cases (jb.started && seq_lt seq jb.next_out)) [
        | inl late ↦ rw (push_late jb seq gen c now stats late) (v, λ _. refl)
        | inr fine ↦
            let (lo, h, behind, stays) = push_accepted jb seq gen c now stats v near fine in
            (
              record {
                valid = push-IsValid jb seq gen c now stats (omega (arith, near.0)) v.valid;
                ahead = rw h.next_is h.ahead;
                low = h.low;
                next_low = rw h.next_is (omega (arith, behind, near.0));
                fresh = λ off. absurd (true≢false (sym h.begun ∙ off));
                fresh_out = λ off. absurd (true≢false (sym h.begun ∙ off));
              },
              λ on. h.next_is ∙ stays on,
            )
      ]
