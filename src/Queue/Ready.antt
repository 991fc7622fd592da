-- ===== src/Queue/Ready.antt =====
-- A queue that its owner can always push into: it is open and drops its oldest item when it is full,
-- as the queues between a receiver and its decoder do.
use rtstream.Prelude.{ℕ, ◌^◌, ◌<◌, ◌≡◌, refl, ap, subst, ◌∙◌, sym, true, false, arith}
use rtstream.Queue.{Queue, Pushed, new, try_push, push}
use rtstream.Queue.Laws.{IsBounded, try_push-Appends}

module _ {ℓ} {A : Type ℓ} where
  pub record IsReady (q : Queue A) : Type ℓ where
    pub bounded : IsBounded q
    pub stays_open : q.is_closed ≡ false
    pub drops : q.drop_old ≡ true
    pub counted : q.drop_count < 2 ^ 64

  -- What a push leaves of the queue.
  unfoldable pub pushed : Queue A → A → Queue A
  pushed q v = elim (push q v) [
    | Pushed.pushed r ↦ r
    | Pushed.refused ↦ q
    | Pushed.waits ↦ q
    | Pushed.fault ↦ q
  ]

  push-drops :
      (q : Queue A) (v : A) → q.is_closed ≡ false → q.drop_old ≡ true → push q v ≡ try_push q v
  unfolding push
  push-drops q v o d = rw (o, d) refl

  pushed-eq : (q r : Queue A) (v : A) → push q v ≡ Pushed.pushed r → pushed q v ≡ r
  unfolding pushed
  pushed-eq q r v e = rw (pushed, e) refl

  -- Each push succeeds, and the queue stays ready.
  pub push-IsReady :
      (q : Queue A) (v : A)
      → IsReady q
      → (push q v ≡ Pushed.pushed (pushed q v)) × IsReady (pushed q v)
  push-IsReady q v ready =
      let (r, e, a) = try_push-Appends q v ready.bounded ready.stays_open ready.counted in
      let same = push-drops q v ready.stays_open ready.drops ∙ e in
      let is_r = sym (pushed-eq q r v same) in
      (
        same ∙ ap Pushed.pushed is_r,
        subst IsReady is_r (record {
          bounded = a.bounded;
          stays_open = a.stays_open;
          drops = a.same_mode ∙ ready.drops;
          counted = omega (arith, a.count);
        }),
      )

  -- A new queue with room that drops its oldest item is ready.
  pub new-IsReady : (capacity : ℕ) → 0 < capacity → IsReady (new {A = A} capacity true)
  unfolding new
  new-IsReady capacity room = record {
    bounded = record { room = room; within = omega (arith, room) };
    stays_open = refl;
    drops = refl;
    counted = omega arith;
  }
