-- ===== src/Jitter/Stall.antt =====
-- The buffer behind the wrap of 16-bit RTP numbers.
use rtstream.Prelude.{ℕ, ◌^◌, ◌<◌, ◌≡◌, refl, ap, ◌∙◌, true, ◌&&◌, List, [], ◌∷◌, none, arith}
use rtstream.Prelude.Int.{ℤ}
use rtstream.Stats.{Metrics}
use rtstream.Jitter.Double.{Double}
use rtstream.Jitter.State.{seq_lt, JitterBuffer}
use rtstream.Jitter.Pop.{pop}
use rtstream.Jitter.Order.{push_late}
use rtstream.Jitter.Run.{Event, arrives, asks, run}

-- Every packet of the run has a 16-bit number, as the RTP receiver's have.
abbrev pub AreRtp : {Ctx : Type 0} → List (Event Ctx) → Type 0
AreRtp [] = Unit {0}
AreRtp (arrives seq gen c now ∷ es) = (seq < 2 ^ 16) × AreRtp es
AreRtp (asks now ∷ es) = AreRtp es

behind_wrap : (seq : ℕ) → seq < 2 ^ 16 → seq_lt seq (2 ^ 16) ≡ true
behind_wrap seq h = ground arith

module _ {D : Double} {Ctx : Type 0} where
  pop_empty :
      (jb : JitterBuffer D Ctx) (now : ℤ) (stats : Metrics)
      → jb.buf ≡ []
      → pop jb now stats ≡ (none, record { after = jb; asked = []; stats = stats })
  unfolding pop
  pop_empty jb now stats e = ground arith

  -- Once the packet with RTP number 65535 has gone out and the buffer is empty, no packet with a
  -- 16-bit number is ever taken or handed out again, however long the run.
  pub run_after_wrap :
      (jb : JitterBuffer D Ctx) (stats : Metrics) (es : List (Event Ctx))
      → jb.started ≡ true
      → jb.next_out ≡ 2 ^ 16
      → jb.buf ≡ []
      → AreRtp es
      → run jb stats es ≡ []
  unfolding run
  run_after_wrap jb stats [] on at e r = refl
  run_after_wrap jb stats (arrives seq gen c now ∷ es) on at e (h, r) =
      let late : (jb.started && seq_lt seq jb.next_out) ≡ true =
        ap (λ n. jb.started && seq_lt seq n) at
        ∙ ap (λ b. b && seq_lt seq (2 ^ 16)) on
        ∙ behind_wrap seq h in
      rw (push_late jb seq gen c now stats late) (run_after_wrap jb stats es on at e r)
  run_after_wrap jb stats (asks now ∷ es) on at e r =
      rw (pop_empty jb now stats e) (run_after_wrap jb stats es on at e r)
