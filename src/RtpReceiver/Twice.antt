-- ===== src/RtpReceiver/Twice.antt =====
-- A complete frame is emitted when its marker comes, stays the current frame, and is emitted again
-- when the next frame begins.
use rtstream.Prelude.{
  ◌≡◌, refl, ap, ◌∙◌, Bool, true, false, not, Option, none, some, is_empty, ◌||◌, if◌then◌else◌,
  ◌>>=◌,
}
use rtstream.Prelude.Int.{ℤ}
use rtstream.Wire.Media.{EncodedFrame}
use rtstream.Rtp.Header.{RtpPkt}
use rtstream.Queue.{Queue}
use rtstream.Queue.Ready.{IsReady, pushed, push-IsReady}
use rtstream.RtpReceiver.{complete, Emitted, emit}
use rtstream.RtpReceiver.Assembly.{
  Assembler, Times, push_out, finalize_frame, start_frame, next_frame,
}

push_out-frame :
    (q : Queue EncodedFrame) (e : EncodedFrame)
    → IsReady q
    → push_out q (Emitted.frame e) ≡ some (pushed q e)
unfolding push_out
push_out-frame q e ready = rw (push_out, (push-IsReady q e ready).0) refl

-- A frame with packets, and nothing missing, which `emit` makes a frame of.
pub record IsDone (a : Assembler) (e : EncodedFrame) (now : ℤ) : Type 0 where
  pub begun : a.cur.started ≡ true
  pub has_packets : is_empty a.cur.raws ≡ false
  pub all_there : complete a.cur ≡ true
  pub emits : emit a.cur none now ≡ Emitted.frame e

take_second :
    (b n c : Bool) (x : Option Assembler) (y z : Option Assembler)
    → b ≡ true
    → n ≡ false
    → c ≡ true
    → (if not b || n then x else if c then y else z) ≡ y
take_second b n c x y z eb en ec = rw (eb, en, ec) refl

pub finalize_frame-IsDone :
    (a : Assembler) (e : EncodedFrame) (explicit : Bool) (t : Times)
    → IsDone a e t.at_emit
    → IsReady a.out
    → finalize_frame explicit t a ≡ some (record a { out = pushed a.out e })
unfolding finalize_frame
finalize_frame-IsDone a e explicit t d ready =
    take_second a.cur.started (is_empty a.cur.raws) (complete a.cur) _ _ _ d.begun d.has_packets
      d.all_there
    ∙ ap (λ o. elim o [ none ↦ none | some q ↦ some (record a { out = q }) ])
        (ap (push_out a.out) d.emits ∙ push_out-frame a.out e ready)

-- When the current frame is complete and `emit` makes a frame of it, the call at its marker pushes that
-- frame, and the packet that begins the next frame pushes it again, with the time of the second
-- call. The queue is open and drops its oldest frame when it is full.
pub finalize_frame-next_frame :
    (a : Assembler) (e later : EncodedFrame) (p : RtpPkt) (t t' : Times)
    → IsDone a e t.at_emit
    → emit a.cur none t'.at_emit ≡ Emitted.frame later
    → IsReady a.out
    → (finalize_frame true t a >>= next_frame p t')
      ≡ some (start_frame p t' (record a { out = pushed (pushed a.out e) later }))
unfolding next_frame
finalize_frame-next_frame a e later p t t' d again ready =
    ap (λ o. o >>= next_frame p t') (finalize_frame-IsDone a e true t d ready)
    ∙ ap (λ o. o >>= λ a'. some (start_frame p t' a'))
        (finalize_frame-IsDone (record a { out = pushed a.out e }) later false t'
          (record {
            begun = d.begun;
            has_packets = d.has_packets;
            all_there = d.all_there;
            emits = again;
          })
          (push-IsReady a.out e ready).1)
