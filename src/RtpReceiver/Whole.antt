-- ===== src/RtpReceiver/Whole.antt =====
-- A run of `assemble_loop` over the packets of one frame, before any frame has begun.
use rtstream.Prelude.{
  ℕ, ◌+◌, ◌^◌, ◌≤◌, ◌<◌, ◌≡◌, refl, ap, ◌∙◌, Bool, true, false, ◌||◌, not, List, [], ◌∷◌, Option,
  none, some, length, is_empty, ◌==◌, if◌then◌else◌, ◌>>=◌, arith,
}
use rtstream.Prelude.Int.{ℤ}
use rtstream.Wire.Bytes.{Bytes}
use rtstream.Wire.Media.{EncodedFrame}
use rtstream.Queue.Ready.{IsReady, pushed}
use rtstream.Rtp.Header.{RtpPkt}
use rtstream.Rtp.Pack.{Stream, pack}
use rtstream.Rtp.Scan.{stream}
use rtstream.Rtp.RoundTrip.{AreUnits}
use rtstream.Rtp.Numbers.{heard, packets_from, heard-pack}
use rtstream.RtpReceiver.{FrameState, no_frame, complete, Emitted, emit}
use rtstream.RtpReceiver.Assembly.{
  Assembler, Times, finalize_frame, start_frame, begins, next_frame, assemble,
}
use rtstream.RtpReceiver.Rebuild.{
  numbered, is_empty-numbered, is_empty-pack, ordered-Holds, frame_of, emit-pack,
}
use rtstream.RtpReceiver.Run.{run, part, packet, assemble-after, length-packets_from, Emits, rounds}

take_first :
    (b : Bool) (n c : Bool) (x y z : Option Assembler)
    → b ≡ false
    → (if not b || n then x else if c then y else z) ≡ x
take_first b n c x y z e = rw e refl

-- The first packet begins the frame.
opens :
    (st : Stream) (ms : ℤ) (k : ℕ) (last : Bool) (raw : Bytes) (t : Times) (a b : Assembler)
    → begins (packet st ms k last raw) a.cur ≡ true
    → finalize_frame false t a ≡ some b
    → k < 2 ^ 16
    → (if begins (packet st ms k last raw) a.cur
        then next_frame (packet st ms k last raw) t a
        else some a)
      ≡ some (record b { cur = part st ms t.at_first k false [] })
unfolding next_frame start_frame numbered
opens st ms k last raw t a b new finished lt =
    ap (λ c. if c then next_frame (packet st ms k last raw) t a else some a) new
    ∙ ap (λ o. o >>= λ a'. some (start_frame (packet st ms k last raw) t a')) finished
    ∙ ap {A = ℕ} {B = Option Assembler}
        (λ n. some (record b { cur = part st ms t.at_first n false [] })) (omega arith)

-- A frame's packets, where the first begins a frame and what was there before is finished as `b`.
run-frame :
    (clock : ℕ → Times) (st : Stream) (ms : ℤ) (k : ℕ) (a b : Assembler) (e : EncodedFrame)
    (raw : Bytes) (raws : List Bytes)
    → b.zombies ≡ []
    → IsReady b.out
    → begins (packet st ms k (is_empty raws) raw) a.cur ≡ true
    → finalize_frame false (clock (length raws)) a ≡ some b
    → k + length raws < 2 ^ 16
    → Emits clock (part st ms (clock (length raws)).at_first k true (raw ∷ raws)) e
    → run clock (packets_from st ms k (raw ∷ raws)) a
      ≡ some (record b {
        cur = part st ms (clock (length raws)).at_first k true (raw ∷ raws);
        out = pushed b.out e;
      })
unfolding run packets_from
run-frame clock st ms k a b e raw raws z ready new finished lt emits =
    let p = packet st ms k (is_empty raws) raw in
    let seen = (clock (length raws)).at_first in
    let s : Assembler = record b { cur = part st ms seen k false [] } in
    ap (λ n. assemble p (clock n) a >>= run clock (packets_from st ms (k + 1) raws))
      (length-packets_from st ms (k + 1) raws)
    ∙ ap (λ o. o >>= run clock (packets_from st ms (k + 1) raws))
        (assemble-after p (clock (length raws)) a s
          (opens st ms k (is_empty raws) raw (clock (length raws)) a b new finished (omega arith)))
    ∙ rounds clock st ms seen k b e z ready [] raw raws k (omega arith) lt emits

finalize_frame-idle :
    (explicit : Bool) (t : Times) (a : Assembler)
    → a.cur.started ≡ false
    → finalize_frame explicit t a ≡ some a
unfolding finalize_frame
finalize_frame-idle explicit t a e =
    take_first a.cur.started (is_empty a.cur.raws) (complete a.cur) _ _ _ e

begins-idle : (p : RtpPkt) (f : FrameState) → f.started ≡ false → begins p f ≡ true
unfolding begins
begins-idle p f e = ap (λ b. not b || not (p.ts == f.ts)) e

-- The frame that the receiver makes of units whose packets it received with the capture time `ms`.
abbrev pub made : ℤ → List (Bool × Bytes) → ℤ → EncodedFrame
made ms us now = frame_of (record no_frame { capture_ms = ms }) us now

run-heard :
    (clock : ℕ → Times) (st : Stream) (ms : ℤ) (k : ℕ) (a : Assembler) (e : EncodedFrame)
    (ps : List Bytes)
    → is_empty ps ≡ false
    → a.cur.started ≡ false
    → a.zombies ≡ []
    → IsReady a.out
    → k + length ps ≤ 2 ^ 16
    → ((seen : ℤ) → emit (part st ms seen k true ps) none (clock 0).at_emit ≡ Emitted.frame e)
    → (seen : ℤ) × (run clock (packets_from st ms k ps) a
        ≡ some (record a { cur = part st ms seen k true ps; out = pushed a.out e }))
run-heard clock st ms k a e [] no_ps idle z ready le emits = cc
run-heard clock st ms k a e (raw ∷ raws) no_ps idle z ready le emits =
    let seen = (clock (length raws)).at_first in
    let f = part st ms seen k true (raw ∷ raws) in
    (
      seen,
      run-frame clock st ms k a a e raw raws z ready
          (begins-idle (packet st ms k (is_empty raws) raw) a.cur idle)
          (finalize_frame-idle false (clock (length raws)) a idle) (omega arith)
          (
            is_empty-numbered k raw raws,
            (ordered-Holds f raw raws (refl, omega arith)).1,
            emits seen,
          ),
    )

-- Before any frame has begun, `assemble_loop` makes of the packets of a stream of units, in order, the frame
-- with exactly these units, each behind a start code of four bytes, a key frame exactly when one of them
-- has type 5, and with the capture time `ms` that the packets were received with. It pushes this frame when
-- the last packet comes, and keeps the packets as its current frame. The frame has a unit, and its units are as an encoder makes them; the MTU leaves room for a
-- fragment, the time stamp has 32 bits, the packets' numbers do not wrap; nothing waits for
-- recovery, and the queue is open and drops its oldest frame when it is full.
pub run-pack :
    (clock : ℕ → Times) (st : Stream) (ms : ℤ) (u : Bool × Bytes) (us : List (Bool × Bytes)) (k : ℕ)
    (a : Assembler)
    → AreUnits (u ∷ us)
    → 14 < st.mtu
    → st.mtu < 2 ^ 64
    → st.timestamp < 2 ^ 32
    → k + length (pack st (stream (u ∷ us)) k) ≤ 2 ^ 16
    → a.cur.started ≡ false
    → a.zombies ≡ []
    → IsReady a.out
    → (seen : ℤ) × (run clock (heard ms (pack st (stream (u ∷ us)) k)) a
        ≡ some (record a {
          cur = part st ms seen k true (pack st (stream (u ∷ us)) k);
          out = pushed a.out (made ms (u ∷ us) (clock 0).at_emit);
        }))
run-pack clock st ms u us k a units low high ts le idle z ready =
    rw (heard-pack st ms (stream (u ∷ us)) k ts) (
      run-heard clock st ms k a (made ms (u ∷ us) (clock 0).at_emit) (pack st (stream (u ∷ us)) k)
        (is_empty-pack st u us k units low high) idle z ready le
        (λ seen.
          emit-pack (part st ms seen k true (pack st (stream (u ∷ us)) k)) st u us k
            (clock 0).at_emit units low high (refl, le)))
