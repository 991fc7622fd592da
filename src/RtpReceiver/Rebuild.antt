-- ===== src/RtpReceiver/Rebuild.antt =====
-- A frame whose packets have all come is emitted as it was sent.
use rtstream.Prelude.{
  ℕ, suc, ◌+◌, ◌-◌, ◌^◌, ◌≤◌, ◌<◌, ◌≡◌, ◌≢◌, refl, ap, ◌∙◌, sym, Bool, false, List, [], ◌∷◌, ◌++◌,
  none, some, length, length-append, length-replicate, set_middle, replicate, append_assoc,
  is_empty, not-ltb, not-leb, ==_iff, arith,
}
use rtstream.Prelude.Int.{ℤ, pos, ◌*ℤ◌}
use rtstream.Prelude.Maps.{Map}
use rtstream.Wire.Bytes.{Bytes}
use rtstream.Wire.Media.{EncodedFrame}
use rtstream.Rtp.Pack.{Stream, pack}
use rtstream.Rtp.Unpack.{no_bytes, unpack}
use rtstream.Rtp.Scan.{stream}
use rtstream.Rtp.RoundTrip.{AreUnits, longs, any_idr, unpack-pack}
use rtstream.RtpReceiver.{
  FrameState, last_seq, span, complete, place, place_extra, ordered, Emitted, emit,
}

-- Packets under rising numbers.
unfoldable pub numbered : ℕ → List Bytes → Map Bytes
numbered k [] = []
numbered k (p ∷ ps) = (k, p) ∷ numbered (k + 1) ps

length-numbered : (k : ℕ) (ps : List Bytes) → length (numbered k ps) ≡ length ps
unfolding numbered
length-numbered k [] = refl
length-numbered k (p ∷ ps) = ap suc (length-numbered (k + 1) ps)

last_seq-numbered :
    (k : ℕ) (p : Bytes) (ps : List Bytes) → last_seq (numbered k (p ∷ ps)) ≡ k + length ps
unfolding last_seq numbered
last_seq-numbered k p [] = omega arith
last_seq-numbered k p (q ∷ ps) = omega (arith, last_seq-numbered (k + 1) q ps)

-- The packets fill the slots from the first free one on.
place-numbered :
    (first k : ℕ) (done ps : List Bytes)
    → k ≡ first + length done
    → place first (done ++ replicate (length ps) []) (numbered k ps) ≡ some (done ++ ps)
unfolding place numbered
place-numbered first k done [] e = refl
place-numbered first k done (p ∷ ps) e =
    let slots = done ++ replicate (length (p ∷ ps)) [] in
    rw
      (
        not-ltb k first (omega arith),
        not-leb (length slots) (k - first) (
            omega (
              arith,
              length-append done (replicate (length (p ∷ ps)) []),
              length-replicate {A = Bytes} (length (p ∷ ps)) [],
            )),
        set_middle done [] p (replicate (length ps) []) (k - first) (omega arith),
      )
      (place-numbered first (k + 1) (done ++ p ∷ []) ps (omega (arith, length-append done (p ∷ [])))
        ∙ ap some (append_assoc done (p ∷ []) ps))

-- The packets of the frame are `ps`, from its first number on.
abbrev pub Holds : FrameState → List Bytes → Type 0
Holds f ps = (f.raws ≡ numbered f.first_seq ps) × (f.first_seq + length ps ≤ 2 ^ 16)

span-numbered :
    (f : FrameState) (p : Bytes) (ps : List Bytes) → Holds f (p ∷ ps) → span f ≡ length (p ∷ ps)
unfolding span
span-numbered f p ps h = omega (arith, ap last_seq h.0 ∙ last_seq-numbered f.first_seq p ps, h.1)

pub is_empty-numbered :
    (k : ℕ) (p : Bytes) (ps : List Bytes) → is_empty (numbered k (p ∷ ps)) ≡ false
unfolding numbered
is_empty-numbered k p ps = refl

-- The slots are the packets in order, and the frame is complete exactly when its marker was seen.
pub ordered-Holds :
    (f : FrameState) (p : Bytes) (ps : List Bytes)
    → Holds f (p ∷ ps)
    → (ordered f none ≡ some (p ∷ ps)) × (complete f ≡ f.marker_seen)
unfolding ordered complete place_extra
ordered-Holds f p ps h = (
  rw
      (
        ordered,
        ap is_empty h.0 ∙ is_empty-numbered f.first_seq p ps,
        span-numbered f p ps h,
        ap (λ m. place f.first_seq (replicate (length (p ∷ ps)) []) m) h.0,
        place-numbered f.first_seq f.first_seq [] (p ∷ ps) (omega arith),
        ap is_empty h.0 ∙ is_empty-numbered f.first_seq p ps,
      )
      refl,
  rw
      (
        complete,
        (==_iff (length f.raws) (span f)).1
            (ap length h.0 ∙ length-numbered f.first_seq (p ∷ ps) ∙ sym (span-numbered f p ps h)),
      )
      refl,
)

-- The frame that a receiver makes of units.
abbrev pub frame_of : FrameState → List (Bool × Bytes) → ℤ → EncodedFrame
frame_of f us now = record {
  capture_us = f.capture_ms *ℤ pos 1000;
  wall_us = pos 0;
  encode_done_us = now;
  frame_id = f.capture_ms;
  width = 0;
  height = 0;
  keyframe = any_idr us;
  data_bytes = stream (longs us);
}

not_empty :
    (u : Bool × Bytes) (us : List (Bool × Bytes)) → is_empty (stream (longs (u ∷ us))) ≡ false
unfolding stream longs
not_empty (long, nal) us = refl

none_not_empty :
    (u : Bool × Bytes) (us : List (Bool × Bytes)) (b : Bool)
    → unpack no_bytes []
      ≢ record { annexb = stream (longs (u ∷ us)); keyframe = b; fu_active = false }
unfolding unpack
none_not_empty u us b e = cc (ap (λ a. is_empty a.annexb) e, not_empty u us)

emit-packets :
    (f : FrameState) (ps : List Bytes) (u : Bool × Bytes) (us : List (Bool × Bytes)) (now : ℤ)
    → Holds f ps
    → unpack no_bytes ps
      ≡ record { annexb = stream (longs (u ∷ us)); keyframe = any_idr (u ∷ us); fu_active = false }
    → emit f none now ≡ Emitted.frame (frame_of f (u ∷ us) now)
unfolding emit
emit-packets f [] u us now h e = absurd (none_not_empty u us (any_idr (u ∷ us)) e)
emit-packets f (p ∷ ps) u us now h e = rw (emit, (ordered-Holds f p ps h).0, e, not_empty u us) refl

some_packets :
    (ps : List Bytes) (u : Bool × Bytes) (us : List (Bool × Bytes))
    → unpack no_bytes ps
      ≡ record { annexb = stream (longs (u ∷ us)); keyframe = any_idr (u ∷ us); fu_active = false }
    → is_empty ps ≡ false
some_packets [] u us e = absurd (none_not_empty u us (any_idr (u ∷ us)) e)
some_packets (p ∷ ps) u us e = refl

-- A frame with a unit has packets.
pub is_empty-pack :
    (st : Stream) (u : Bool × Bytes) (us : List (Bool × Bytes)) (seq : ℕ)
    → AreUnits (u ∷ us)
    → 14 < st.mtu
    → st.mtu < 2 ^ 64
    → is_empty (pack st (stream (u ∷ us)) seq) ≡ false
is_empty-pack st u us seq units low high =
    some_packets (pack st (stream (u ∷ us)) seq) u us (unpack-pack st (u ∷ us) seq units low high)

pub emit-pack :
    (f : FrameState) (st : Stream) (u : Bool × Bytes) (us : List (Bool × Bytes)) (seq : ℕ) (now : ℤ)
    → AreUnits (u ∷ us)
    → 14 < st.mtu
    → st.mtu < 2 ^ 64
    → Holds f (pack st (stream (u ∷ us)) seq)
    → emit f none now ≡ Emitted.frame (frame_of f (u ∷ us) now)
emit-pack f st u us seq now units low high h =
    emit-packets f (pack st (stream (u ∷ us)) seq) u us now h
      (unpack-pack st (u ∷ us) seq units low high)
