-- ===== src/Rtp/RoundTrip.antt =====
-- A frame, packed into RTP packets and put together again.
use rtstream.Prelude.{
  ℕ, zero, suc, ◌+◌, ◌≤◌, ◌<◌, ◌^◌, ◌≡◌, ◌≢◌, refl, ap, ◌∙◌, sym, Bool, true, false, ◌||◌, List, [],
  ◌∷◌, ◌++◌, bit_and, length, length-append, append_assoc, append-nil, arith,
}
use rtstream.Wire.Bytes.{Bytes, byte_at}
use rtstream.Rtp.Header.{mark}
use rtstream.Rtp.Pack.{Stream, pack_nal, pack_loop, mark_last, pack}
use rtstream.Rtp.Unpack.{Assembly, no_bytes, start_code, is_idr, unpack_step, unpack}
use rtstream.Rtp.Scan.{clean, stream, next_nalu-stream}
use rtstream.Rtp.Fragments.{add_nal, unpack-pack_nal}

-- A NAL unit as an encoder makes it: not empty, without start codes, and of a type that is not the
-- number of FU-A.
pub record IsUnit (nal : Bytes) : Type 0 where
  pub is_clean : clean nal ≡ true
  pub not_empty : 0 < length nal
  pub header_fits : byte_at nal 0 < 256
  pub type_is_single : bit_and (byte_at nal 0) 0x1f ≢ 28

abbrev pub AreUnits : List (Bool × Bytes) → Type 0
AreUnits [] = Unit {0}
AreUnits ((long, nal) ∷ us) = IsUnit nal × AreUnits us

-- The units behind start codes of four bytes.
unfoldable pub longs : List (Bool × Bytes) → List (Bool × Bytes)
longs [] = []
longs ((long, nal) ∷ us) = (true, nal) ∷ longs us

unfoldable pub any_idr : List (Bool × Bytes) → Bool
any_idr [] = false
any_idr ((long, nal) ∷ us) = is_idr (byte_at nal 0) || any_idr us

unpack-append : (a : Assembly) (ps qs : List Bytes) → unpack a (ps ++ qs) ≡ unpack (unpack a ps) qs
unfolding unpack
unpack-append a [] qs = refl
unpack-append a (p ∷ ps) qs = unpack-append (unpack_step a p) ps qs

unpack_step-mark : (a : Assembly) (raw : Bytes) → unpack_step a (mark raw) ≡ unpack_step a raw
unfolding unpack_step mark
unpack_step-mark a [] = refl
unpack_step-mark a (x ∷ []) = refl
unpack_step-mark a (x ∷ y ∷ rest) = refl

unpack-mark_last : (a : Assembly) (ps : List Bytes) → unpack a (mark_last ps) ≡ unpack a ps
unfolding unpack mark_last
unpack-mark_last a [] = refl
unpack-mark_last a (p ∷ []) = unpack_step-mark a p
unpack-mark_last a (p ∷ q ∷ ps) = unpack-mark_last (unpack_step a p) (q ∷ ps)

or_assoc : (a b c : Bool) → ((a || b) || c) ≡ (a || (b || c))
or_assoc true b c = refl
or_assoc false b c = refl

or-false : (a : Bool) → (a || false) ≡ a
or-false true = refl
or-false false = refl

-- What units add to a frame.
abbrev pub whole : Assembly → List (Bool × Bytes) → Assembly
whole a us = record {
  annexb = a.annexb ++ stream (longs us);
  keyframe = a.keyframe || any_idr us;
  fu_active = false;
}

whole-add_nal :
    (a : Assembly) (long : Bool) (nal : Bytes) (us : List (Bool × Bytes))
    → whole (add_nal a nal) us ≡ whole a ((long, nal) ∷ us)
unfolding add_nal stream longs any_idr
whole-add_nal a long nal us = λ i. record {
  annexb = (append_assoc a.annexb (start_code ++ nal) (stream (longs us))) i;
  keyframe = or_assoc a.keyframe (is_idr (byte_at nal 0)) (any_idr us) i;
  fu_active = false;
}

whole-nil : (a : Assembly) → a.fu_active ≡ false → a ≡ whole a []
unfolding stream longs any_idr
whole-nil a off = λ i. record {
  annexb = sym (append-nil a.annexb) i;
  keyframe = sym (or-false a.keyframe) i;
  fu_active = off i;
}

pack_loop-nil : (n : ℕ) (st : Stream) (seq : ℕ) → pack_loop n st [] seq ≡ []
unfolding pack_loop
pack_loop-nil zero st seq = refl
pack_loop-nil (suc n) st seq = refl

-- A round of the loop, for a stream that has a unit.
pack_loop-stream :
    (n : ℕ) (st : Stream) (long : Bool) (nal : Bytes) (us : List (Bool × Bytes)) (seq : ℕ)
    → IsUnit nal
    → pack_loop (suc n) st (stream ((long, nal) ∷ us)) seq
      ≡ pack_nal st nal seq ++ pack_loop n st (stream us) (seq + length (pack_nal st nal seq))
unfolding pack_loop stream
pack_loop-stream n st true nal us seq u =
    rw (pack_loop, next_nalu-stream true nal us u.is_clean u.not_empty) refl
pack_loop-stream n st false nal us seq u =
    rw (pack_loop, next_nalu-stream false nal us u.is_clean u.not_empty) refl

length-stream :
    (long : Bool) (nal : Bytes) (us : List (Bool × Bytes))
    → length (stream us) < length (stream ((long, nal) ∷ us))
unfolding stream
length-stream true nal us = omega (arith, length-append nal (stream us))
length-stream false nal us = omega (arith, length-append nal (stream us))

unpack-unit :
    (st : Stream) (a : Assembly) (nal : Bytes) (seq : ℕ)
    → IsUnit nal
    → 14 < st.mtu
    → st.mtu < 2 ^ 64
    → unpack a (pack_nal st nal seq) ≡ add_nal a nal
unpack-unit st a [] seq u low high = absurd (omega (arith, u.not_empty))
unpack-unit st a (h ∷ body) seq u low high =
    unpack-pack_nal st a h body seq u.header_fits u.type_is_single low high

unpack-nil : (a : Assembly) → unpack a [] ≡ a
unfolding unpack
unpack-nil a = refl

stream-nil : stream [] ≡ []
unfolding stream
stream-nil = refl

add_nal_closes : (a : Assembly) (nal : Bytes) → (add_nal a nal).fu_active ≡ false
unfolding add_nal
add_nal_closes a nal = refl

unpack-pack_loop :
    (n : ℕ) (st : Stream) (a : Assembly) (us : List (Bool × Bytes)) (seq : ℕ)
    → length (stream us) ≤ n
    → AreUnits us
    → 14 < st.mtu
    → st.mtu < 2 ^ 64
    → a.fu_active ≡ false
    → unpack a (pack_loop n st (stream us) seq) ≡ whole a us
unpack-pack_loop n st a [] seq le u low high off =
    ap (unpack a) (ap (λ d. pack_loop n st d seq) stream-nil ∙ pack_loop-nil n st seq)
    ∙ unpack-nil a
    ∙ whole-nil a off
unpack-pack_loop zero st a ((long, nal) ∷ us) seq le u low high off =
    absurd (omega (arith, length-stream long nal us))
unpack-pack_loop (suc n) st a ((long, nal) ∷ us) seq le u low high off =
    let packets = pack_nal st nal seq in
    rw
      (
        pack_loop-stream n st long nal us seq u.0,
        unpack-append a packets (pack_loop n st (stream us) (seq + length packets)),
        unpack-unit st a nal seq u.0 low high,
      )
      (unpack-pack_loop n st (add_nal a nal) us (seq + length packets)
          (omega (arith, length-stream long nal us)) u.1 low high (add_nal_closes a nal)
        ∙ whole-add_nal a long nal us)

-- A frame of NAL units, behind start codes of three or four bytes, comes back from its RTP packets:
-- the same units in the same order, behind start codes of four bytes, and a key frame exactly when
-- one of them has type 5. The units are as an encoder makes them, and the MTU leaves room for a
-- fragment.
pub unpack-pack :
    (st : Stream) (us : List (Bool × Bytes)) (seq : ℕ)
    → AreUnits us
    → 14 < st.mtu
    → st.mtu < 2 ^ 64
    → unpack no_bytes (pack st (stream us) seq)
      ≡ record { annexb = stream (longs us); keyframe = any_idr us; fu_active = false }
unfolding pack
unpack-pack st us seq u low high =
    unpack-mark_last no_bytes (pack_loop (length (stream us)) st (stream us) seq)
    ∙ unpack-pack_loop (length (stream us)) st no_bytes us seq (omega arith) u low high refl
