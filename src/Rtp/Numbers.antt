-- ===== src/Rtp/Numbers.antt =====
-- The packets of a frame bear rising numbers, and the receiver reads them.
use rtstream.Prelude.{
  ℕ, zero, suc, ◌+◌, ◌*◌, ◌/◌, ◌%◌, ◌≤◌, ◌^◌, ◌<◌, ◌≡◌, refl, ◌∙◌, sym, subst, Bool, true, false,
  not, not-ltb, List, [], ◌∷◌, ◌++◌, none, some, length, is_empty, bit_and, min, drop, leb, ◌==◌,
  if◌then◌else◌, arith,
}
use rtstream.Prelude.Int.{ℤ, pos}
use rtstream.Wire.Bytes.{Bytes, u16, byte_at, read_be16, read_be32}
use rtstream.Rtp.Header.{header_size, write_rtp_header, mark, RtpPkt, parse_rtp}
use rtstream.Rtp.Nalu.{next_nalu}
use rtstream.Rtp.Pack.{Stream, below_mtu, fu_loop, pack_nal, pack_loop, mark_last, pack}

-- A packet without the marker, under number `k`.
abbrev pub plain : Stream → ℕ → Bytes → Bytes
plain st k body = write_rtp_header false (u16 k) st.timestamp st.ssrc ++ body

-- Each packet is one without the marker, under the numbers from `k` on.
abbrev pub ArePlain : Stream → ℕ → List Bytes → Type 0
ArePlain st k [] = Unit {0}
ArePlain st k (p ∷ ps) = ((body : Bytes) × (p ≡ plain st k body)) × ArePlain st (k + 1) ps

ArePlain-append :
    (st : Stream) (k : ℕ) (ps qs : List Bytes)
    → ArePlain st k ps
    → ArePlain st (k + length ps) qs
    → ArePlain st k (ps ++ qs)
ArePlain-append st k [] qs a b = subst (λ j. ArePlain st j qs) (omega arith) b
ArePlain-append st k (p ∷ ps) qs a b =
    (a.0, ArePlain-append st (k + 1) ps qs a.1 (subst (λ j. ArePlain st j qs) (omega arith) b))

fu_loop-ArePlain :
    (n : ℕ) (st : Stream) (first : Bool) (h : ℕ) (rest : Bytes) (size k : ℕ)
    → ArePlain st k (fu_loop n st first h rest size k)
unfolding fu_loop
fu_loop-ArePlain zero st first h rest size k = tt
fu_loop-ArePlain (suc n) st first h [] size k = tt
fu_loop-ArePlain (suc n) st first h (b ∷ rest) size k = (
  (_, refl),
  fu_loop-ArePlain n st false h (drop (min size (length (b ∷ rest))) (b ∷ rest)) size (k + 1),
)

pack_nal-ArePlain : (st : Stream) (nal : Bytes) (k : ℕ) → ArePlain st k (pack_nal st nal k)
unfolding pack_nal
pack_nal-ArePlain st [] k = tt
pack_nal-ArePlain st (h ∷ body) k =
    elim (leb (length (h ∷ body)) (below_mtu st header_size))
      as (λ b. ArePlain st k (
        if b
        then plain st k (h ∷ body) ∷ []
        else fu_loop (length body) st true h body (below_mtu st (header_size + 2)) k)) [
          | true ↦ ((_, refl), tt)
          | false ↦ fu_loop-ArePlain (length body) st true h body (below_mtu st (header_size + 2)) k
        ]

pack_loop-ArePlain : (n : ℕ) (st : Stream) (d : Bytes) (k : ℕ) → ArePlain st k (pack_loop n st d k)
unfolding pack_loop
pack_loop-ArePlain zero st d k = tt
pack_loop-ArePlain (suc n) st [] k = tt
pack_loop-ArePlain (suc n) st (b ∷ d) k =
    elim (next_nalu (b ∷ d))
      as (λ o. ArePlain st k (elim o [
        | none ↦ []
        | some (nal, rest) ↦
            let packets = pack_nal st nal k in packets ++ pack_loop n st rest (k + length packets)
      ])) [
        | none ↦ tt
        | some (nal, rest) ↦
            ArePlain-append st k (pack_nal st nal k)
              (pack_loop n st rest (k + length (pack_nal st nal k))) (pack_nal-ArePlain st nal k)
              (pack_loop-ArePlain n st rest (k + length (pack_nal st nal k)))
      ]

-- The packets as `recv_loop` gives them to the jitter buffer, with `ms` for the time it makes of their
-- time stamp.
unfoldable pub heard : ℤ → List Bytes → List RtpPkt
heard ms [] = []
heard ms (raw ∷ raws) = elim (parse_rtp raw) [
  | none ↦ heard ms raws
  | some p ↦ record p { capture_ms = ms } ∷ heard ms raws
]

-- The packets of a frame: the numbers go up from `k`, and the last packet has the marker.
unfoldable pub packets_from : Stream → ℤ → ℕ → List Bytes → List RtpPkt
packets_from st ms k [] = []
packets_from st ms k (raw ∷ raws) =
    record { seq = u16 k; ts = st.timestamp; marker = is_empty raws; capture_ms = ms; raw = raw }
    ∷ packets_from st ms (k + 1) raws

be16_back : (v : ℕ) → v < 2 ^ 16 → v / 2 ^ 8 % 2 ^ 8 * 2 ^ 8 + v % 2 ^ 8 ≡ v
be16_back v lt = omega arith

be32_back :
    (v : ℕ)
    → v < 2 ^ 32
    → (v / 2 ^ 24 % 2 ^ 8 * 2 ^ 8 + v / 2 ^ 16 % 2 ^ 8) * 2 ^ 16
        + (v / 2 ^ 8 % 2 ^ 8 * 2 ^ 8 + v % 2 ^ 8)
      ≡ v
be32_back v lt = omega arith

parse_rtp-long :
    (d : Bytes)
    → 12 ≤ length d
    → byte_at d 0 ≡ 0x80
    → parse_rtp d
      ≡ some (record {
        seq = read_be16 d 2;
        ts = read_be32 d 4;
        marker = not (bit_and (byte_at d 1) 0x80 == 0);
        capture_ms = pos 0;
        raw = d;
      })
unfolding parse_rtp
parse_rtp-long d le e = rw (parse_rtp, not-ltb (length d) 12 le, e) refl

-- A packet that the receiver reads as its number, the frame's time stamp and its marker.
abbrev IsHeard : Stream → ℕ → Bool → Bytes → Type 0
IsHeard st k last raw =
    parse_rtp raw
    ≡ some (record { seq = u16 k; ts = st.timestamp; marker = last; capture_ms = pos 0; raw = raw })

module _ (st : Stream) (k : ℕ) (body : Bytes) (lt : st.timestamp < 2 ^ 32) where
  plain-IsHeard : IsHeard st k false (plain st k body)
  unfolding write_rtp_header
  plain-IsHeard = parse_rtp-long (plain st k body) (omega arith) refl ∙ λ i. some (record {
    seq = be16_back (u16 k) (omega arith) i;
    ts = be32_back st.timestamp lt i;
    marker = false;
    capture_ms = pos 0;
    raw = plain st k body;
  })

  mark-IsHeard : IsHeard st k true (mark (plain st k body))
  unfolding write_rtp_header mark
  mark-IsHeard = parse_rtp-long (mark (plain st k body)) (omega arith) refl ∙ λ i. some (record {
    seq = be16_back (u16 k) (omega arith) i;
    ts = be32_back st.timestamp lt i;
    marker = true;
    capture_ms = pos 0;
    raw = mark (plain st k body);
  })

heard-cons :
    (st : Stream) (ms : ℤ) (k : ℕ) (raw : Bytes) (raws : List Bytes)
    → IsHeard st k (is_empty raws) raw
    → heard ms raws ≡ packets_from st ms (k + 1) raws
    → heard ms (raw ∷ raws) ≡ packets_from st ms k (raw ∷ raws)
unfolding heard packets_from
heard-cons st ms k raw raws h rest = rw (heard, h, rest) refl

is_empty-mark_last : (p : Bytes) (ps : List Bytes) → is_empty (mark_last (p ∷ ps)) ≡ false
unfolding mark_last
is_empty-mark_last p [] = refl
is_empty-mark_last p (q ∷ ps) = refl

heard-ArePlain :
    (st : Stream) (ms : ℤ) (k : ℕ) (ps : List Bytes)
    → st.timestamp < 2 ^ 32
    → ArePlain st k ps
    → heard ms (mark_last ps) ≡ packets_from st ms k (mark_last ps)
unfolding mark_last heard packets_from
heard-ArePlain st ms k [] lt a = refl
heard-ArePlain st ms k (p ∷ []) lt ((body, e), a) =
    heard-cons st ms k (mark p) []
      (subst (λ raw. IsHeard st k true (mark raw)) (sym e) (mark-IsHeard st k body lt)) refl
heard-ArePlain st ms k (p ∷ q ∷ ps) lt ((body, e), a) =
    heard-cons st ms k p (mark_last (q ∷ ps))
      (rw (is_empty-mark_last q ps)
        (subst (λ raw. IsHeard st k false raw) (sym e) (plain-IsHeard st k body lt)))
      (heard-ArePlain st ms (k + 1) (q ∷ ps) lt a)

-- The receiver reads every packet of a frame, with numbers that go up by one from the first, the frame's
-- time stamp, and the marker on the last packet only. The time stamp has 32 bits.
pub heard-pack :
    (st : Stream) (ms : ℤ) (d : Bytes) (k : ℕ)
    → st.timestamp < 2 ^ 32
    → heard ms (pack st d k) ≡ packets_from st ms k (pack st d k)
unfolding pack
heard-pack st ms d k lt =
    heard-ArePlain st ms k (pack_loop (length d) st d k) lt (pack_loop-ArePlain (length d) st d k)
