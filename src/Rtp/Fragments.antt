-- ===== src/Rtp/Fragments.antt =====
-- One NAL unit, packed and unpacked: a single packet, or FU-A fragments.
use rtstream.Prelude.{
  ℕ, zero, suc, ◌+◌, ◌-◌, ◌^◌, ◌≤◌, ◌<◌, ◌≡◌, ◌≢◌, refl, ap, subst, ◌∙◌, sym, min, Bool, true,
  false, ◌&&◌, ◌||◌, not, [], ◌∷◌, ◌++◌, bit_and, bit_or, length, take, drop, not-ltb, leb, ◌==◌,
  Bool-cases, inl, inr, take-append-drop, length-drop, append_assoc, arith,
}
use rtstream.Prelude.Bits.{holds_below, holds_below_sound}
use rtstream.Wire.Bytes.{Bytes, u16, byte_at}
use rtstream.Rtp.Header.{header_size, write_rtp_header}
use rtstream.Rtp.Pack.{Stream, fu_indicator, fu_header, fu_loop, below_mtu, pack_nal}
use rtstream.Rtp.Unpack.{Assembly, start_code, is_idr, fu_step, unpack_step, unpack}

same : Bool → Bool → Bool
same true b = b
same false b = not b

-- The two bytes of a fragment give the header byte and the flags back, as a test.
fu_test : Bool → Bool → ℕ → Bool
unfolding same
fu_test first last h =
    bit_and (fu_indicator h) 0x1f == 28
    && (bit_or (bit_and (fu_indicator h) 0xe0) (bit_and (fu_header first last h) 0x1f) == h
        && (same (not (bit_and (fu_header first last h) 0x80 == 0)) first
            && same (not (bit_and (fu_header first last h) 0x40 == 0)) last))

fu_table : (first last : Bool) → holds_below (fu_test first last) 256 ≡ true
unfolding fu_test fu_indicator fu_header holds_below
fu_table true true = refl
fu_table true false = refl
fu_table false true = refl
fu_table false false = refl

facts :
    (i k h : ℕ) (b c first last : Bool)
    → (i == 28 && (k == h && (same b first && same c last))) ≡ true
    → (i ≡ 28) × (k ≡ h) × (b ≡ first) × (c ≡ last)
unfolding same
facts i k h b c first last e = ground arith

fu_bytes :
    (first last : Bool) (h : ℕ)
    → h < 256
    → (bit_and (fu_indicator h) 0x1f ≡ 28)
      × (bit_or (bit_and (fu_indicator h) 0xe0) (bit_and (fu_header first last h) 0x1f) ≡ h)
      × (not (bit_and (fu_header first last h) 0x80 == 0) ≡ first)
      × (not (bit_and (fu_header first last h) 0x40 == 0) ≡ last)
unfolding fu_test
fu_bytes first last h lt =
    facts _ _ h _ _ first last
      (holds_below_sound (fu_test first last) 256 h lt (fu_table first last))

-- What a unit adds to a frame.
unfoldable pub add_nal : Assembly → Bytes → Assembly
add_nal a nal = record {
  annexb = a.annexb ++ (start_code ++ nal);
  keyframe = a.keyframe || is_idr (byte_at nal 0);
  fu_active = false;
}

-- A fragment behind a header of twelve bytes.
abbrev fragment : Stream → Bool → Bool → ℕ → Bytes → ℕ → Bytes
fragment st first last h part seq =
    write_rtp_header false (u16 seq) st.timestamp st.ssrc
    ++ (fu_indicator h ∷ fu_header first last h ∷ part)

unpack_step-first :
    (st : Stream) (a : Assembly) (last : Bool) (h b : ℕ) (part : Bytes) (seq : ℕ)
    → h < 256
    → unpack_step a (fragment st true last h (b ∷ part) seq) ≡ record {
      annexb = a.annexb ++ (start_code ++ (h ∷ b ∷ part));
      keyframe = a.keyframe || is_idr h;
      fu_active = not last;
    }
unfolding unpack_step fu_step write_rtp_header
unpack_step-first st a last h b part seq lt =
    let f = fu_bytes true last h lt in
    let raw = fragment st true last h (b ∷ part) seq in
    rw
      (
        not-ltb (length raw) 13 (omega arith),
        not-ltb (length (drop 12 raw)) 2 (omega arith),
        f.0,
        f.1,
        f.2,
        f.3,
      )
      refl

unpack_step-next :
    (st : Stream) (a : Assembly) (last : Bool) (h b : ℕ) (part : Bytes) (seq : ℕ)
    → h < 256
    → a.fu_active ≡ true
    → unpack_step a (fragment st false last h (b ∷ part) seq)
      ≡ record a { annexb = a.annexb ++ (b ∷ part); fu_active = not last }
unfolding unpack_step fu_step write_rtp_header
unpack_step-next st a last h b part seq lt on =
    let f = fu_bytes false last h lt in
    let raw = fragment st false last h (b ∷ part) seq in
    simp (
      not-ltb (length raw) 13 (omega arith),
      not-ltb (length (drop 12 raw)) 2 (omega arith),
      f.0,
      f.1,
      f.2,
      f.3,
      on,
    )

-- The first fragment opens a unit.
abbrev opened : Bool → ℕ → Assembly → Assembly
opened true h a = record {
  annexb = a.annexb ++ (start_code ++ (h ∷ []));
  keyframe = a.keyframe || is_idr h;
  fu_active = true;
}
opened false h a = a

unpack_step-fragment :
    (st : Stream) (a : Assembly) (first last : Bool) (h b : ℕ) (part : Bytes) (seq : ℕ)
    → h < 256
    → (first || a.fu_active) ≡ true
    → unpack_step a (fragment st first last h (b ∷ part) seq) ≡ record (opened first h a) {
      annexb = (opened first h a).annexb ++ (b ∷ part);
      fu_active = not last;
    }
unpack_step-fragment st a true last h b part seq lt on =
    unpack_step-first st a last h b part seq lt
    ∙ ap {A = Bytes} {B = Assembly}
        (λ bytes. record {
          annexb = bytes;
          keyframe = a.keyframe || is_idr h;
          fu_active = not last;
        })
        (sym (append_assoc a.annexb (start_code ++ (h ∷ [])) (b ∷ part)))
unpack_step-fragment st a false last h b part seq lt on =
    unpack_step-next st a last h b part seq lt on

drop_all : (xs : Bytes) → drop (length xs) xs ≡ []
drop_all [] = refl
drop_all (x ∷ xs) = drop_all xs

take_all : (xs : Bytes) → take (length xs) xs ≡ xs
take_all [] = refl
take_all (x ∷ xs) = ap (λ rest. x ∷ rest) (take_all xs)

unpack_step-single :
    (st : Stream) (a : Assembly) (h : ℕ) (body : Bytes) (seq : ℕ)
    → bit_and h 0x1f ≢ 28
    → unpack_step a (write_rtp_header false (u16 seq) st.timestamp st.ssrc ++ (h ∷ body))
      ≡ add_nal a (h ∷ body)
unfolding unpack_step write_rtp_header add_nal
unpack_step-single st a h body seq single =
    let raw = write_rtp_header false (u16 seq) st.timestamp st.ssrc ++ (h ∷ body) in
    let other : (bit_and h 0x1f == 28) ≡ false = ground arith in
    rw (not-ltb (length raw) 13 (omega arith), other) refl

fu_loop-nil :
    (n : ℕ) (st : Stream) (first : Bool) (h size seq : ℕ) → fu_loop n st first h [] size seq ≡ []
unfolding fu_loop
fu_loop-nil zero st first h size seq = refl
fu_loop-nil (suc n) st first h size seq = refl

-- All bytes of the rest, behind those of the assembly.
abbrev closed : Assembly → Bytes → Assembly
closed a rest = record a { annexb = a.annexb ++ rest; fu_active = false }

-- One round, which takes `j + 1` bytes.
fu_round :
    (n : ℕ) (st : Stream) (a : Assembly) (first : Bool) (h b : ℕ) (rest : Bytes) (size seq j : ℕ)
    → j ≤ length rest
    → h < 256
    → (first || a.fu_active) ≡ true
    → ((a' : Assembly)
        → 0 < length (drop j rest)
        → a'.fu_active ≡ true
        → unpack a' (fu_loop n st false h (drop j rest) size (seq + 1)) ≡ closed a' (drop j rest))
    → unpack
        (unpack_step a (fragment st first (suc j == suc (length rest)) h (b ∷ take j rest) seq))
        (fu_loop n st false h (drop j rest) size (seq + 1))
      ≡ closed (opened first h a) (b ∷ rest)
unfolding unpack
fu_round n st a first h b rest size seq j le lt on later =
    elim (Bool-cases (suc j == suc (length rest))) [
      | inl last ↦
          let all : j ≡ length rest = ground (arith, last) in
          rw
            (
              last,
              unpack_step-fragment st a first true h b (take j rest) seq lt on,
              nothing_left all,
              fu_loop-nil n st false h size (seq + 1),
            )
            (ap (λ bytes. closed (opened first h a) (b ∷ bytes)) (everything all))
      | inr more ↦
          let some_left : 0 < length (drop j rest) = ground (arith, more, length-drop j rest) in
          rw (more, unpack_step-fragment st a first false h b (take j rest) seq lt on)
            (later _ some_left refl
              ∙ ap {A = Bytes} {B = Assembly}
                  (λ bytes. record (opened first h a) { annexb = bytes; fu_active = false })
                  (append_assoc (opened first h a).annexb (b ∷ take j rest) (drop j rest)
                    ∙ ap (λ bytes. (opened first h a).annexb ++ (b ∷ bytes))
                        (take-append-drop j rest)))
    ]
  where
    nothing_left : j ≡ length rest → drop j rest ≡ []
    nothing_left e = ap (λ k. drop k rest) e ∙ drop_all rest

    everything : j ≡ length rest → take j rest ≡ rest
    everything e = ap (λ k. take k rest) e ∙ take_all rest

-- The whole of the loop, for a unit that is not used up.
unpack-fu_loop :
    (n : ℕ) (st : Stream) (a : Assembly) (first : Bool) (h : ℕ) (rest : Bytes) (size seq : ℕ)
    → length rest ≤ n
    → 0 < length rest
    → 0 < size
    → h < 256
    → (first || a.fu_active) ≡ true
    → unpack a (fu_loop n st first h rest size seq)
      ≡ record (opened first h a) { annexb = (opened first h a).annexb ++ rest; fu_active = false }
unfolding unpack fu_loop
unpack-fu_loop zero st a first h rest size seq le pos_len p lt on = absurd (omega arith)
unpack-fu_loop (suc n) st a first h [] size seq le pos_len p lt on = absurd (omega arith)
unpack-fu_loop (suc n) st a first h (b ∷ rest) size seq le pos_len p lt on =
    let chunk = min size (length (b ∷ rest)) in
    let some_bytes : suc (chunk - 1) ≡ chunk = omega arith in
    subst
      (λ k.
        unpack
          (unpack_step a (
            write_rtp_header false (u16 seq) st.timestamp st.ssrc
            ++ (fu_indicator h ∷ fu_header first (k == length (b ∷ rest)) h ∷ take k (b ∷ rest))))
          (fu_loop n st false h (drop k (b ∷ rest)) size (seq + 1))
        ≡ closed (opened first h a) (b ∷ rest))
      some_bytes
      (fu_round n st a first h b rest size seq (chunk - 1) (omega arith) lt on (λ a' some_left on'.
        unpack-fu_loop n st a' false h (drop (chunk - 1) rest) size (seq + 1)
          (omega (arith, length-drop (chunk - 1) rest)) some_left p lt on'))

-- A unit's packets add exactly the unit behind a start code, whether it fits a packet or is cut into
-- fragments, and mark a key frame by its type. Its header byte is a byte, its type is not 28, and the
-- MTU leaves room for a fragment.
pub unpack-pack_nal :
    (st : Stream) (a : Assembly) (h : ℕ) (body : Bytes) (seq : ℕ)
    → h < 256
    → bit_and h 0x1f ≢ 28
    → 14 < st.mtu
    → st.mtu < 2 ^ 64
    → unpack a (pack_nal st (h ∷ body) seq) ≡ add_nal a (h ∷ body)
unfolding unpack pack_nal add_nal
unpack-pack_nal st a h body seq lt single low high =
    elim (Bool-cases (leb (length (h ∷ body)) (below_mtu st header_size))) [
      | inl fits ↦ rw fits (unpack_step-single st a h body seq single)
      | inr long ↦ rw long (
          unpack-fu_loop (length body) st a true h body (below_mtu st (header_size + 2)) seq
            (omega arith) (ground (arith, long)) (omega arith) lt refl
          ∙ ap {A = Bytes} {B = Assembly}
              (λ bytes. record {
                annexb = bytes;
                keyframe = a.keyframe || is_idr h;
                fu_active = false;
              })
              (append_assoc a.annexb (start_code ++ (h ∷ [])) body))
    ]
