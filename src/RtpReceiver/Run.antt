-- ===== src/RtpReceiver/Run.antt =====
-- `assemble_loop` over the packets of one frame.
use rtstream.Prelude.{
  ℕ, suc, ◌+◌, ◌^◌, ◌≤◌, ◌<◌, ◌≡◌, refl, ap, ◌∙◌, sym, subst, Bool, true, false, List, [], ◌∷◌,
  ◌++◌, Option, none, some, length, length-append, append_assoc, is_empty, ==_iff, if◌then◌else◌,
  ◌>>=◌, arith,
}
use rtstream.Prelude.Int.{ℤ}
use rtstream.Prelude.Maps.{lookup, insert}
use rtstream.Wire.Bytes.{Bytes, u16}
use rtstream.Wire.Media.{EncodedFrame}
use rtstream.Queue.Ready.{IsReady, pushed}
use rtstream.Rtp.Header.{RtpPkt}
use rtstream.Rtp.Pack.{Stream}
use rtstream.Rtp.Numbers.{packets_from}
use rtstream.RtpReceiver.{FrameState, complete, Emitted, emit}
use rtstream.RtpReceiver.Assembly.{
  Assembler, Times, finalize_frame, expire_zombies, expire_loop, emplace, add_packet, begins,
  next_frame, assemble,
}
use rtstream.RtpReceiver.Rebuild.{numbered}
use rtstream.RtpReceiver.Twice.{IsDone, finalize_frame-IsDone}

-- `assemble_loop` for a list of packets; `clock n` are the times of the round with `n` packets to come.
unfoldable pub run : (ℕ → Times) → List RtpPkt → Assembler → Option Assembler
run clock [] a = some a
run clock (p ∷ ps) a = assemble p (clock (length ps)) a >>= run clock ps

lookup-numbered :
    (k first : ℕ) (ps : List Bytes) → first + length ps ≤ k → lookup k (numbered first ps) ≡ none
unfolding lookup numbered
lookup-numbered k first [] h = refl
lookup-numbered k first (p ∷ ps) h = ground (arith, lookup-numbered k (first + 1) ps)

insert-numbered :
    (k first : ℕ) (raw : Bytes) (ps : List Bytes)
    → k ≡ first + length ps
    → insert k raw (numbered first ps) ≡ numbered first (ps ++ raw ∷ [])
unfolding insert numbered
insert-numbered k first raw [] e = ap (λ j. (j, raw) ∷ []) (omega arith)
insert-numbered k first raw (p ∷ ps) e = ground (arith, insert-numbered k (first + 1) raw ps)

emplace-numbered :
    (k first : ℕ) (raw : Bytes) (ps : List Bytes)
    → k ≡ first + length ps
    → emplace k raw (numbered first ps) ≡ numbered first (ps ++ raw ∷ [])
unfolding emplace
emplace-numbered k first raw ps e =
    rw (emplace, lookup-numbered k first ps (omega arith)) (insert-numbered k first raw ps e)

-- A frame whose packets so far are `ps`.
abbrev pub part : Stream → ℤ → ℤ → ℕ → Bool → List Bytes → FrameState
part st ms seen first last ps = record {
  started = true;
  marker_seen = last;
  capture_ms = ms;
  ts = st.timestamp;
  first_seq = first;
  raws = numbered first ps;
  first_seen_us = seen;
}

-- The part of a round behind the test for a new frame.
unfoldable pub after : RtpPkt → Times → Assembler → Option Assembler
after p t a =
    (if p.marker then finalize_frame true t (add_packet p a) else some (add_packet p a))
    >>= expire_zombies t

pub assemble-after :
    (p : RtpPkt) (t : Times) (a b : Assembler)
    → (if begins p a.cur then next_frame p t a else some a) ≡ some b
    → assemble p t a ≡ after p t b
unfolding assemble after
assemble-after p t a b e = ap (λ o. o >>= after p t) e

expire_zombies-none : (t : Times) (a : Assembler) → a.zombies ≡ [] → expire_zombies t a ≡ some a
unfolding expire_zombies
expire_zombies-none t a e = ap (λ zs. expire_loop zs t (record a { zombies = [] })) e ∙ λ i.
    some (record a { zombies = sym e i })

after-plain :
    (p : RtpPkt) (t : Times) (a : Assembler)
    → p.marker ≡ false
    → a.zombies ≡ []
    → after p t a ≡ some (add_packet p a)
unfolding after add_packet
after-plain p t a m z =
    ap
      (λ b.
        (if b then finalize_frame true t (add_packet p a) else some (add_packet p a))
        >>= expire_zombies t)
      m
    ∙ expire_zombies-none t (add_packet p a) z

after-marker :
    (p : RtpPkt) (t : Times) (a : Assembler) (e : EncodedFrame)
    → p.marker ≡ true
    → a.zombies ≡ []
    → IsDone (add_packet p a) e t.at_emit
    → IsReady a.out
    → after p t a ≡ some (record (add_packet p a) { out = pushed a.out e })
unfolding after add_packet
after-marker p t a e m z d ready =
    ap
      (λ b.
        (if b then finalize_frame true t (add_packet p a) else some (add_packet p a))
        >>= expire_zombies t)
      m
    ∙ ap (λ o. o >>= expire_zombies t) (finalize_frame-IsDone (add_packet p a) e true t d ready)
    ∙ expire_zombies-none t (record (add_packet p a) { out = pushed a.out e }) z

pub length-packets_from :
    (st : Stream) (ms : ℤ) (k : ℕ) (raws : List Bytes)
    → length (packets_from st ms k raws) ≡ length raws
unfolding packets_from
length-packets_from st ms k [] = refl
length-packets_from st ms k (raw ∷ raws) = ap suc (length-packets_from st ms (k + 1) raws)

-- One packet more.
abbrev pub packet : Stream → ℤ → ℕ → Bool → Bytes → RtpPkt
packet st ms k last raw = record {
  seq = u16 k;
  ts = st.timestamp;
  marker = last;
  capture_ms = ms;
  raw = raw;
}

add_packet-part :
    (st : Stream) (ms seen : ℤ) (first k : ℕ) (last : Bool) (raw : Bytes) (done : List Bytes)
    (a : Assembler)
    → k ≡ first + length done
    → k < 2 ^ 16
    → add_packet (packet st ms k last raw) (record a { cur = part st ms seen first false done })
      ≡ record a { cur = part st ms seen first last (done ++ raw ∷ []) }
unfolding add_packet
add_packet-part st ms seen first k last raw done a e lt = λ i. record a {
  cur = record (part st ms seen first last []) {
    raws = emplace-numbered (u16 k) first raw done (omega arith) i;
  };
}

begins-part :
    (st : Stream) (ms seen : ℤ) (first k : ℕ) (m last : Bool) (raw : Bytes) (done : List Bytes)
    → begins (packet st ms k last raw) (part st ms seen first m done) ≡ false
unfolding begins
begins-part st ms seen first k m last raw done = rw ((==_iff st.timestamp st.timestamp).1 refl) refl

-- The next round goes on with the frame.
same_frame :
    (clock : ℕ → Times) (st : Stream) (ms seen : ℤ) (first k : ℕ) (done : List Bytes)
    (raw q : Bytes) (qs : List Bytes) (a : Assembler)
    → assemble
        (packet st ms k (is_empty qs) q)
        (clock (length (packets_from st ms (k + 1) qs)))
        (record a { cur = part st ms seen first false (done ++ raw ∷ []) })
      ≡ after
          (packet st ms k (is_empty qs) q)
          (clock (length qs))
          (record a { cur = part st ms seen first false (done ++ raw ∷ []) })
same_frame clock st ms seen first k done raw q qs a =
    let p = packet st ms k (is_empty qs) q in
    let s : Assembler = record a { cur = part st ms seen first false (done ++ raw ∷ []) } in
    let t = clock (length (packets_from st ms (k + 1) qs)) in
    assemble-after p t s s (
      ap (λ b. if b then next_frame p t s else some s)
        (begins-part st ms seen first k false (is_empty qs) q (done ++ raw ∷ [])))
    ∙ ap (λ n. after p (clock n) s) (length-packets_from st ms (k + 1) qs)

-- A frame that is emitted once its last packet has come.
abbrev pub Emits : (ℕ → Times) → FrameState → EncodedFrame → Type 0
Emits clock f e =
    (is_empty f.raws ≡ false)
    × (complete f ≡ true)
    × (emit f none (clock 0).at_emit ≡ Emitted.frame e)

module _ (clock : ℕ → Times) (st : Stream) (ms seen : ℤ) (first : ℕ) (a : Assembler)
    (e : EncodedFrame) (no_zombies : a.zombies ≡ []) (ready : IsReady a.out) where
  pub rounds :
      (done : List Bytes) (raw : Bytes) (raws : List Bytes) (k : ℕ)
      → k ≡ first + length done
      → k + length raws < 2 ^ 16
      → Emits clock (part st ms seen first true (done ++ raw ∷ raws)) e
      → (after
            (packet st ms k (is_empty raws) raw)
            (clock (length raws))
            (record a { cur = part st ms seen first false done })
          >>= run clock (packets_from st ms (k + 1) raws))
        ≡ some (record a {
          cur = part st ms seen first true (done ++ raw ∷ raws);
          out = pushed a.out e;
        })
  unfolding run packets_from
  rounds done raw [] k ek lt emits =
      let grown = add_packet-part st ms seen first k true raw done a ek (omega arith) in
      let p = packet st ms k true raw in
      let s : Assembler = record a { cur = part st ms seen first false done } in
      ap (λ o. o >>= some)
        (after-marker p (clock 0) s e refl no_zombies
          (subst (λ b. IsDone b e (clock 0).at_emit) (sym grown)
            (record { begun = refl; has_packets = emits.0; all_there = emits.1; emits = emits.2 }))
          ready)
      ∙ ap {A = Assembler} {B = Option Assembler} (λ b. some (record b { out = pushed a.out e }))
          grown
  rounds done raw (q ∷ qs) k ek lt emits =
      let grown = add_packet-part st ms seen first k false raw done a ek (omega arith) in
      let p = packet st ms k false raw in
      let s : Assembler = record a { cur = part st ms seen first false done } in
      let s' : Assembler = record a { cur = part st ms seen first false (done ++ raw ∷ []) } in
      ap (λ o. o >>= run clock (packets_from st ms (k + 1) (q ∷ qs)))
        (after-plain p (clock (length (q ∷ qs))) s refl no_zombies ∙ ap some grown)
      ∙ ap (λ o. o >>= run clock (packets_from st ms (k + 1 + 1) qs))
          (same_frame clock st ms seen first (k + 1) done raw q qs a)
      ∙ subst
          (λ all.
            (after (packet st ms (k + 1) (is_empty qs) q) (clock (length qs)) s'
              >>= run clock (packets_from st ms (k + 1 + 1) qs))
            ≡ some (record a { cur = part st ms seen first true all; out = pushed a.out e }))
          (append_assoc done (raw ∷ []) (q ∷ qs))
          (rounds (done ++ raw ∷ []) q qs (k + 1) (omega (arith, length-append done (raw ∷ [])))
            (omega arith)
            (subst (λ all. Emits clock (part st ms seen first true all) e)
              (sym (append_assoc done (raw ∷ []) (q ∷ qs))) emits))
