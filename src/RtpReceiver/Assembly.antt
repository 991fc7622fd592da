-- ===== src/RtpReceiver/Assembly.antt =====
-- `finalize_frame`, `expire_zombies` and a round of `assemble_loop`.
use rtstream.Prelude.{
  ℕ, ◌+◌, ◌-◌, ◌%◌, ◌^◌, Bool, true, false, ◌&&◌, ◌||◌, not, List, [], ◌∷◌, ◌++◌, Option, none,
  some, length, is_empty, ◌==◌, if◌then◌else◌, ◌>>=◌,
}
use rtstream.Prelude.Int.{ℤ, pos, ◌-ℤ◌, ltb_ℤ}
use rtstream.Prelude.Maps.{Map, lookup, insert, erase}
use rtstream.Wire.Bytes.{Bytes, u32_of_int}
use rtstream.Wire.Media.{EncodedFrame}
use rtstream.Stats.{Metrics, bump}
use rtstream.Queue
use rtstream.Queue.{Queue, Pushed}
use rtstream.Rtp.Header.{RtpPkt}
use rtstream.RtpReceiver.{FrameState, no_frame, span, complete, Emitted, emit, recovered}

-- What the assembling thread works on.
pub record Assembler : Type 0 where
  pub cur : FrameState
  pub fec : Map Bytes
  pub zombies : List FrameState
  pub out : Queue EncodedFrame
  pub stats : Metrics

-- What the calls of `now_us()` in a round give.
pub record Times : Type 0 where
  pub at_first : ℤ
  pub at_emit : ℤ
  pub at_check : ℤ
  pub at_expire : ℤ

-- `out.push(ef)`, whose result is not looked at; `none` is undefined behaviour in `emit`.
unfoldable pub push_out : Queue EncodedFrame → Emitted → Option (Queue EncodedFrame)
push_out q Emitted.undefined = none
push_out q Emitted.nothing = some q
push_out q (Emitted.frame f) = elim (Queue.push q f) [
  | Pushed.pushed r ↦ some r
  | Pushed.refused ↦ some q
  | Pushed.waits ↦ some q
  | Pushed.fault ↦ some q
]

-- The parity of a frame, when exactly one of its packets is missing and its last one is there.
unfoldable pub parity_for : Map Bytes → FrameState → Option Bytes
parity_for fec f =
    if length f.raws == (span f + 2 ^ 32 - 1) % 2 ^ 32 && f.marker_seen
    then lookup (u32_of_int f.capture_ms) fec
    else none

-- The number of packets given up: `span - f.raws.size()` on `size_t`.
unfoldable pub lost_packets : FrameState → ℕ
lost_packets f = (span f + 2 ^ 64 - length f.raws) % 2 ^ 64

-- The end of `finalize_frame`: wait for what is missing, or give up.
unfoldable pub set_aside : Bool → Times → Assembler → Assembler
unfolding lost_packets
set_aside explicit t a =
    if explicit && ltb_ℤ (t.at_check -ℤ a.cur.first_seen_us) (pos 250000)
    then record a { zombies = a.zombies ++ a.cur ∷ []; cur = no_frame }
    else record a {
      stats = record a.stats { net_lost = bump a.stats.net_lost (lost_packets a.cur) };
      cur = no_frame;
    }

-- The frame with a recovered packet goes out, and its parity is used up.
unfoldable pub emit_recovered : FrameState → Bytes → Times → Assembler → Option Assembler
unfolding push_out
emit_recovered f raw t a = elim (push_out a.out (emit f (some raw) t.at_emit)) [
  | none ↦ none
  | some q ↦ some (record a {
    out = q;
    fec = erase (u32_of_int f.capture_ms) a.fec;
    stats = record a.stats { fec_recovered = bump a.stats.fec_recovered 1 };
  })
]

-- `finalize_frame(cur_, explicit)`.
unfoldable pub finalize_frame : Bool → Times → Assembler → Option Assembler
unfolding push_out parity_for set_aside emit_recovered
finalize_frame explicit t a =
    if not a.cur.started || is_empty a.cur.raws
    then some a
    else if complete a.cur
    then elim (push_out a.out (emit a.cur none t.at_emit)) [
      | none ↦ none
      | some q ↦ some (record a { out = q })
    ]
    else elim (parity_for a.fec a.cur) [
      | none ↦ some (set_aside explicit t a)
      | some parity ↦ elim (recovered a.cur parity) [
        | none ↦ some (set_aside explicit t a)
        | some raw ↦ emit_recovered a.cur raw t a
      ]
    ]

-- One zombie: it is recovered, or given up after 250 ms, or kept.
unfoldable pub expire_one : FrameState → Times → Assembler → Option Assembler
unfolding parity_for lost_packets emit_recovered
expire_one z t a =
    let kept : Assembler = record a { zombies = a.zombies ++ z ∷ [] } in
    let given_up : Assembler = record a {
      stats = record a.stats { net_lost = bump a.stats.net_lost (lost_packets z) };
    } in
    let timed : Option Assembler =
      some (if ltb_ℤ (pos 250000) (t.at_expire -ℤ z.first_seen_us) then given_up else kept) in
    elim (parity_for a.fec z) [
      | none ↦ timed
      | some parity ↦ elim (recovered z parity) [
        | none ↦ timed
        | some raw ↦ emit_recovered z raw t a
      ]
    ]

-- The loop over the zombies; those that stay are collected in `a`.
unfoldable pub expire_loop : List FrameState → Times → Assembler → Option Assembler
unfolding expire_one
expire_loop [] t a = some a
expire_loop (z ∷ zs) t a = elim (expire_one z t a) [ none ↦ none | some a' ↦ expire_loop zs t a' ]

unfoldable pub expire_zombies : Times → Assembler → Option Assembler
unfolding expire_loop
expire_zombies t a = expire_loop a.zombies t (record a { zombies = [] })

-- `raws.emplace`, which keeps what is there.
unfoldable pub emplace : ℕ → Bytes → Map Bytes → Map Bytes
emplace k raw m = elim (lookup k m) [ none ↦ insert k raw m | some old ↦ m ]

unfoldable pub start_frame : RtpPkt → Times → Assembler → Assembler
start_frame p t a = record a {
  cur = record no_frame {
    started = true;
    ts = p.ts;
    capture_ms = p.capture_ms;
    first_seq = p.seq;
    first_seen_us = t.at_first;
  };
}

unfoldable pub add_packet : RtpPkt → Assembler → Assembler
unfolding emplace
add_packet p a = record a {
  cur = record a.cur {
    marker_seen = a.cur.marker_seen || p.marker;
    raws = emplace p.seq p.raw a.cur.raws;
  };
}

-- Whether a packet begins a frame.
unfoldable pub begins : RtpPkt → FrameState → Bool
begins p f = not f.started || not (p.ts == f.ts)

-- The frame before is finished without a marker, and a new one begins.
unfoldable pub next_frame : RtpPkt → Times → Assembler → Option Assembler
unfolding start_frame finalize_frame
next_frame p t a = finalize_frame false t a >>= λ a'. some (start_frame p t a')

-- A round of `assemble_loop` with packet `p` of the jitter buffer.
unfoldable pub assemble : RtpPkt → Times → Assembler → Option Assembler
unfolding begins next_frame add_packet finalize_frame expire_zombies
assemble p t a = do
  a1 ← if begins p a.cur then next_frame p t a else some a
  a2 ← if p.marker then finalize_frame true t (add_packet p a1) else some (add_packet p a1)
  expire_zombies t a2
