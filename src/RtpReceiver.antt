-- ===== src/RtpReceiver.antt =====
-- src/receiver/rtp_receiver.h: RTP packets go through the jitter buffer one by one; those with the
-- same timestamp make a frame, which is put together, recovered, kept for a while, or given up.
pub mod Assembly
pub mod Receive
pub mod Rebuild
pub mod Twice
pub mod Run
pub mod Whole
mod Tests
use rtstream.Prelude.{
  ℕ, zero, suc, ◌+◌, ◌-◌, ◌%◌, ◌^◌, max, Bool, true, false, ◌&&◌, ◌||◌, not, List, [], ◌∷◌, ◌++◌,
  Option, none, some, length, set, get_or, replicate, is_empty, ltb, leb, ◌==◌, if◌then◌else◌,
}
use rtstream.Prelude.Int.{ℤ, pos, ◌*ℤ◌, ◌-ℤ◌, ltb_ℤ}
use rtstream.Prelude.Maps.{Map, lookup}
use rtstream.Wire.Bytes.{Bytes, read_be16}
use rtstream.Wire.Media.{EncodedFrame}
use rtstream.Fec.{fec_recover}
use rtstream.Rtp.Unpack.{no_bytes, unpack}

-- The packets of a frame that have come, by their numbers.
pub record FrameState : Type 0 where
  pub started : Bool
  pub marker_seen : Bool
  pub capture_ms : ℤ
  pub ts : ℕ
  pub first_seq : ℕ
  pub raws : Map Bytes
  pub first_seen_us : ℤ

abbrev pub no_frame : FrameState
no_frame = record {
  started = false;
  marker_seen = false;
  capture_ms = pos 0;
  ts = 0;
  first_seq = 0;
  raws = [];
  first_seen_us = pos 0;
}

-- `raws.rbegin()->first`; the map is not empty.
unfoldable pub last_seq : Map Bytes → ℕ
last_seq [] = 0
last_seq ((k, raw) ∷ []) = k
last_seq ((k, raw) ∷ (j, other) ∷ m) = last_seq ((j, other) ∷ m)

-- `static_cast<uint32_t>(last_seq - f.first_seq) + 1`
unfoldable pub span : FrameState → ℕ
unfolding last_seq
span f = (last_seq f.raws + 2 ^ 32 - f.first_seq + 1) % 2 ^ 32

unfoldable pub complete : FrameState → Bool
unfolding span
complete f = length f.raws == span f && f.marker_seen

-- The slots of `ordered` filled from the map. A number before `first_seq` is a negative index, which
-- C++ leaves undefined: `none`.
unfoldable pub place : ℕ → List Bytes → Map Bytes → Option (List Bytes)
place first slots [] = some slots
place first slots ((k, raw) ∷ m) =
    let rest = place first (set slots (k - first) raw) m in
    if ltb k first || leb (length slots) (k - first) then none else rest

-- `raw_extra`, a recovered packet, goes to the slot of its number.
unfoldable pub place_extra : FrameState → Option Bytes → List Bytes → List Bytes
unfolding span
place_extra f none slots = slots
place_extra f (some raw) slots =
    let idx = (read_be16 raw 2 + 2 ^ 32 - f.first_seq) % 2 ^ 32 in
    if not (is_empty raw) && ltb idx (span f) then set slots idx raw else slots

unfoldable pub ordered : FrameState → Option Bytes → Option (List Bytes)
unfolding place place_extra span
ordered f extra =
    elim (place f.first_seq (replicate (if is_empty f.raws then 0 else span f) []) f.raws) [
      | none ↦ none
      | some slots ↦ some (if is_empty f.raws then slots else place_extra f extra slots)
    ]

pub data Emitted : Type 0 where
  frame : EncodedFrame → Emitted
  nothing undefined : Emitted

unfoldable pub emit : FrameState → Option Bytes → ℤ → Emitted
unfolding ordered
emit f extra now = elim (ordered f extra) [
  | none ↦ Emitted.undefined
  | some packets ↦
      let a = unpack no_bytes packets in
      if is_empty a.annexb
      then Emitted.nothing
      else Emitted.frame (record {
        capture_us = f.capture_ms *ℤ pos 1000;
        wall_us = pos 0;
        encode_done_us = now;
        frame_id = f.capture_ms;
        width = 0;
        height = 0;
        keyframe = a.keyframe;
        data_bytes = a.annexb;
      })
]

-- The slots of `known` from number `s` on, with `n` to go.
unfoldable pub known_slots : ℕ → ℕ → FrameState → List Bytes
known_slots zero s f = []
known_slots (suc n) s f =
    elim (lookup ((f.first_seq + s) % 2 ^ 16) f.raws) [ none ↦ [] | some raw ↦ raw ]
    ∷ known_slots n (s + 1) f

-- The last slot whose packet is not there.
unfoldable pub missing_index : ℕ → ℕ → FrameState → Option ℕ → Option ℕ
missing_index zero s f idx = idx
missing_index (suc n) s f idx =
    missing_index n (s + 1) f
      (elim (lookup ((f.first_seq + s) % 2 ^ 16) f.raws) [ none ↦ some s | some raw ↦ idx ])

unfoldable pub longest : ℕ → List Bytes → ℕ
longest n [] = n
longest n (d ∷ ds) = longest (max n (length d)) ds

-- The missing packet of a frame, from the others and the parity.
unfoldable pub recovered : FrameState → Bytes → Option Bytes
unfolding known_slots missing_index longest span
recovered f parity =
    let known = known_slots (span f) 0 f ++ parity ∷ [] in
    elim (missing_index (span f) 0 f none) [
      | none ↦ none
      | some idx ↦ elim (fec_recover known (longest (length parity) known)) [
        | none ↦ none
        | some slots ↦ some (get_or slots idx [])
      ]
    ]
