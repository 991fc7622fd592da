-- ===== src/UdpReceiver.antt =====
-- src/receiver/udp_receiver.h: fragments are put together by groups; what is missing is recovered or
-- asked for again; a complete frame goes to the jitter buffer.
pub mod Clock
pub mod Missing
pub mod Rebuild
pub mod Receive
pub mod Gather
pub mod Run
pub mod Whole
mod Tests
use rtstream.Prelude.{
  ℕ, zero, suc, ◌+◌, ◌-◌, ◌*◌, ◌%◌, ◌^◌, max, Bool, true, false, ◌&&◌, not, List, [], ◌∷◌, ◌++◌,
  Option, none, some, length, take, set, get_or, replicate, is_empty, ltb, ◌==◌, if◌then◌else◌,
}
use rtstream.Prelude.Int.{ℤ, pos, ◌-ℤ◌, ltb_ℤ}
use rtstream.Prelude.Maps.{Map, lookup, insert, erase}
use rtstream.Wire.Bytes.{Bytes, u16, be16, be32}
use rtstream.Wire.Media.{PayloadType, payload_code}
use rtstream.Wire.Udp
use rtstream.Wire.Udp.{UdpHeader, blank, fec_seq, keyframe}
use rtstream.Stats.{Metrics, bump}
use rtstream.Fec.{fec_recover}
use rtstream.Jitter.Double.{Double}
use rtstream.Jitter.State.{JitterBuffer}
use rtstream.Jitter.Push
use rtstream.Jitter.Missing.{Effect}
use rtstream.UdpReceiver.Clock.{extend_capture_us}

-- A frame that is put together.
pub record UdpAssembled : Type 0 where
  pub frame_id : ℕ
  pub capture_us : ℤ
  pub keyframe : Bool
  pub annexb : Bytes

-- `fragment_cnt` does not count the recovery packet; an empty slot of `frags` is a missing fragment.
pub record Group : Type 0 where
  pub fragment_cnt : ℕ
  pub frame_id : ℕ
  pub capture_us : ℤ
  pub keyframe : Bool
  pub first_recv_us : ℤ
  pub last_nack_us : ℤ
  pub fec_seen : Bool
  pub frags : List Bytes
  pub parity : Bytes

abbrev pub new_group : Group
new_group = record {
  fragment_cnt = 0;
  frame_id = 0;
  capture_us = pos 0;
  keyframe = false;
  first_recv_us = pos 0;
  last_nack_us = pos 0;
  fec_seen = false;
  frags = [];
  parity = [];
}

-- What the calls of `now_us()` in one call of `on_media` give.
pub record Times : Type 0 where
  pub at_capture : ℤ
  pub at_first : ℤ
  pub at_check : ℤ
  pub at_push : ℤ

unfoldable pub complete : List Bytes → Bool
complete [] = true
complete (d ∷ ds) = not (is_empty d) && complete ds

unfoldable pub missing_count : List Bytes → ℕ
missing_count [] = 0
missing_count (d ∷ ds) = let m = missing_count ds in if is_empty d then m + 1 else m

-- `for (auto& f : g.frags) expect = std::max(expect, f.size());`
unfoldable pub longest : ℕ → List Bytes → ℕ
longest expect [] = expect
longest expect (d ∷ ds) = longest (max expect (length d)) ds

-- `finish` puts the fragments together.
unfoldable pub join : List Bytes → Bytes
join [] = []
join (d ∷ ds) = d ++ join ds

-- The records of `send_nack` from slot `i` on, whose index is a `uint16_t`.
unfoldable pub nack_records : ℕ → ℕ → List Bytes → Bytes
nack_records gid i [] = []
nack_records gid i (d ∷ ds) =
    let rest = nack_records gid (i + 1) ds in
    if is_empty d then be32 gid ++ (be16 i ++ rest) else rest

-- The datagram that `send_nack` sends, if it sends one.
unfoldable pub send_nack : Group → List Bytes
unfolding nack_records
send_nack g =
    let recs = nack_records g.frame_id 0 g.frags in
    let h : UdpHeader = record blank {
      payload_type = payload_code PayloadType.nack;
      payload_len = u16 (length recs);
    } in
    if is_empty recs then [] else (Udp.write h ++ recs) ∷ []

-- The recovery of `try_finalize`: the slots when exactly one fragment was missing.
unfoldable pub recover : Group → Option (List Bytes)
unfolding longest
recover g =
    let expect = max (longest 0 g.frags) (length g.parity) in
    elim (fec_recover (g.frags ++ g.parity ∷ []) expect) [
      | none ↦ none
      | some known ↦ some (take g.fragment_cnt known)
    ]

-- The fields that the first packet of a group sets.
unfoldable pub begin_group : Group → UdpHeader → ℤ → ℤ → Group
begin_group g h capture now =
    let cnt = h.fragment_cnt - (if ltb 0 h.fragment_cnt then 1 else 0) in
    if is_empty g.frags
    then record g {
      first_recv_us = now;
      frame_id = h.group_id;
      capture_us = capture;
      keyframe = keyframe h;
      fragment_cnt = cnt;
      frags = replicate cnt [];
    }
    else g

-- `none` is the early return for a number out of range. A slot that is taken keeps its fragment.
unfoldable pub put_fragment : Group → UdpHeader → Bytes → Option Group
put_fragment g h payload =
    if h.fragment_seq == fec_seq
    then some (record g { fec_seen = true; parity = payload })
    else if ltb h.fragment_seq g.fragment_cnt
    then some (
        if is_empty (get_or g.frags h.fragment_seq [])
        then record g { frags = set g.frags h.fragment_seq payload }
        else g)
    else none

-- The members that receiving touches.
pub record UdpReceiver (D : Double) : Type 0 where
  pub groups : Map Group
  pub jb : JitterBuffer D UdpAssembled
  pub last_capture_us : ℤ

-- A receiver after a call, the datagrams that it sent, and the counters.
pub record Received (D : Double) : Type 0 where
  pub after : UdpReceiver D
  pub out : List Bytes
  pub stats : Metrics

module _ {D : Double} where
  unfoldable pub finish : UdpReceiver D → Group → List Bytes → ℤ → Metrics → Received D
  unfolding join
  finish r g frags now stats =
      let a : UdpAssembled = record {
        frame_id = g.frame_id;
        capture_us = g.capture_us;
        keyframe = g.keyframe;
        annexb = join frags;
      } in
      let (taken, pushed) = Push.push r.jb g.frame_id g.capture_us a now stats in
      record {
        after = record r { groups = erase g.frame_id r.groups; jb = pushed.after };
        out = [];
        stats = pushed.stats;
      }

  -- The end of `try_finalize`: ask for what is missing, at most every 10 ms; give up after 250 ms.
  unfoldable pub wait_more : UdpReceiver D → Group → ℤ → Metrics → Received D
  unfolding send_nack missing_count
  wait_more r g now stats =
      let ask = not (ltb_ℤ (now -ℤ g.last_nack_us) (pos 10000)) in
      let g' : Group = if ask then record g { last_nack_us = now } else g in
      let out = if ask then send_nack g' else [] in
      if ltb_ℤ (pos 250000) (now -ℤ g.first_recv_us)
      then record {
        after = record r { groups = erase g.frame_id r.groups };
        out = out;
        stats = record stats { net_lost = bump stats.net_lost (missing_count g.frags) };
      }
      else record {
        after = record r { groups = insert g.frame_id g' r.groups };
        out = out;
        stats = stats;
      }

  unfoldable pub try_finalize : UdpReceiver D → Group → Times → Metrics → Received D
  unfolding complete recover finish wait_more
  try_finalize r g t stats =
      if complete g.frags
      then finish r g g.frags t.at_push stats
      else elim (if g.fec_seen then recover g else none) [
        | none ↦ wait_more r g t.at_check stats
        | some frags ↦
            finish r g frags t.at_push (record stats { fec_recovered = bump stats.fec_recovered 1 })
      ]

  unfoldable pub on_media : UdpReceiver D → UdpHeader → Bytes → Times → Metrics → Received D
  unfolding begin_group put_fragment try_finalize
  on_media r h payload t stats =
      let capture = extend_capture_us r.last_capture_us h.capture_us_lo t.at_capture in
      let r' : UdpReceiver D = record r { last_capture_us = capture } in
      let found : Group = elim (lookup h.group_id r.groups) [ none ↦ new_group | some g ↦ g ] in
      let g = begin_group found h capture t.at_first in
      elim (put_fragment g h payload) [
        | none ↦ record {
          after = record r' { groups = insert h.group_id g r.groups };
          out = [];
          stats = stats;
        }
        | some g' ↦ try_finalize r' g' t stats
      ]
