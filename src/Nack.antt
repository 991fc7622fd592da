-- ===== src/Nack.antt =====
-- src/transport/nack_manager.h: the server's cache of sent packets, and what a NACK sends again.
pub mod Window
pub mod Requests
mod Tests
use mathlib.Core.List.{reverse}
use rtstream.Prelude.{
  ℕ, zero, suc, ◌+◌, ◌*◌, ◌/◌, Bool, ◌&&◌, true, List, [], ◌∷◌, ◌++◌, Option, none, some, length,
  leb, ◌==◌, if◌then◌else◌,
}
use rtstream.Wire.Bytes.{Bytes, read_be16, read_be32}
use rtstream.Stats.{Metrics, bump}

pub record RetransPacket : Type 0 where
  pub group_id : ℕ
  pub fragment_seq : ℕ
  pub raw : Bytes

-- `items` has the front of the deque first. `send_set` says whether `send_` holds a function;
-- what that function is given is the first result of `on_nack`.
pub record NackManager : Type 0 where
  pub items : List RetransPacket
  pub cache : ℕ
  pub send_set : Bool

-- `while (items_.size() >= cache_) items_.pop_front();`
pub make_room : ℕ → List RetransPacket → List RetransPacket
make_room cache [] = []
make_room cache (p ∷ items) =
    if leb cache (length (p ∷ items)) then make_room cache items else p ∷ items

unfoldable pub remember : NackManager → RetransPacket → NackManager
unfolding make_room
remember m p = if m.cache == 0 then m else record m { items = make_room m.cache m.items ++ p ∷ [] }

-- The loop of `find`, over the packets from the newest to the oldest.
pub find_from : ℕ → ℕ → List RetransPacket → Option Bytes
find_from gid seq [] = none
find_from gid seq (p ∷ rest) =
    if p.group_id == gid && p.fragment_seq == seq then some p.raw else find_from gid seq rest

unfoldable pub find : NackManager → ℕ → ℕ → Option Bytes
unfolding find_from
find m gid seq = find_from gid seq (reverse m.items)

-- One record of a NACK: the packets to send, put before those of the later records.
pub answer : NackManager → ℕ → ℕ → Metrics → List Bytes × Metrics
answer m gid seq stats =
    let counted : Metrics = record stats { nack_received = bump stats.nack_received 1 } in
    elim (find m gid seq) [
      | none ↦ ([], counted)
      | some raw ↦
          if m.send_set
          then (raw ∷ [], record counted { retransmit_sent = bump counted.retransmit_sent 1 })
          else ([], counted)
    ]

-- The loop of `on_nack` at record `i`, with `n` records to go.
pub nack_loop : NackManager → ℕ → ℕ → Bytes → Metrics → List Bytes × Metrics
nack_loop m zero i payload stats = ([], stats)
nack_loop m (suc n) i payload stats =
    let (sent, stats') =
      answer m (read_be32 payload (i * 6)) (read_be16 payload (i * 6 + 4)) stats in
    let (later, stats'') = nack_loop m n (i + 1) payload stats' in (sent ++ later, stats'')

unfoldable pub on_nack : NackManager → Bytes → Metrics → List Bytes × Metrics
unfolding find answer nack_loop
on_nack m payload stats = nack_loop m (length payload / 6) 0 payload stats
