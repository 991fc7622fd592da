-- ===== src/Nack/Window.antt =====
-- The cache is a sliding window over the packets that were sent.
use mathlib.Core.List.{reverse, reverse-append}
use rtstream.Prelude.{
  ℕ, zero, suc, ◌-◌, ◌<◌, ◌≡◌, refl, ap, ◌∙◌, sym, List, [], ◌∷◌, ◌++◌, Option, none, some, ◌&&◌,
  ◌==◌, if◌then◌else◌, length, drop, last_n, length-append, length-drop, drop-append, drop-drop,
  drop-nil, Bool-cases, inl, inr, leb, arith,
}
use rtstream.Wire.Bytes.{Bytes}
use rtstream.Nack.{RetransPacket, NackManager, make_room, remember, find, find_from}

make_room-eq-last_n :
    (c : ℕ) (items : List RetransPacket) → make_room (suc c) items ≡ last_n c items
unfolding make_room
make_room-eq-last_n c [] = sym (drop-nil RetransPacket (0 - c))
make_room-eq-last_n c (p ∷ items) = elim (Bool-cases (leb (suc c) (suc (length items)))) [
  | inl full ↦ rw full (
      make_room-eq-last_n c items
      ∙ ap (λ k. drop k (p ∷ items)) {x = suc (length items - c)} (ground arith))
  | inr free ↦ rw free (ap (λ k. drop k (p ∷ items)) {x = 0} (ground arith))
]

items-remember :
    (m : NackManager) (p : RetransPacket)
    → 0 < m.cache
    → (remember m p).items ≡ make_room m.cache m.items ++ p ∷ []
unfolding remember
items-remember m p h = ground arith

window_step :
    (c : ℕ) (sent : List RetransPacket) (p : RetransPacket)
    → 0 < c
    → make_room c (last_n c sent) ++ p ∷ [] ≡ last_n c (sent ++ p ∷ [])
window_step zero sent p h = absurd (omega arith)
window_step (suc c) sent p h =
    let k = length sent - suc c in
    rw (make_room-eq-last_n c (drop k sent), drop-drop (length (drop k sent) - c) k sent)
      (sym (drop-append _ sent (p ∷ []) (omega (arith, length-drop k sent)))
        ∙ ap (λ n. drop n (sent ++ p ∷ []))
            (omega (arith, length-drop k sent, length-append sent (p ∷ []))))

-- `remember` on a cache of `cache_ > 0` packets: if the deque holds the last `cache_` of all
-- packets sent so far, it holds the last `cache_` of them and the new one afterwards.
pub remember-last_n :
    (m : NackManager) (sent : List RetransPacket) (p : RetransPacket)
    → 0 < m.cache
    → m.items ≡ last_n m.cache sent
    → (remember m p).items ≡ last_n m.cache (sent ++ p ∷ [])
remember-last_n m sent p h e =
    items-remember m p h
    ∙ ap (λ items. make_room m.cache items ++ p ∷ []) e
    ∙ window_step m.cache sent p h

find_from-here :
    (gid seq : ℕ) (p : RetransPacket) (rest : List RetransPacket)
    → p.group_id ≡ gid
    → p.fragment_seq ≡ seq
    → find_from gid seq (p ∷ rest) ≡ some p.raw
unfolding find_from
find_from-here gid seq p rest a b = ground arith

-- The packet just remembered is the one that its key finds, also where an older packet has it too.
find-remember :
    (m : NackManager) (p : RetransPacket)
    → 0 < m.cache
    → find (remember m p) p.group_id p.fragment_seq ≡ some p.raw
unfolding find
find-remember m p h =
    rw (items-remember m p h, reverse-append (make_room m.cache m.items) (p ∷ []))
      (find_from-here p.group_id p.fragment_seq p (reverse (make_room m.cache m.items)) refl refl)

-- Among the packets from the oldest to the newest, the last one with the given group and number.
unfoldable pub newest : ℕ → ℕ → List RetransPacket → Option Bytes
newest gid seq [] = none
newest gid seq (p ∷ later) = elim (newest gid seq later) [
  | some raw ↦ some raw
  | none ↦ if p.group_id == gid && p.fragment_seq == seq then some p.raw else none
]

find_from-append :
    (gid seq : ℕ) (xs : List RetransPacket) (p : RetransPacket)
    → find_from gid seq (xs ++ p ∷ []) ≡ elim (find_from gid seq xs) [
      | some raw ↦ some raw
      | none ↦ if p.group_id == gid && p.fragment_seq == seq then some p.raw else none
    ]
unfolding find_from
find_from-append gid seq [] p = ground arith
find_from-append gid seq (x ∷ xs) p = ground (arith, find_from-append gid seq xs p)

find_from-newest :
    (gid seq : ℕ) (items : List RetransPacket)
    → find_from gid seq (reverse items) ≡ newest gid seq items
unfolding newest find_from
find_from-newest gid seq [] = refl
find_from-newest gid seq (p ∷ later) =
    rw (reverse-append (p ∷ []) later, find_from-append gid seq (reverse later) p)
      (ap
        (λ o. elim o [
          | some raw ↦ some raw
          | none ↦ if p.group_id == gid && p.fragment_seq == seq then some p.raw else none
        ])
        (find_from-newest gid seq later))

-- The search gives the newest packet of the cache with the key, and nothing where there is none.
pub find-newest : (m : NackManager) (gid seq : ℕ) → find m gid seq ≡ newest gid seq m.items
unfolding find
find-newest m gid seq = find_from-newest gid seq m.items
