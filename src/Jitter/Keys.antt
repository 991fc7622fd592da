-- ===== src/Jitter/Keys.antt =====
-- The keys of the buffer's map: each is its packet's number, and evicting keeps a part of the map.
use rtstream.Prelude.{ℕ, suc, ◌≤◌, ◌<◌, ◌≡◌, [], ◌∷◌, some, length, arith}
use rtstream.Prelude.Maps.{Map, lookup, insert, erase, Ascends, KeysBelow, Ascends-mono}
use rtstream.Stats.{bump}
use rtstream.Jitter.State.{Packet}
use rtstream.Jitter.Missing.{evict_loop}

module _ {Ctx : Type 0} where
  -- Each packet stands under its own sequence number.
  abbrev pub KeysMatch : Map (Packet Ctx) → Type 0
  KeysMatch [] = Unit {0}
  KeysMatch ((k, u) ∷ m) = (u.seq ≡ k) × KeysMatch m

  pub insert-KeysMatch :
      (k : ℕ) (u : Packet Ctx) (m : Map (Packet Ctx))
      → u.seq ≡ k
      → KeysMatch m
      → KeysMatch (insert k u m)
  unfolding insert
  insert-KeysMatch k u [] e h = (e, tt)
  insert-KeysMatch k u ((j, w) ∷ m) e h = ground (arith, insert-KeysMatch k u m)

  pub erase-KeysMatch : (k : ℕ) (m : Map (Packet Ctx)) → KeysMatch m → KeysMatch (erase k m)
  unfolding erase
  erase-KeysMatch k [] h = tt
  erase-KeysMatch k ((j, w) ∷ m) h = ground (arith, erase-KeysMatch k m)

  pub lookup-KeysMatch :
      (k : ℕ) (u : Packet Ctx) (m : Map (Packet Ctx))
      → KeysMatch m
      → lookup k m ≡ some u
      → u.seq ≡ k
  unfolding lookup
  lookup-KeysMatch k u [] h e = cc
  lookup-KeysMatch k u ((j, w) ∷ m) h e = ground (arith, lookup-KeysMatch k u m)

  pub lookup-KeysBelow :
      (k hi : ℕ) (u : Packet Ctx) (m : Map (Packet Ctx))
      → KeysBelow hi m
      → lookup k m ≡ some u
      → k < hi
  unfolding lookup
  lookup-KeysBelow k hi u [] h e = cc
  lookup-KeysBelow k hi u ((j, w) ∷ m) h e = ground (arith, lookup-KeysBelow k hi u m)

  pub evict_loop-sub :
      (n lo hi lost : ℕ) (m : Map (Packet Ctx))
      → Ascends lo m
      → KeysBelow hi m
      → KeysMatch m
      → Ascends lo (evict_loop n m lost).0
        × KeysBelow hi (evict_loop n m lost).0
        × KeysMatch (evict_loop n m lost).0
        × (length (evict_loop n m lost).0 ≤ n)
  unfolding evict_loop
  evict_loop-sub n lo hi lost [] a b c = (tt, tt, tt, omega arith)
  evict_loop-sub n lo hi lost ((k, u) ∷ m) a b c = ground (
    arith,
    evict_loop-sub n (suc k) hi (bump lost 1) m,
    Ascends-mono (evict_loop n m (bump lost 1)).0 lo (suc k),
  )
