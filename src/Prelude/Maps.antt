-- ===== src/Prelude/Maps.antt =====
-- `std::map` with unsigned keys, as a list of pairs by rising key: `begin()` is the head.
use rtstream.Prelude.{
  ℕ, suc, ◌+◌, ◌≤◌, ◌<◌, ◌≡◌, refl, List, [], ◌∷◌, Option, none, some, length, ltb, ◌==◌,
  if◌then◌else◌, arith,
}

abbrev pub Map {ℓ} : Type ℓ → Type ℓ
Map V = List (ℕ × V)

module _ {ℓ} {V : Type ℓ} where
  -- `m.find(key)`
  unfoldable pub lookup : ℕ → Map V → Option V
  lookup key [] = none
  lookup key ((at, value) ∷ rest) =
      let found = lookup key rest in if at == key then some value else found

  -- `m[key] = value`
  unfoldable pub insert : ℕ → V → Map V → Map V
  insert key value [] = (key, value) ∷ []
  insert key value ((at, old) ∷ rest) =
      if key == at
      then (key, value) ∷ rest
      else if ltb key at
      then (key, value) ∷ (at, old) ∷ rest
      else (at, old) ∷ insert key value rest

  -- `m.erase(key)`
  unfoldable pub erase : ℕ → Map V → Map V
  erase key [] = []
  erase key ((at, value) ∷ rest) = if at == key then rest else (at, value) ∷ erase key rest

  -- The keys rise strictly, and none is below `lo`.
  abbrev pub Ascends : ℕ → Map V → Type 0
  Ascends lo [] = Unit {0}
  Ascends lo ((k, v) ∷ m) = (lo ≤ k) × Ascends (suc k) m

  abbrev pub KeysBelow : ℕ → Map V → Type 0
  KeysBelow hi [] = Unit {0}
  KeysBelow hi ((k, v) ∷ m) = (k < hi) × KeysBelow hi m

  pub Ascends-mono : (m : Map V) (lo hi : ℕ) → lo ≤ hi → Ascends hi m → Ascends lo m
  Ascends-mono [] lo hi h a = tt
  Ascends-mono ((k, v) ∷ m) lo hi h a = (omega arith, a.1)

  pub lookup-insert :
      (new key : ℕ) (value : V) (m : Map V)
      → lookup key (insert new value m) ≡ (if new == key then some value else lookup key m)
  unfolding lookup insert
  lookup-insert new key value [] = refl
  lookup-insert new key value ((at, old) ∷ rest) = ground (arith, lookup-insert new key value rest)

  pub insert-Ascends :
      (k lo : ℕ) (v : V) (m : Map V) → lo ≤ k → Ascends lo m → Ascends lo (insert k v m)
  unfolding insert
  insert-Ascends k lo v [] h a = (h, tt)
  insert-Ascends k lo v ((j, w) ∷ m) h a =
      ground (arith, insert-Ascends k (suc j) v m, Ascends-mono m (suc k) (suc j))

  pub erase-Ascends : (k lo : ℕ) (m : Map V) → Ascends lo m → Ascends lo (erase k m)
  unfolding erase
  erase-Ascends k lo [] a = tt
  erase-Ascends k lo ((j, w) ∷ m) a =
      ground (arith, erase-Ascends k (suc j) m, Ascends-mono m lo (suc j))

  pub insert-KeysBelow :
      (k hi : ℕ) (v : V) (m : Map V) → k < hi → KeysBelow hi m → KeysBelow hi (insert k v m)
  unfolding insert
  insert-KeysBelow k hi v [] h b = (h, tt)
  insert-KeysBelow k hi v ((j, w) ∷ m) h b = ground (arith, insert-KeysBelow k hi v m)

  pub erase-KeysBelow : (k hi : ℕ) (m : Map V) → KeysBelow hi m → KeysBelow hi (erase k m)
  unfolding erase
  erase-KeysBelow k hi [] b = tt
  erase-KeysBelow k hi ((j, w) ∷ m) b = ground (arith, erase-KeysBelow k hi m)

  pub length-insert_le : (k : ℕ) (v : V) (m : Map V) → length (insert k v m) ≤ length m + 1
  unfolding insert
  length-insert_le k v [] = omega arith
  length-insert_le k v ((j, w) ∷ m) = ground (arith, length-insert_le k v m)

  pub length-insert_new :
      (k : ℕ) (v : V) (m : Map V) → lookup k m ≡ none → length (insert k v m) ≡ length m + 1
  unfolding insert lookup
  length-insert_new k v [] e = omega arith
  length-insert_new k v ((j, w) ∷ m) e = ground (arith, length-insert_new k v m)

  pub length-erase :
      (k : ℕ) (v : V) (m : Map V) → lookup k m ≡ some v → length (erase k m) + 1 ≡ length m
  unfolding erase lookup
  length-erase k v [] e = cc
  length-erase k v ((j, w) ∷ m) e = ground (arith, length-erase k v m)

  -- A key below all of the map's is not in it.
  pub lookup_below : (k lo : ℕ) (m : Map V) → Ascends lo m → k < lo → lookup k m ≡ none
  unfolding lookup
  lookup_below k lo [] a h = refl
  lookup_below k lo ((j, w) ∷ m) a h = ground (arith, lookup_below k (suc j) m)

  pub lookup-erase_self : (k lo : ℕ) (m : Map V) → Ascends lo m → lookup k (erase k m) ≡ none
  unfolding lookup erase
  lookup-erase_self k lo [] a = refl
  lookup-erase_self k lo ((j, w) ∷ m) a =
      ground (arith, lookup_below k (suc j) m, lookup-erase_self k (suc j) m)

  -- Without its least key the rest lies above it.
  pub erase_least-Ascends :
      (k : ℕ) (v : V) (m : Map V) → Ascends k m → lookup k m ≡ some v → Ascends (suc k) (erase k m)
  unfolding lookup erase
  erase_least-Ascends k v [] a e = tt
  erase_least-Ascends k v ((j, w) ∷ m) a e =
      ground
        (arith, erase-Ascends k (suc j) m, Ascends-mono m (suc k) (suc j), lookup_below k (suc j) m)

  pub lookup_first : (k : ℕ) (v : V) (m : Map V) → lookup k ((k, v) ∷ m) ≡ some v
  unfolding lookup
  lookup_first k v m = ground arith

module _ {ℓ} {V : Type ℓ} where
  -- A key that was not there.
  pub erase-insert : (k : ℕ) (v : V) (m : Map V) → lookup k m ≡ none → erase k (insert k v m) ≡ m
  unfolding lookup erase insert
  erase-insert k v [] h = ground arith
  erase-insert k v ((j, w) ∷ m) h = ground (arith, erase-insert k v m)

  pub erase-none : (k : ℕ) (m : Map V) → lookup k m ≡ none → erase k m ≡ m
  unfolding lookup erase
  erase-none k [] h = refl
  erase-none k ((j, w) ∷ m) h = ground (arith, erase-none k m)

  pub insert-insert :
      (k : ℕ) (v w : V) (m : Map V) → lookup k m ≡ none → insert k w (insert k v m) ≡ insert k w m
  unfolding lookup insert
  insert-insert k v w [] h = ground arith
  insert-insert k v w ((j, u) ∷ m) h = ground (arith, insert-insert k v w m)
