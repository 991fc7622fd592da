-- ===== src/TcpClient/Reads.antt =====
-- `read_all` gives the next bytes of the stream, in whatever pieces they arrive.
use rtstream.Prelude.{
  ℕ, zero, suc, ◌-◌, ◌≤◌, ◌<◌, ◌≡◌, refl, ap, ap₂, ◌∙◌, sym, List, [], ◌∷◌, ◌++◌, length, take,
  drop, length-drop, leb, subst, Bool-cases, inl, inr, arith,
}
use rtstream.Wire.Bytes.{Bytes}
use rtstream.TcpClient.{Event, Read, put_back, prepend, read_all}

-- The bytes that are still to come.
unfoldable pub content : List Event → Bytes
content [] = []
content (Event.chunk bytes ∷ es) = bytes ++ content es
content (Event.interrupted ∷ es) = content es
content (Event.broken ∷ es) = content es

-- No error, and no empty chunk, which would be the end of the connection.
abbrev pub IsOpen : List Event → Type 0
IsOpen [] = Unit {0}
IsOpen (Event.chunk bytes ∷ es) = (0 < length bytes) × IsOpen es
IsOpen (Event.interrupted ∷ es) = IsOpen es
IsOpen (Event.broken ∷ es) = ⊥

-- One list in two ways: the shorter start is a start of the longer one.
split_short :
    (xs ys zs ws : Bytes)
    → xs ++ ys ≡ zs ++ ws
    → length zs ≤ length xs
    → (take (length zs) xs ≡ zs) × (drop (length zs) xs ++ ys ≡ ws)
split_short xs ys [] ws e h = (refl, e)
split_short [] ys (z ∷ zs) ws e h = absurd (omega arith)
split_short (x ∷ xs) ys (z ∷ zs) ws e h =
    let rest = split_short xs ys zs ws (ap (drop 1) e) (omega arith) in
    (ap₂ ◌∷◌ (cc e) rest.0, rest.1)

split_long :
    (xs ys zs ws : Bytes)
    → xs ++ ys ≡ zs ++ ws
    → length xs ≤ length zs
    → (zs ≡ xs ++ drop (length xs) zs) × (ys ≡ drop (length xs) zs ++ ws)
split_long [] ys zs ws e h = (refl, e)
split_long (x ∷ xs) ys [] ws e h = absurd (omega arith)
split_long (x ∷ xs) ys (z ∷ zs) ws e h =
    let rest = split_long xs ys zs ws (ap (drop 1) e) (omega arith) in
    (ap₂ ◌∷◌ (cc e) rest.0, rest.1)

-- The bytes came, and the stream goes on with `rest`.
abbrev pub Gets : Bytes → Bytes → Read → Type 0
Gets bytes rest r = (es : List Event) × (r ≡ Read.got bytes es) × (content es ≡ rest) × IsOpen es

put_back-IsOpen : (bytes : Bytes) (es : List Event) → IsOpen es → IsOpen (put_back bytes es)
unfolding put_back
put_back-IsOpen [] es o = o
put_back-IsOpen (b ∷ bytes) es o = (omega arith, o)

content-put_back :
    (bytes : Bytes) (es : List Event) → content (put_back bytes es) ≡ bytes ++ content es
unfolding put_back content
content-put_back [] es = refl
content-put_back (b ∷ bytes) es = refl

prepend-Gets :
    (head bytes rest : Bytes) (r : Read)
    → Gets bytes rest r
    → Gets (head ++ bytes) rest (prepend head r)
unfolding prepend
prepend-Gets head bytes rest r (es, e, c, o) = (es, rw e refl, c, o)

-- However the stream is cut into pieces, and however often a call is interrupted, `read_all` gives
-- exactly the next bytes that it asks for, and leaves the others; the stream has that many, with no
-- error among its events.
pub read_all-Gets :
    (es : List Event) (n : ℕ) (bytes rest : Bytes)
    → IsOpen es
    → content es ≡ bytes ++ rest
    → length bytes ≡ n
    → Gets bytes rest (read_all es n)
unfolding read_all content
read_all-Gets es zero [] rest o e len = (es, refl, e, o)
read_all-Gets es zero (b ∷ bytes) rest o e len = absurd (omega arith)
read_all-Gets es (suc n) [] rest o e len = absurd (omega arith)
read_all-Gets [] (suc n) (b ∷ bytes) rest o e len = absurd (omega (arith, ap length e))
read_all-Gets (Event.interrupted ∷ es) (suc n) (b ∷ bytes) rest o e len =
    read_all-Gets es (suc n) (b ∷ bytes) rest o e len
read_all-Gets (Event.broken ∷ es) (suc n) (b ∷ bytes) rest o e len = absurd o
read_all-Gets (Event.chunk [] ∷ es) (suc n) (b ∷ bytes) rest o e len = absurd (omega (arith, o.0))
read_all-Gets (Event.chunk (x ∷ xs) ∷ es) (suc n) (b ∷ bytes) rest o e len =
    elim (Bool-cases (leb n (length xs))) [
      | inl enough ↦
          let some_of =
            subst (λ k. (take k xs ≡ bytes) × (drop k xs ++ content es ≡ rest)) same_length
              (split_short xs (content es) bytes rest (ap (drop 1) e) (ground (arith, enough))) in
          rw enough (
            put_back (drop n xs) es,
            ap₂ (λ y ys. Read.got (y ∷ ys) (put_back (drop n xs) es)) same_head some_of.0,
            content-put_back (drop n xs) es ∙ some_of.1,
            put_back-IsOpen (drop n xs) es o.1,
          )
      | inr short ↦
          let all_of =
            split_long xs (content es) bytes rest (ap (drop 1) e) (ground (arith, short)) in
          let later =
            read_all-Gets es (n - length xs) (drop (length xs) bytes) rest o.1 all_of.1
              (omega (arith, length-drop (length xs) bytes)) in
          rw short (
            subst (λ whole. Gets whole rest (prepend (x ∷ xs) (read_all es (n - length xs))))
              (ap₂ ◌∷◌ same_head (sym all_of.0))
              (prepend-Gets (x ∷ xs) (drop (length xs) bytes) rest _ later))
    ]
  where
    same_length : length bytes ≡ n
    same_length = omega arith

    same_head : x ≡ b
    same_head = cc e
