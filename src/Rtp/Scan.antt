-- ===== src/Rtp/Scan.antt =====
-- A byte stream of NAL units is cut into those units.
use rtstream.Prelude.{
  ℕ, suc, ◌<◌, ◌≡◌, refl, ap, Bool, true, false, ◌&&◌, not, List, [], ◌∷◌, ◌++◌, some, length, take,
  drop, leb, ◌==◌, arith,
}
use rtstream.Wire.Bytes.{Bytes, byte_at}
use rtstream.Rtp.Nalu.{code_at, find_start, nal_length, next_nalu}

-- No start code begins in the unit, wherever it ends: no two zero bytes stand before a byte below 2,
-- and the last byte is not zero. H.264's emulation prevention bytes and trailing bits see to both.
unfoldable pub clean : Bytes → Bool
clean [] = true
clean (x ∷ []) = not (x == 0)
clean (x ∷ y ∷ rest) =
    let more = clean (y ∷ rest) in not (x == 0 && y == 0 && leb (byte_at rest 0) 1) && more

-- A start code of four bytes, or of three.
abbrev pub code : Bool → Bytes
code true = 0 ∷ 0 ∷ 0 ∷ 1 ∷ []
code false = 0 ∷ 0 ∷ 1 ∷ []

-- Units, each behind its start code.
unfoldable pub stream : List (Bool × Bytes) → Bytes
stream [] = []
stream ((long, nal) ∷ us) = code long ++ (nal ++ stream us)

find_start-code : (long : Bool) (rest : Bytes) → find_start (code long ++ rest) ≡ some rest
unfolding find_start code_at
find_start-code true rest = refl
find_start-code false rest = refl

nal_length-stream : (us : List (Bool × Bytes)) → nal_length (stream us) ≡ 0
unfolding nal_length stream code_at
nal_length-stream [] = refl
nal_length-stream ((true, nal) ∷ us) = refl
nal_length-stream ((false, nal) ∷ us) = refl

-- No start code stands at the head of a clean unit.
code_at-clean :
    (x : ℕ) (xs : Bytes) (us : List (Bool × Bytes))
    → clean (x ∷ xs) ≡ true
    → code_at ((x ∷ xs) ++ stream us) ≡ 0
unfolding code_at clean stream
code_at-clean x [] [] h = refl
code_at-clean x [] ((true, nal) ∷ us) h = ground arith
code_at-clean x [] ((false, nal) ∷ us) h = ground arith
code_at-clean x (y ∷ []) [] h = refl
code_at-clean x (y ∷ []) ((true, nal) ∷ us) h = ground arith
code_at-clean x (y ∷ []) ((false, nal) ∷ us) h = ground arith
code_at-clean x (y ∷ z ∷ zs) us h = ground arith

clean-tail : (x : ℕ) (xs : Bytes) → clean (x ∷ xs) ≡ true → clean xs ≡ true
unfolding clean
clean-tail x [] h = refl
clean-tail x (y ∷ ys) h = ground arith

nal_length-append :
    (nal : Bytes) (us : List (Bool × Bytes))
    → clean nal ≡ true
    → nal_length (nal ++ stream us) ≡ length nal
unfolding nal_length
nal_length-append [] us h = nal_length-stream us
nal_length-append (x ∷ xs) us h =
    rw (code_at-clean x xs us h) (ap suc (nal_length-append xs us (clean-tail x xs h)))

take-append : (xs ys : Bytes) → take (length xs) (xs ++ ys) ≡ xs
take-append [] ys = refl
take-append (x ∷ xs) ys = ap (λ rest. x ∷ rest) (take-append xs ys)

drop-append : (xs ys : Bytes) → drop (length xs) (xs ++ ys) ≡ ys
drop-append [] ys = refl
drop-append (x ∷ xs) ys = drop-append xs ys

-- The next unit of a stream is its first, and the rest is the rest of the stream. The unit is clean
-- and not empty.
pub next_nalu-stream :
    (long : Bool) (nal : Bytes) (us : List (Bool × Bytes))
    → clean nal ≡ true
    → 0 < length nal
    → next_nalu (stream ((long, nal) ∷ us)) ≡ some (nal, stream us)
unfolding next_nalu stream
next_nalu-stream long nal us h p =
    let found = find_start-code long (nal ++ stream us) in
    let counted = nal_length-append nal us h in
    let there : (length nal == 0) ≡ false = ground arith in
    rw (next_nalu, found, counted, there, take-append nal (stream us), drop-append nal (stream us))
      refl
