-- ===== src/Rtp/Nalu.antt =====
-- `RtpServer::next_nalu`: the next NAL unit of an H.264 byte stream. A position of the source is the
-- rest of the buffer from there.
use rtstream.Prelude.{
  ℕ, suc, Bool, false, ◌&&◌, [], ◌∷◌, Option, none, some, take, drop, ◌==◌, if◌then◌else◌,
}
use rtstream.Wire.Bytes.{Bytes}

is_one : Bytes → Bool
is_one [] = false
is_one (d ∷ rest) = d == 1

-- The length of the start code at the head, 0 where there is none.
unfoldable pub code_at : Bytes → ℕ
unfolding is_one
code_at [] = 0
code_at (a ∷ []) = 0
code_at (a ∷ b ∷ []) = 0
code_at (a ∷ b ∷ c ∷ rest) =
    if a == 0 && b == 0 then (if c == 1 then 3 else if c == 0 && is_one rest then 4 else 0) else 0

-- The first loop: what stands behind the next start code.
unfoldable pub find_start : Bytes → Option Bytes
unfolding code_at
find_start [] = none
find_start (x ∷ xs) =
    let later = find_start xs in
    let n = code_at (x ∷ xs) in if n == 0 then later else some (drop n (x ∷ xs))

-- The second loop: how many bytes there are before the next start code, or before the end.
unfoldable pub nal_length : Bytes → ℕ
unfolding code_at
nal_length [] = 0
nal_length (x ∷ xs) = let more = suc (nal_length xs) in if code_at (x ∷ xs) == 0 then more else 0

-- The unit, and the rest of the buffer behind it.
unfoldable pub next_nalu : Bytes → Option (Bytes × Bytes)
unfolding find_start nal_length
next_nalu d = elim (find_start d) [
  | none ↦ none
  | some body ↦ let n = nal_length body in if n == 0 then none else some (take n body, drop n body)
]
