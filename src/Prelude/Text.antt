-- ===== src/Prelude/Text.antt =====
-- Texts as lists of character codes, as the source's `std::string` has them.
use Prim.Native.Char.{code}
use Prim.Native.String.{String}
use rtstream.Prelude.{
  ℕ, zero, suc, ◌+◌, ◌/◌, ◌%◌, Bool, true, false, ◌&&◌, ◌||◌, List, [], ◌∷◌, length, drop, ltb, leb,
  ◌-◌, ◌==◌, if◌then◌else◌,
}

-- The codes of a literal.
abbrev pub codes : String → List ℕ
codes String.[] = []
codes (String.◌∷◌ c s) = code c ∷ codes s

-- `text.rfind(prefix, 0) == 0`
unfoldable pub starts_with : List ℕ → List ℕ → Bool
starts_with [] text = true
starts_with (p ∷ prefix) [] = false
starts_with (p ∷ prefix) (c ∷ text) = let rest = starts_with prefix text in p == c && rest

-- `text.find(part) != npos`
unfoldable pub contains : List ℕ → List ℕ → Bool
unfolding starts_with
contains part [] = starts_with part []
contains part (c ∷ text) = let later = contains part text in starts_with part (c ∷ text) || later

-- `text.size() >= n && text.substr(text.size() - n) == suffix`, where `n` is the length of `suffix`.
unfoldable pub ends_with : List ℕ → List ℕ → Bool
unfolding starts_with
ends_with suffix text =
    leb (length suffix) (length text)
    && starts_with suffix (drop (length text - length suffix) text)

-- Two texts.
unfoldable pub same_text : List ℕ → List ℕ → Bool
same_text [] [] = true
same_text [] (d ∷ b) = false
same_text (c ∷ a) [] = false
same_text (c ∷ a) (d ∷ b) = let rest = same_text a b in c == d && rest

-- `std::tolower` in the C locale.
unfoldable pub to_lower : ℕ → ℕ
to_lower c = if leb 65 c && leb c 90 then c + 32 else c

unfoldable pub lower : List ℕ → List ℕ
unfolding to_lower
lower [] = []
lower (c ∷ text) = to_lower c ∷ lower text

-- The spaces at the head are passed over.
unfoldable pub skip_spaces : List ℕ → List ℕ
skip_spaces [] = []
skip_spaces (c ∷ text) = let rest = skip_spaces text in if c == 32 then rest else c ∷ text

-- `std::to_string`, with `n` digits at most.
unfoldable pub decimal_loop : ℕ → ℕ → List ℕ → List ℕ
decimal_loop zero v written = written
decimal_loop (suc n) v written =
    let more = decimal_loop n (v / 10) ((48 + v % 10) ∷ written) in
    if ltb v 10 then (48 + v % 10) ∷ written else more

-- A `size_t` has twenty digits at most.
unfoldable pub decimal : ℕ → List ℕ
unfolding decimal_loop
decimal v = decimal_loop 20 v []
