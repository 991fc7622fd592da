-- ===== src/HttpServer/RoundTrip.antt =====
-- A request as a client writes it is read as its method, its path, and the effect of its headers.
use rtstream.Prelude.{
  ℕ, zero, suc, ◌+◌, ◌≤◌, ◌<◌, ◌≡◌, refl, ap, ◌∙◌, sym, Bool, true, false, ◌&&◌, not, List, [], ◌∷◌,
  ◌++◌, some, length, length-append, append_assoc, append-nil, is_empty, ◌==◌, arith,
}
use rtstream.Wire.Bytes.{Bytes}
use rtstream.WsServer.{drop_cr, read_line}
use rtstream.HttpServer.{
  is_space, skip_blank, word, two_words, Request, read_header, read_headers, without_query,
  read_request, crlf,
}

-- No line feed.
unfoldable pub one_line : Bytes → Bool
one_line [] = true
one_line (c ∷ line) = not (c == 10) && one_line line

-- No white space.
unfoldable pub one_word : Bytes → Bool
one_word [] = true
one_word (c ∷ text) = not (is_space c) && one_word text

both : (a b : Bool) → (not a && b) ≡ true → (a ≡ false) × (b ≡ true)
both true b h = cc
both false b h = (refl, h)

drop_cr-append : (line : Bytes) → drop_cr (line ++ 13 ∷ []) ≡ line
unfolding drop_cr
drop_cr-append [] = refl
drop_cr-append (c ∷ []) = refl
drop_cr-append (c ∷ d ∷ line) = ap (λ rest. c ∷ rest) (drop_cr-append (d ∷ line))

read_line-one_line :
    (line acc rest : Bytes) (n : ℕ)
    → one_line line ≡ true
    → length line + 2 ≤ n
    → read_line n acc (line ++ (crlf ++ rest)) ≡ some (acc ++ line, rest)
unfolding read_line one_line
read_line-one_line [] acc rest zero h le = absurd (omega arith)
read_line-one_line [] acc rest (suc zero) h le = absurd (omega arith)
read_line-one_line [] acc rest (suc (suc n)) h le =
    ap (λ l. some (l, rest)) (drop_cr-append acc ∙ sym (append-nil acc))
read_line-one_line (c ∷ line) acc rest zero h le = absurd (omega arith)
read_line-one_line (c ∷ line) acc rest (suc n) h le =
    let facts = both (c == 10) (one_line line) h in
    rw facts.0 (
      read_line-one_line line (acc ++ c ∷ []) rest n facts.1 (omega arith)
      ∙ ap (λ l. some (l, rest)) (append_assoc acc (c ∷ []) line))

word-one_word : (w rest : Bytes) → one_word w ≡ true → word (w ++ 32 ∷ rest) ≡ (w, 32 ∷ rest)
unfolding word one_word
word-one_word [] rest h = refl
word-one_word (c ∷ w) rest h =
    let facts = both (is_space c) (one_word w) h in rw (facts.0, word-one_word w rest facts.1) refl

skip_blank-one_word :
    (w rest : Bytes) → one_word w ≡ true → 0 < length w → skip_blank (w ++ rest) ≡ w ++ rest
unfolding skip_blank one_word
skip_blank-one_word [] rest h p = absurd (omega arith)
skip_blank-one_word (c ∷ w) rest h p =
    let facts = both (is_space c) (one_word w) h in rw facts.0 refl

skip_blank-space :
    (w rest : Bytes) → one_word w ≡ true → 0 < length w → skip_blank (32 ∷ (w ++ rest)) ≡ w ++ rest
unfolding skip_blank
skip_blank-space w rest h p = skip_blank-one_word w rest h p

is_empty-long : (w : Bytes) → 0 < length w → is_empty w ≡ false
is_empty-long [] p = absurd (omega arith)
is_empty-long (c ∷ w) p = refl

-- A method, a path and a version with blanks between them.
abbrev pub request_line : Bytes → Bytes → Bytes → Bytes
request_line method path version = method ++ 32 ∷ (path ++ 32 ∷ version)

two_words-request_line :
    (method path version : Bytes)
    → one_word method ≡ true
    → one_word path ≡ true
    → 0 < length method
    → 0 < length path
    → two_words (request_line method path version) ≡ some (method, path)
unfolding two_words
two_words-request_line method path version m p lm lp =
    rw
      (
        two_words,
        skip_blank-one_word method (32 ∷ (path ++ 32 ∷ version)) m lm,
        word-one_word method (path ++ 32 ∷ version) m,
        skip_blank-space path (32 ∷ version) p lp,
        word-one_word path version p,
        is_empty-long method lm,
        is_empty-long path lp,
      )
      refl

-- The headers, an empty line, and what follows.
unfoldable pub headers_text : List Bytes → Bytes → Bytes
headers_text [] rest = crlf ++ rest
headers_text (h ∷ hs) rest = h ++ (crlf ++ headers_text hs rest)

-- What the headers do to a request, one after the other.
unfoldable pub apply_headers : List Bytes → Request → Request
apply_headers [] r = r
apply_headers (h ∷ hs) r = apply_headers hs (read_header h r)

-- A line that `read_line` takes whole.
pub record IsLine (h : Bytes) : Type 0 where
  pub no_break : one_line h ≡ true
  pub not_empty : 0 < length h
  pub short : length h + 2 ≤ 8192

abbrev pub AreLines : List Bytes → Type 0
AreLines [] = Unit {0}
AreLines (h ∷ hs) = IsLine h × AreLines hs

length-headers_text :
    (hs : List Bytes) (rest : Bytes) → AreLines hs → length hs + 2 ≤ length (headers_text hs rest)
unfolding headers_text
length-headers_text [] rest l = omega arith
length-headers_text (h ∷ hs) rest l = omega (
  arith,
  l.0.not_empty,
  length-append h (crlf ++ headers_text hs rest),
  length-headers_text hs rest l.1,
)

read_headers-step :
    (n : ℕ) (input : Bytes) (c : ℕ) (line rest : Bytes) (r : Request)
    → read_line 8192 [] input ≡ some (c ∷ line, rest)
    → read_headers (suc n) input r ≡ read_headers n rest (read_header (c ∷ line) r)
unfolding read_headers
read_headers-step n input c line rest r e = rw (read_headers, e) refl

read_headers-end :
    (n : ℕ) (input rest : Bytes) (r : Request)
    → read_line 8192 [] input ≡ some ([], rest)
    → read_headers (suc n) input r ≡ r
unfolding read_headers
read_headers-end n input rest r e = rw (read_headers, e) refl

read_headers-headers_text :
    (hs : List Bytes) (rest : Bytes) (n : ℕ) (r : Request)
    → AreLines hs
    → length hs < n
    → read_headers n (headers_text hs rest) r ≡ apply_headers hs r
unfolding headers_text apply_headers one_line
read_headers-headers_text hs rest zero r l lt = absurd (omega arith)
read_headers-headers_text [] rest (suc n) r l lt =
    read_headers-end n (crlf ++ rest) rest r (read_line-one_line [] [] rest 8192 refl (omega arith))
read_headers-headers_text ([] ∷ hs) rest (suc n) r l lt = absurd (omega (arith, l.0.not_empty))
read_headers-headers_text ((c ∷ h) ∷ hs) rest (suc n) r l lt =
    read_headers-step n ((c ∷ h) ++ (crlf ++ headers_text hs rest)) c h (headers_text hs rest) r
      (read_line-one_line (c ∷ h) [] (headers_text hs rest) 8192 l.0.no_break l.0.short)
    ∙ read_headers-headers_text hs rest n (read_header (c ∷ h) r) l.1 (omega arith)

-- A request as a client writes it is read as its method, its path up to a question mark, and what its
-- headers do, one after the other. Method and path are words, each line is one line of at most 8190
-- characters, and no header is empty.
pub read_request-headers_text :
    (method path version rest : Bytes) (hs : List Bytes)
    → one_word method ≡ true
    → one_word path ≡ true
    → 0 < length method
    → 0 < length path
    → IsLine (request_line method path version)
    → AreLines hs
    → read_request (request_line method path version ++ (crlf ++ headers_text hs rest))
      ≡ some (
          let r =
            apply_headers hs (record { method = method; path = path; upgrade = false; key = [] }) in
          record r { path = without_query r.path })
unfolding read_request
read_request-headers_text method path version rest hs m p lm lp line lines =
    rw
      (
        read_request,
        read_line-one_line (request_line method path version) [] (headers_text hs rest) 8192
            line.no_break line.short,
        two_words-request_line method path version m p lm lp,
        read_headers-headers_text hs rest (length (headers_text hs rest))
            (record { method = method; path = path; upgrade = false; key = [] }) lines
            (omega (arith, length-headers_text hs rest lines)),
      )
      refl
