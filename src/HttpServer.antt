-- ===== src/HttpServer.antt =====
-- src/web/http_server.h: requests are read line by line, and answered from a directory or handed over
-- to the WebSocket server. `files` is what `std::ifstream` reads under a name.
pub mod Safe
pub mod RoundTrip
mod Tests
use rtstream.Prelude.{
  ℕ, zero, suc, ◌+◌, Bool, true, false, ◌&&◌, ◌||◌, not, List, [], ◌∷◌, ◌++◌, Option, none, some,
  length, drop, is_empty, leb, ◌==◌, if◌then◌else◌,
}
use rtstream.Prelude.Text.{
  codes, starts_with, contains, ends_with, same_text, lower, skip_spaces, decimal,
}
use rtstream.Wire.Bytes.{Bytes}
use rtstream.WsServer.{read_line}

-- What `operator>>` passes over, and where a word ends.
abbrev pub is_space : ℕ → Bool
is_space c = c == 32 || leb 9 c && leb c 13

unfoldable pub skip_blank : Bytes → Bytes
skip_blank [] = []
skip_blank (c ∷ text) = let rest = skip_blank text in if is_space c then rest else c ∷ text

unfoldable pub word : Bytes → Bytes × Bytes
word [] = ([], [])
word (c ∷ text) = let (w, rest) = word text in if is_space c then ([], c ∷ text) else (c ∷ w, rest)

-- `is >> method >> path`, which wants two words.
unfoldable pub two_words : Bytes → Option (Bytes × Bytes)
unfolding skip_blank word
two_words line =
    let (method, after) = word (skip_blank line) in
    let (path, left) = word (skip_blank after) in
    if is_empty method || is_empty path then none else some (method, path)

pub record Request : Type 0 where
  pub method : Bytes
  pub path : Bytes
  pub upgrade : Bool
  pub key : Bytes

abbrev pub key_name : Bytes
key_name = codes "sec-websocket-key:"

-- What one header line does to the request.
unfoldable pub read_header : Bytes → Request → Request
read_header line r =
    let lo = lower line in
    let upgrades = starts_with (codes "upgrade:") lo && contains (codes "websocket") lo in
    let has_key = starts_with key_name lo in
    record r {
      upgrade = r.upgrade || upgrades;
      key = if has_key then skip_spaces (drop (length key_name) line) else r.key;
    }

-- The loop over the headers, with `n` lines at most; the end of the connection, a line too long and an
-- empty line end it.
unfoldable pub read_headers : ℕ → Bytes → Request → Request
unfolding read_header read_line
read_headers zero input r = r
read_headers (suc n) input r = elim (read_line 8192 [] input) [
  | none ↦ r
  | some ([], rest) ↦ r
  | some (c ∷ line, rest) ↦ read_headers n rest (read_header (c ∷ line) r)
]

-- `path.substr(0, path.find('?'))`
unfoldable pub without_query : Bytes → Bytes
without_query [] = []
without_query (c ∷ path) = let rest = without_query path in if c == 63 then [] else c ∷ rest

-- The characters that arrive on the connection; a header line takes one at least.
unfoldable pub read_request : Bytes → Option Request
unfolding two_words read_headers without_query
read_request input = elim (read_line 8192 [] input) [
  | none ↦ none
  | some (line, rest) ↦ elim (two_words line) [
    | none ↦ none
    | some (method, path) ↦
        let r : Request =
          read_headers (length rest) rest
            (record { method = method; path = path; upgrade = false; key = [] }) in
        some (record r { path = without_query r.path })
  ]
]

abbrev pub crlf : Bytes
crlf = 13 ∷ 10 ∷ []

-- The text that `send_simple` sends.
unfoldable pub send_simple : ℕ → Bytes → Bytes
send_simple code msg =
    codes "HTTP/1.1 "
    ++ (decimal code
        ++ (codes " "
            ++ (msg
                ++ (crlf
                    ++ (codes "Content-Type: text/plain"
                        ++ (crlf
                            ++ (codes "Content-Length: "
                                ++ (decimal (length msg) ++ (crlf ++ (crlf ++ msg))))))))))

-- The type of a file, by the end of its name.
unfoldable pub content_type : Bytes → Bytes
content_type rel =
    if ends_with (codes ".html") rel
    then codes "text/html; charset=utf-8"
    else if ends_with (codes ".js") rel
    then codes "application/javascript; charset=utf-8"
    else if ends_with (codes ".css") rel
    then codes "text/css; charset=utf-8"
    else if ends_with (codes ".png") rel
    then codes "image/png"
    else if ends_with (codes ".svg") rel
    then codes "image/svg+xml"
    else codes "application/octet-stream"

unfoldable pub static_head : Bytes → Bytes → Bytes
unfolding content_type
static_head rel body =
    codes "HTTP/1.1 200 OK"
    ++ (crlf
        ++ (codes "Content-Type: "
            ++ (content_type rel
                ++ (crlf
                    ++ (codes "Content-Length: "
                        ++ (decimal (length body)
                            ++ (crlf ++ (codes "Cache-Control: no-cache" ++ (crlf ++ crlf)))))))))

-- `rel`
unfoldable pub relative : Bytes → Bytes
relative path = if same_text path (codes "/") || is_empty path then codes "/index.html" else path

-- The texts given to `send_all`, whose result is not looked at.
unfoldable pub handle_static : (Bytes → Option Bytes) → Bytes → Bytes → List Bytes
unfolding relative static_head send_simple
handle_static files doc_root path =
    let rel = relative path in
    if contains (codes "..") rel
    then send_simple 403 (codes "Forbidden") ∷ []
    else elim (files (doc_root ++ rel)) [
      | none ↦ send_simple 404 (codes "Not Found") ∷ []
      | some body ↦ static_head rel body ∷ body ∷ []
    ]

-- What becomes of a connection: it is closed after these texts, handed over with a key, or sent
-- pictures until it breaks.
pub data Handled : Type 0 where
  closed : List Bytes → Handled
  adopted : Bytes → Handled
  streamed : Handled

-- `has_ws` says whether `ws_` is set.
unfoldable pub handle : (Bytes → Option Bytes) → Bytes → Bool → Bytes → Handled
unfolding read_request handle_static
handle files doc_root has_ws input = elim (read_request input) [
  | none ↦ Handled.closed []
  | some r ↦
      if r.upgrade && has_ws
      then Handled.adopted r.key
      else if not (same_text r.method (codes "GET"))
      then Handled.closed []
      else if same_text r.path (codes "/stream.mjpeg")
      then Handled.streamed
      else Handled.closed (handle_static files doc_root r.path)
]

-- A picture in the loop of `handle_mjpeg`: the texts given to `send_all`, each only after the success of
-- the one before.
unfoldable pub picture : Bytes → List Bytes
picture jpg =
    (codes "--rtstream"
      ++ (crlf ++ (codes "Content-Type: image/jpeg" ++ (crlf ++ codes "Content-Length: "))))
    ∷ (decimal (length jpg) ++ (crlf ++ crlf))
    ∷ jpg
    ∷ crlf
    ∷ []
