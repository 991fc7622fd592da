-- ===== src/HttpServer/Tests.antt =====
-- Requests against a small file system.
use rtstream.Prelude.{
  ◌≡◌, refl, true, false, List, [], ◌∷◌, ◌++◌, Option, none, some, if◌then◌else◌, arith,
}
use rtstream.Prelude.Text.{codes, contains, starts_with, same_text, lower, skip_spaces, ends_with}
use rtstream.Wire.Bytes.{Bytes}
use rtstream.WsServer.{read_line, drop_cr}
use rtstream.HttpServer.{
  two_words, read_header, read_request, read_headers, without_query, relative, content_type,
  static_head, send_simple, handle_static, Handled, handle, crlf,
}
use rtstream.HttpServer.Safe.{Agree, handle-Agree}
use rtstream.HttpServer.RoundTrip.{
  one_word, one_line, request_line, headers_text, apply_headers, read_request-headers_text,
}

abbrev page : Bytes
page = codes "hello"

-- A directory `web` beside a directory `web_private`.
abbrev files : Bytes → Option Bytes
files name =
    if same_text name (codes "web/index.html")
    then some page
    else if same_text name (codes "web_private/key")
    then some (codes "secret")
    else none

abbrev request : Bytes → Bytes
request path = codes "GET " ++ (path ++ (codes " HTTP/1.1" ++ (crlf ++ crlf)))

handle-root :
    handle files (codes "web") true (request (codes "/?x=1"))
    ≡ Handled.closed (static_head (codes "/index.html") page ∷ page ∷ [])
unfolding handle read_request two_words read_headers read_line drop_cr without_query handle_static
    relative contains starts_with same_text
handle-root = refl

handle-up :
    handle files (codes "web") true (request (codes "/../key"))
    ≡ Handled.closed (send_simple 403 (codes "Forbidden") ∷ [])
unfolding handle read_request two_words read_headers read_line drop_cr without_query handle_static
    relative contains starts_with same_text
handle-up = refl

-- A path without a slash reaches a directory beside the root.
handle-beside :
    handle files (codes "web") true (request (codes "_private/key"))
    ≡ Handled.closed (static_head (codes "_private/key") (codes "secret") ∷ codes "secret" ∷ [])
unfolding handle read_request two_words read_headers read_line drop_cr without_query handle_static
    relative contains starts_with same_text
handle-beside = refl

content_type-html : content_type (codes "/a.html") ≡ codes "text/html; charset=utf-8"
unfolding content_type ends_with starts_with
content_type-html = refl

-- The same file system with one file more, which no request reaches.
abbrev more_files : Bytes → Option Bytes
more_files name = if same_text name (codes "etc/key") then some (codes "other") else files name

files-Agree : Agree (codes "web") files more_files
unfolding same_text
files-Agree rel h = refl

handle-Agree_example :
    handle files (codes "web") true (request (codes "/index.html"))
    ≡ handle more_files (codes "web") true (request (codes "/index.html"))
handle-Agree_example =
    handle-Agree (codes "web") (request (codes "/index.html")) true files more_files files-Agree

abbrev headers : List Bytes
headers = codes "Upgrade: WebSocket" ∷ codes "Sec-WebSocket-Key: abc" ∷ []

read_header-key :
    apply_headers headers (record { method = []; path = []; upgrade = false; key = [] })
    ≡ record { method = []; path = []; upgrade = true; key = codes "abc" }
unfolding apply_headers read_header starts_with contains lower skip_spaces
read_header-key = refl

lines :
    (one_word (codes "GET") ≡ true)
    × (one_word (codes "/ws") ≡ true)
    × (one_line (request_line (codes "GET") (codes "/ws") (codes "HTTP/1.1")) ≡ true)
    × (one_line (codes "Upgrade: WebSocket") ≡ true)
    × (one_line (codes "Sec-WebSocket-Key: abc") ≡ true)
unfolding one_word one_line
lines = (refl, refl, refl, refl, refl)

read_request-headers_text_example :
    read_request (
      request_line (codes "GET") (codes "/ws") (codes "HTTP/1.1")
      ++ (crlf ++ headers_text headers []))
    ≡ some (
        let r =
          apply_headers headers
            (record { method = codes "GET"; path = codes "/ws"; upgrade = false; key = [] }) in
        record r { path = without_query r.path })
read_request-headers_text_example =
    read_request-headers_text (codes "GET") (codes "/ws") (codes "HTTP/1.1") [] headers lines.0
      lines.1 (omega arith) (omega arith)
      (record { no_break = lines.2; not_empty = omega arith; short = omega arith })
      (
        record { no_break = lines.3; not_empty = omega arith; short = omega arith },
        (record { no_break = lines.4; not_empty = omega arith; short = omega arith }, _),
      )
