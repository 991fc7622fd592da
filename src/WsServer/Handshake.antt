-- ===== src/WsServer/Handshake.antt =====
-- The handshake: `send_handshake_response`, `adopt`, `do_handshake`.
use rtstream.Prelude.{
  ℕ, zero, suc, not, [], ◌∷◌, ◌++◌, Option, none, some, length, drop, is_empty, if◌then◌else◌,
}
use rtstream.Prelude.Text.{codes, starts_with, lower, skip_spaces}
use rtstream.Wire.Bytes.{Bytes}
use rtstream.Common.Sha.{sha1}
use rtstream.Common.Base.{base64_encode}
use rtstream.WsServer.{read_line}

abbrev pub crlf : Bytes
crlf = 13 ∷ 10 ∷ []

abbrev pub guid : Bytes
guid = codes "258EAFA5-E914-47DA-95CA-C5AB0DC85B11"

unfoldable pub accept : Bytes → Bytes
accept key = base64_encode (sha1 (key ++ guid))

-- The text that `send_handshake_response` sends.
unfoldable pub handshake_response : Bytes → Bytes
unfolding accept
handshake_response key =
    codes "HTTP/1.1 101 Switching Protocols"
    ++ (crlf
        ++ (codes "Upgrade: websocket"
            ++ (crlf
                ++ (codes "Connection: Upgrade"
                    ++ (crlf
                        ++ (codes "Sec-WebSocket-Accept: " ++ (accept key ++ (crlf ++ crlf))))))))

-- `adopt`: the response, or `none` when the connection is closed at once.
unfoldable pub adopt : Bytes → Option Bytes
unfolding handshake_response
adopt key = if is_empty key then none else some (handshake_response key)

abbrev pub key_name : Bytes
key_name = codes "sec-websocket-key:"

-- What one header line does to the key.
unfoldable pub read_key : Bytes → Bytes → Bytes
read_key line key =
    if starts_with key_name (lower line) then skip_spaces (drop (length key_name) line) else key

-- The loop over the headers, with `n` lines at most.
unfoldable pub read_keys : ℕ → Bytes → Bytes → Bytes
unfolding read_key read_line
read_keys zero input key = key
read_keys (suc n) input key = elim (read_line 8192 [] input) [
  | none ↦ key
  | some ([], rest) ↦ key
  | some (c ∷ line, rest) ↦ read_keys n rest (read_key (c ∷ line) key)
]

-- `do_handshake`: the response, or `none` when it fails before it sends.
unfoldable pub do_handshake : Bytes → Option Bytes
unfolding read_keys adopt
do_handshake input = elim (read_line 8192 [] input) [
  | none ↦ none
  | some (line, rest) ↦
      if not (starts_with (codes "GET ") line)
      then none
      else adopt (read_keys (length rest) rest [])
]
