-- ===== src/WsServer/Tests.antt =====
-- Frames of three bytes, and of one byte more than fits the length in seven bits.
use rtstream.Prelude.{
  ◌≡◌, refl, true, false, [], ◌∷◌, ◌++◌, none, some, replicate, bit_and, ◌==◌, not, arith,
}
use rtstream.Wire.Bytes.{load_be64}
use rtstream.WsServer.{
  Conn, Parsed, frame, broadcast, send_to, send_to_all, sizes, body, unmask, parse_frame, on_frame,
  pong, gather, deliver, read_frames, receive, read_line, drop_cr,
}
use rtstream.Prelude.Text.{codes, starts_with, lower}
use rtstream.Common.Sha.{sha1}
use rtstream.Common.Base.{base64_encode}
use rtstream.WsServer.Handshake.{accept, crlf, do_handshake}
use rtstream.WsServer.Frames.{lead, masked_by, parse-masked, parse_frame-frame}

abbrev fresh : Conn
fresh = record { cur_opcode = 0; msg = []; alive = true }

-- RFC 6455's masked "Hello", and a ping behind it.
receive-hello :
    receive fresh
      (0x81 ∷ 0x85 ∷ [])
      (0x37 ∷ 0xfa ∷ 0x21 ∷ 0x3d ∷ 0x7f ∷ 0x9f ∷ 0x4d ∷ 0x51 ∷ 0x58 ∷ 0x89 ∷ 0 ∷ 0x81 ∷ [])
    ≡ some (
      record {
        after = record { cur_opcode = 1; msg = []; alive = true };
        sent = (0x8a ∷ 0 ∷ []) ∷ [];
        texts = (72 ∷ 101 ∷ 108 ∷ 108 ∷ 111 ∷ []) ∷ [];
      },
      0x81 ∷ [],
    )
unfolding receive read_frames parse_frame sizes body unmask on_frame pong gather deliver
receive-hello = refl

-- A length of 2^64 - 1 makes the sum of header and length wrap.
parse_frame-wraps : parse_frame (0x82 ∷ 127 ∷ replicate 8 255) ≡ Parsed.undefined
unfolding parse_frame sizes body load_be64
parse_frame-wraps = refl

-- The length of a ping's payload loses its top bits in the pong.
pong-long : pong (replicate 130 7) ≡ 0x8a ∷ 2 ∷ replicate 130 7
unfolding pong
pong-long = refl

read_line-crlf : read_line 8 [] (71 ∷ 13 ∷ 10 ∷ 9 ∷ []) ≡ some (71 ∷ [], 9 ∷ [])
unfolding read_line drop_cr
read_line-crlf = refl

read_line-too_long : read_line 2 [] (71 ∷ 72 ∷ 10 ∷ []) ≡ none
unfolding read_line
read_line-too_long = refl

broadcast-dead :
    broadcast 2 (5 ∷ []) (record { alive = false; results = []; on_wire = [] } ∷ [])
    ≡ record { alive = false; results = []; on_wire = [] } ∷ []
unfolding broadcast send_to_all send_to
broadcast-dead = refl

parse_frame-frame_example :
    parse_frame (frame 2 (replicate 126 7) ++ 1 ∷ [])
    ≡ Parsed.parsed (record { fin = true; opcode = 2; payload = replicate 126 7 }) (1 ∷ [])
parse_frame-frame_example =
    parse_frame-frame 2 (replicate 126 7) (1 ∷ []) (omega arith) (omega arith)

parse-masked_example :
    parse_frame (
      lead 0x81 true 5
      ++ ((1 ∷ 2 ∷ 3 ∷ 4 ∷ []) ++ (masked_by 1 2 3 4 (7 ∷ 8 ∷ 9 ∷ 10 ∷ 11 ∷ []) ++ [])))
    ≡ Parsed.parsed
        (record {
          fin = not (bit_and 0x81 0x80 == 0);
          opcode = bit_and 0x81 0x0f;
          payload = 7 ∷ 8 ∷ 9 ∷ 10 ∷ 11 ∷ [];
        })
        []
parse-masked_example = parse-masked 0x81 1 2 3 4 (7 ∷ 8 ∷ 9 ∷ 10 ∷ 11 ∷ []) [] (omega arith)

-- RFC 6455's example of a handshake.
accept-example : accept (codes "dGhlIHNhbXBsZSBub25jZQ==") ≡ codes "s3pPLMBiTxaQ9kYGzzhZRbK+xOo="
unfolding accept sha1 base64_encode
accept-example = refl

-- Without a key there is no handshake.
do_handshake-no_key :
    do_handshake (codes "GET / HTTP/1.1" ++ (crlf ++ (codes "Host: a" ++ (crlf ++ crlf)))) ≡ none
unfolding do_handshake starts_with lower
do_handshake-no_key = refl
