-- ===== src/WsServer.antt =====
-- src/web/ws_server.h: WebSocket frames, which the server writes without a mask and reads with one or
-- without. `::send` is as in the TCP server, whose `send_all` is the same text.
pub mod Frames
pub mod Handshake
mod Tests
use rtstream.Prelude.{
  ℕ, zero, suc, ◌+◌, ◌*◌, ◌/◌, ◌%◌, ◌^◌, Bool, true, false, ◌&&◌, ◌||◌, not, List, [], ◌∷◌, ◌++◌,
  Option, none, some, bit_and, bit_or, bit_xor, length, take, drop, is_empty, ltb, leb, ◌==◌,
  if◌then◌else◌,
}
use rtstream.Wire.Bytes.{Bytes, byte_at, read_be16, load_be64}
use rtstream.TcpServer.{SendResult, Outcome, send_all}

-- `on_wire` has what was written to the socket so far.
pub record Client : Type 0 where
  pub alive : Bool
  pub results : List SendResult
  pub on_wire : Bytes

-- `(len >> (i * 8)) & 0xFF` for `i` from `n - 1` down to 0.
unfoldable pub length_bytes : ℕ → ℕ → Bytes
length_bytes zero len = []
length_bytes (suc i) len = (len / 2 ^ (i * 8) % 2 ^ 8) ∷ length_bytes i len

unfoldable pub frame_header : ℕ → ℕ → Bytes
unfolding length_bytes
frame_header opcode len =
    bit_or 0x80 opcode
    ∷ (if ltb len 126
        then len ∷ []
        else if leb len 0xffff
        then 126 ∷ (len / 2 ^ 8) ∷ (len % 2 ^ 8) ∷ []
        else 127 ∷ length_bytes 8 len)

unfoldable pub frame : ℕ → Bytes → Bytes
unfolding frame_header
frame opcode data_bytes = frame_header opcode (length data_bytes) ++ data_bytes

-- One client in the loop of `broadcast`.
unfoldable pub send_to : Bytes → Client → Client
send_to bytes c =
    let s = send_all c.results bytes in
    let c' : Client = record c { results = s.left; on_wire = c.on_wire ++ s.out } in
    if not c.alive then c else elim s.outcome [
      | Outcome.done ↦ c'
      | Outcome.failed ↦ record c' { alive = false }
      | Outcome.waits ↦ c'
    ]

unfoldable pub send_to_all : Bytes → List Client → List Client
unfolding send_to
send_to_all bytes [] = []
send_to_all bytes (c ∷ cs) = send_to bytes c ∷ send_to_all bytes cs

unfoldable pub broadcast : ℕ → Bytes → List Client → List Client
unfolding frame send_to_all
broadcast opcode data_bytes cs = send_to_all (frame opcode data_bytes) cs

-- A frame that was read, without its mask.
pub record Frame : Type 0 where
  pub fin : Bool
  pub opcode : ℕ
  pub payload : Bytes

-- A frame and the bytes behind it; too few bytes; or iterators outside the buffer, which C++ leaves
-- undefined.
pub data Parsed : Type 0 where
  parsed : Frame → Bytes → Parsed
  incomplete undefined : Parsed

-- The size of the header without a mask, and the length of the payload; the loop over eight bytes is
-- that of `load_be64`.
unfoldable pub sizes : Bytes → Option (ℕ × ℕ)
sizes buf =
    let n = bit_and (byte_at buf 1) 0x7f in
    if n == 126
    then (if ltb (length buf) 4 then none else some (4, read_be16 buf 2))
    else if n == 127
    then (if ltb (length buf) 10 then none else some (10, load_be64 buf 2))
    else some (2, n)

-- `payload[i] ^= mask[i % 4]` from byte `i` on.
unfoldable pub unmask : Bytes → ℕ → Bytes → Bytes
unmask mask i [] = []
unmask mask i (b ∷ bytes) = bit_xor b (byte_at mask (i % 4)) ∷ unmask mask (i + 1) bytes

-- What follows a header of `hdr` bytes. `hdr + len` wraps in 64 bits.
unfoldable pub body : Bytes → Bool → ℕ → ℕ → Parsed
unfolding unmask
body buf masked hdr len =
    let start = if masked then hdr + 4 else hdr in
    let raw = take len (drop start buf) in
    if masked && ltb (length buf) (hdr + 4)
    then Parsed.incomplete
    else if ltb (length buf) ((start + len) % 2 ^ 64)
    then Parsed.incomplete
    else if leb (2 ^ 64) (start + len)
    then Parsed.undefined
    else Parsed.parsed
        (record {
          fin = not (bit_and (byte_at buf 0) 0x80 == 0);
          opcode = bit_and (byte_at buf 0) 0x0f;
          payload = if masked then unmask (take 4 (drop hdr buf)) 0 raw else raw;
        })
        (drop (start + len) buf)

unfoldable pub parse_frame : Bytes → Parsed
unfolding sizes body
parse_frame buf = if ltb (length buf) 2 then Parsed.incomplete else elim (sizes buf) [
  | none ↦ Parsed.incomplete
  | some (hdr, len) ↦ body buf (not (bit_and (byte_at buf 1) 0x80 == 0)) hdr len
]

-- The variables of `client_loop` but the buffer.
pub record Conn : Type 0 where
  pub cur_opcode : ℕ
  pub msg : Bytes
  pub alive : Bool

-- The connection, the bytes of each pong, and the texts that `on_message_`, which is set, was called
-- with.
pub record Heard : Type 0 where
  pub after : Conn
  pub sent : List Bytes
  pub texts : List Bytes

abbrev pub quiet : Conn → Heard
quiet c = record { after = c; sent = []; texts = [] }

unfoldable pub pong : Bytes → Bytes
pong payload = 0x8a ∷ bit_and (length payload) 0x7f ∷ payload

unfoldable pub gather : Conn → Frame → Conn
gather c f =
    if f.opcode == 1 || f.opcode == 2
    then record c { cur_opcode = f.opcode; msg = f.payload }
    else if f.opcode == 0
    then record c { msg = c.msg ++ f.payload }
    else c

unfoldable pub deliver : Bool → Conn → Heard
deliver fin c =
    if fin && not (is_empty c.msg)
    then record {
      after = record c { msg = [] };
      sent = [];
      texts = if c.cur_opcode == 1 then c.msg ∷ [] else [];
    }
    else quiet c

unfoldable pub on_frame : Conn → Frame → Heard
unfolding pong gather deliver
on_frame c f =
    if f.opcode == 8
    then quiet (record c { alive = false })
    else if f.opcode == 9
    then record { after = c; sent = pong f.payload ∷ []; texts = [] }
    else if f.opcode == 10
    then quiet c
    else deliver f.fin (gather c f)

-- One thing after the other.
abbrev pub then_heard : Heard → Heard → Heard
then_heard h h' = record { after = h'.after; sent = h.sent ++ h'.sent; texts = h.texts ++ h'.texts }

-- The inner loop, with `n` rounds of fuel, and what it leaves of the buffer; `none` is undefined
-- behaviour. A round takes two bytes at least.
unfoldable pub read_frames : ℕ → Conn → Bytes → Option (Heard × Bytes)
unfolding parse_frame on_frame
read_frames zero c buf = some (quiet c, buf)
read_frames (suc n) c buf = elim (parse_frame buf) [
  | Parsed.incomplete ↦ some (quiet c, buf)
  | Parsed.undefined ↦ none
  | Parsed.parsed f rest ↦
      let h = on_frame c f in
      let more = read_frames n h.after rest in
      if not h.after.alive
      then some (h, rest)
      else elim more [ none ↦ none | some (h', rest') ↦ some (then_heard h h', rest') ]
]

-- A round of `client_loop` with bytes that `::recv` gave.
unfoldable pub receive : Conn → Bytes → Bytes → Option (Heard × Bytes)
unfolding read_frames
receive c buf chunk = read_frames (length (buf ++ chunk)) c (buf ++ chunk)

-- `line.pop_back()` when the last character is '\r'.
unfoldable pub drop_cr : Bytes → Bytes
drop_cr [] = []
drop_cr (c ∷ []) = if c == 13 then [] else c ∷ []
drop_cr (c ∷ d ∷ line) = c ∷ drop_cr (d ∷ line)

-- `read_line`, with room for `n` characters, on the characters that arrive before the end of the
-- connection; the line so far is `line`.
unfoldable pub read_line : ℕ → Bytes → Bytes → Option (Bytes × Bytes)
unfolding drop_cr
read_line zero line input = none
read_line (suc n) line [] = none
read_line (suc n) line (ch ∷ input) =
    let more = read_line n (line ++ ch ∷ []) input in
    if ch == 10 then some (drop_cr line, input) else more
