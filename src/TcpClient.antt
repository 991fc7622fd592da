-- ===== src/TcpClient.antt =====
-- src/receiver/tcp_client.h: frames are cut out of a byte stream, whose bytes arrive in any pieces.
pub mod Reads
pub mod Link
mod Tests
use rtstream.Prelude.{
  ℕ, zero, suc, ◌+◌, ◌-◌, ◌*◌, ◌^◌, ◌%◌, Bool, true, false, ◌||◌, not, List, [], ◌∷◌, ◌++◌, length,
  take, drop, ltb, leb, ◌==◌, bit_and, if◌then◌else◌,
}
use rtstream.Prelude.Int.{ℤ, pos, negsuc}
use rtstream.Wire.Bytes.{Bytes, byte_at, read_be32, load_be64, int_of_u64}
use rtstream.Wire.Media.{EncodedFrame}
use rtstream.Wire.Tcp.{header_size, magic_ok}
use rtstream.Stats.{Metrics, bump}
use rtstream.Queue
use rtstream.Queue.{Queue, Pushed}

-- What the network does next: bytes are there, `EINTR`, or another error. A stream that is used up is
-- closed.
pub data Event : Type 0 where
  chunk : Bytes → Event
  interrupted broken : Event

pub data Read : Type 0 where
  got : Bytes → List Event → Read
  failed : Read

-- What `::recv` leaves of the bytes that are there.
unfoldable pub put_back : Bytes → List Event → List Event
put_back [] es = es
put_back (b ∷ bytes) es = Event.chunk (b ∷ bytes) ∷ es

unfoldable pub prepend : Bytes → Read → Read
prepend bytes (Read.got more es) = Read.got (bytes ++ more) es
prepend bytes Read.failed = Read.failed

-- `read_all`, with `n` bytes to go. No bytes, in a chunk or at the end, are a closed connection.
unfoldable pub read_all : List Event → ℕ → Read
unfolding put_back prepend
read_all es zero = Read.got [] es
read_all [] (suc n) = Read.failed
read_all (Event.interrupted ∷ es) (suc n) = read_all es (suc n)
read_all (Event.broken ∷ es) (suc n) = Read.failed
read_all (Event.chunk [] ∷ es) (suc n) = Read.failed
read_all (Event.chunk (b ∷ bytes) ∷ es) (suc n) =
    let more = prepend (b ∷ bytes) (read_all es (n - length bytes)) in
    if leb n (length bytes) then Read.got (b ∷ take n bytes) (put_back (drop n bytes) es) else more

-- The frame in a buffer that passed the tests.
unfoldable pub frame_of : Bytes → ℤ → EncodedFrame
frame_of buf now = record {
  capture_us = int_of_u64 (load_be64 buf 12);
  wall_us = pos 0;
  encode_done_us = now;
  frame_id = pos (read_be32 buf 8);
  width = 0;
  height = 0;
  keyframe = not (bit_and (byte_at buf 4) 1 == 0);
  data_bytes = drop header_size buf;
}

-- `out` is the queue of frames, `remote` the texts that `update_remote_from_json` was given.
pub record TcpClient : Type 0 where
  pub out : Queue EncodedFrame
  pub remote : List Bytes

pub record State : Type 0 where
  pub client : TcpClient
  pub events : List Event
  pub stats : Metrics

-- The loop goes on, or the connection ends.
pub data Round : Type 0 where
  goes_on ends : State → Round

-- The bounds of a frame's length.
abbrev pub max_total : ℕ
max_total = 16 * 1024 * 1024

unfoldable pub bad_length : ℕ → Bool
bad_length total = ltb total header_size || ltb max_total total

-- What the loop does with a whole frame in `buf`. `Queue.push` blocks only for a queue that does not
-- drop its oldest item.
unfoldable pub take_frame : TcpClient → Bytes → ℤ → List Event → Metrics → Round
unfolding frame_of
take_frame c buf now es stats =
    let counted : Metrics = record stats {
      net_packets_recv = bump stats.net_packets_recv 1;
      net_bytes_recv = bump stats.net_bytes_recv (length buf + 4);
    } in
    let next : TcpClient → State = λ c'. record { client = c'; events = es; stats = counted } in
    if not (magic_ok buf)
    then Round.goes_on (record { client = c; events = es; stats = stats })
    else if not (bit_and (byte_at buf 4) 2 == 0)
    then Round.goes_on (next (record c { remote = c.remote ++ drop header_size buf ∷ [] }))
    else elim (Queue.push c.out (frame_of buf now)) [
      | Pushed.pushed q ↦ Round.goes_on (next (record c { out = q }))
      | Pushed.refused ↦ Round.ends (next c)
      | Pushed.waits ↦ Round.ends (next c)
      | Pushed.fault ↦ Round.ends (next c)
    ]

-- A round of `loop`; `now` is the clock when the frame is complete.
unfoldable pub round : State → ℤ → Round
unfolding take_frame bad_length
round s now = elim (read_all s.events 4) [
  | Read.failed ↦ Round.ends (record s { events = [] })
  | Read.got len es ↦
      let total = read_be32 len 0 in
      if bad_length total then Round.ends (record s { events = es }) else elim (read_all es total) [
        | Read.failed ↦ Round.ends (record s { events = [] })
        | Read.got buf es' ↦ take_frame s.client buf now es' s.stats
      ]
]

-- `n` rounds of `loop` at most; `clock n` is the clock of the round with `n` rounds to go.
unfoldable pub loop : (ℕ → ℤ) → ℕ → State → Round
unfolding round
loop clock zero s = Round.goes_on s
loop clock (suc n) s = elim (round s (clock (suc n))) [
  | Round.goes_on s' ↦ loop clock n s'
  | Round.ends s' ↦ Round.ends s'
]
