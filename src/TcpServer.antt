-- ===== src/TcpServer.antt =====
-- src/transport/tcp_server.h: each client has a bounded queue of frames and a socket, onto which its
-- thread writes the frames one by one. What `::send` does is a parameter, the list of its results.
pub mod Sends
mod Tests
use rtstream.Prelude.{
  ℕ, zero, suc, ◌+◌, ◌%◌, ◌^◌, Bool, true, false, not, List, [], ◌∷◌, ◌++◌, length, take, drop,
  ◌==◌, if◌then◌else◌,
}
use rtstream.Prelude.Int.{ℤ}
use rtstream.Wire.Bytes.{Bytes, u32, be32}
use rtstream.Wire.Media.{EncodedFrame}
use rtstream.Wire.Tcp.{header_size, write_header, write_stats_header}
use rtstream.Stats.{Metrics, bump}
use rtstream.Queue
use rtstream.Queue.{Queue, Pushed, Popped, try_push}

-- A result of `::send`: so many bytes were taken, `EINTR`, or another error.
pub data SendResult : Type 0 where
  took : ℕ → SendResult
  interrupted broken : SendResult

-- `waits` is a call that has not returned when the given results are used up.
pub data Outcome : Type 0 where
  done failed waits : Outcome

-- What `send_all` put on the wire, and the results of `::send` that it left.
pub record Sending : Type 0 where
  pub outcome : Outcome
  pub out : Bytes
  pub left : List SendResult

-- `::send` takes no more than it is given.
unfoldable pub send_all : List SendResult → Bytes → Sending
send_all rs [] = record { outcome = Outcome.done; out = []; left = rs }
send_all [] (b ∷ bytes) = record { outcome = Outcome.waits; out = []; left = [] }
send_all (SendResult.interrupted ∷ rs) (b ∷ bytes) = send_all rs (b ∷ bytes)
send_all (SendResult.broken ∷ rs) (b ∷ bytes) = record {
  outcome = Outcome.failed;
  out = [];
  left = rs;
}
send_all (SendResult.took zero ∷ rs) (b ∷ bytes) = record {
  outcome = Outcome.failed;
  out = [];
  left = rs;
}
send_all (SendResult.took (suc n) ∷ rs) (b ∷ bytes) =
    let rest = send_all rs (drop n bytes) in record rest { out = b ∷ (take n bytes ++ rest.out) }

-- Two calls, the second only after the success of the first.
unfoldable pub send_both : List SendResult → Bytes → Bytes → Sending
unfolding send_all
send_both rs first second =
    let one = send_all rs first in
    let two = send_all one.left second in
    elim one.outcome [
      | Outcome.done ↦ record two { out = one.out ++ two.out }
      | Outcome.failed ↦ one
      | Outcome.waits ↦ one
    ]

-- `pkt`, and the length before it.
unfoldable pub packet : EncodedFrame → Bytes
packet f = write_header f ++ f.data_bytes

unfoldable pub stats_packet : Bytes → ℤ → Bytes
stats_packet json now = write_stats_header 0 now true ++ json

unfoldable pub total : Bytes → Bytes
total pkt = be32 (u32 (length pkt))

-- `on_wire` has what was written to the socket so far.
pub record Client : Type 0 where
  pub queue : Queue EncodedFrame
  pub alive : Bool
  pub results : List SendResult
  pub on_wire : Bytes

unfoldable pub new_client : List SendResult → Client
new_client rs = record { queue = Queue.new 16 true; alive = true; results = rs; on_wire = [] }

-- One call of `broadcast` for one client.
unfoldable pub offer : EncodedFrame → Client → Metrics → Client × Metrics
offer f c stats = if not c.alive then (c, stats) else elim (try_push c.queue f) [
  | Pushed.pushed q ↦ (record c { queue = q }, stats)
  | Pushed.refused ↦ (c, record stats { queue_dropped = bump stats.queue_dropped 1 })
  | Pushed.waits ↦ (c, stats)
  | Pushed.fault ↦ (c, stats)
]

unfoldable pub broadcast : EncodedFrame → List Client → Metrics → List Client × Metrics
unfolding offer
broadcast f [] stats = ([], stats)
broadcast f (c ∷ cs) stats =
    let (c', stats') = offer f c stats in
    let (cs', stats'') = broadcast f cs stats' in (c' ∷ cs', stats'')

unfoldable pub client_count : List Client → ℕ
client_count [] = 0
client_count (c ∷ cs) = let n = client_count cs in if c.alive then n + 1 else n

-- A client after a round of its thread, and whether the thread goes on; `stuck` when the socket has
-- not taken all of a frame yet.
pub data Round : Type 0 where
  goes_on ends : Client → Metrics → Round
  stuck : Client → Round

-- The end of `send_loop`.
unfoldable pub hang_up : Client → Client
hang_up c = record c { alive = false }

-- What the result of the two writes does to the client.
unfoldable pub after_send : Client → EncodedFrame → Metrics → Sending → Round
unfolding packet hang_up
after_send c f stats s =
    let c' : Client = record c { results = s.left; on_wire = c.on_wire ++ s.out } in
    elim s.outcome [
      | Outcome.done ↦ Round.goes_on c' (record stats {
        net_packets_sent = bump stats.net_packets_sent 1;
        net_bytes_sent = bump stats.net_bytes_sent (length (packet f) + 4);
      })
      | Outcome.failed ↦ Round.ends (hang_up c') stats
      | Outcome.waits ↦ Round.stuck c'
    ]

-- `send_loop` with a frame that the queue gave.
unfoldable pub send_frame : Client → EncodedFrame → Metrics → Round
unfolding packet total send_both after_send
send_frame c f stats = after_send c f stats (send_both c.results (total (packet f)) (packet f))

-- A round of `send_loop`.
unfoldable pub send_round : Client → Metrics → Round
unfolding send_frame hang_up
send_round c stats = elim (Queue.pop c.queue) [
  | Popped.popped f q ↦ send_frame (record c { queue = q }) f stats
  | Popped.nothing ↦ Round.ends (hang_up c) stats
  | Popped.waits ↦ Round.stuck c
]

-- `send_loop`, for `n` frames at most.
unfoldable pub send_loop : ℕ → Client → Metrics → Round
unfolding send_round
send_loop zero c stats = Round.goes_on c stats
send_loop (suc n) c stats = elim (send_round c stats) [
  | Round.goes_on c' stats' ↦ send_loop n c' stats'
  | Round.ends c' stats' ↦ Round.ends c' stats'
  | Round.stuck c' ↦ Round.stuck c'
]

-- One client in a round of `stats_loop`: a failed write closes its queue.
unfoldable pub send_stats : Bytes → Client → Client
unfolding send_both total
send_stats pkt c =
    let s = send_both c.results (total pkt) pkt in
    let c' : Client = record c { results = s.left; on_wire = c.on_wire ++ s.out } in
    if not c.alive then c else elim s.outcome [
      | Outcome.done ↦ c'
      | Outcome.failed ↦ record c' { alive = false; queue = Queue.close c.queue }
      | Outcome.waits ↦ c'
    ]

unfoldable pub stats_round : Bytes → ℤ → List Client → List Client
unfolding stats_packet send_stats
stats_round json now [] = []
stats_round json now (c ∷ cs) = send_stats (stats_packet json now) c ∷ stats_round json now cs
