-- ===== src/TcpClient/Tests.antt =====
-- Two frames on the wire, in pieces that begin and end inside the frames.
use rtstream.Prelude.{◌≡◌, refl, true, false, List, [], ◌∷◌, ◌++◌, take, drop, arith}
use rtstream.Prelude.Int.{pos}
use rtstream.Wire.Bytes.{Bytes, store_be64}
use rtstream.Wire.Media.{EncodedFrame}
use rtstream.Wire.Tcp.{write_header}
use rtstream.Stats.{no_metrics}
use rtstream.Queue
use rtstream.Queue.{Queue}
use rtstream.Queue.Ready.{new-IsReady}
use rtstream.TcpServer.{packet, total}
use rtstream.TcpServer.Sends.{wire}
use rtstream.TcpClient.{Event, Read, State, Round, read_all, loop}
use rtstream.TcpClient.Reads.{content, IsOpen, Gets, read_all-Gets}
use rtstream.TcpClient.Link.{AreSendable, wires, pushed_all, loop-wires}

abbrev key : EncodedFrame
key = record {
  capture_us = pos 40000;
  wall_us = pos 0;
  encode_done_us = pos 0;
  frame_id = pos 3;
  width = 0;
  height = 0;
  keyframe = true;
  data_bytes = 9 ∷ 8 ∷ 7 ∷ [];
}

abbrev later : EncodedFrame
later = record key { frame_id = pos 4; keyframe = false; data_bytes = 6 ∷ [] }

abbrev bytes : Bytes
bytes = wires (key ∷ later ∷ [])

abbrev pieces : List Event
pieces =
    Event.chunk (take 2 bytes)
    ∷ Event.interrupted
    ∷ Event.chunk (take 30 (drop 2 bytes))
    ∷ Event.chunk (drop 32 bytes ++ 0 ∷ [])
    ∷ []

abbrev beginning : State
beginning = record {
  client = record { out = Queue.new 16 true; remote = [] };
  events = pieces;
  stats = no_metrics;
}

pieces-bytes : (content pieces ≡ bytes ++ 0 ∷ []) × IsOpen pieces
unfolding content wires wire total packet write_header store_be64
pieces-bytes = (refl, (omega arith, (omega arith, (omega arith, _))))

both-AreSendable : AreSendable (key ∷ later ∷ [])
both-AreSendable = (
  record { short = omega arith; in_range = refl },
  (record { short = omega arith; in_range = refl }, _),
)

loop-wires_example :
    (s' : State) × (loop (λ n. pos n) 2 beginning ≡ Round.goes_on s')
    × (s'.client ≡ record beginning.client {
      out = pushed_all (λ n. pos n) (Queue.new 16 true) (key ∷ later ∷ []);
    })
    × (content s'.events ≡ 0 ∷ [])
loop-wires_example =
    loop-wires (λ n. pos n) (key ∷ later ∷ []) beginning (0 ∷ []) both-AreSendable
      (new-IsReady 16 (omega arith)) pieces-bytes.1 pieces-bytes.0

read_all_closed : read_all (Event.chunk (1 ∷ []) ∷ Event.chunk [] ∷ []) 2 ≡ Read.failed
unfolding read_all
read_all_closed = refl

events-bytes :
    content (Event.chunk (1 ∷ []) ∷ Event.interrupted ∷ Event.chunk (2 ∷ 3 ∷ 4 ∷ []) ∷ [])
    ≡ 1 ∷ 2 ∷ 3 ∷ 4 ∷ []
unfolding content
events-bytes = refl

read_all-Gets_example :
    Gets
      (1 ∷ 2 ∷ 3 ∷ [])
      (4 ∷ [])
      (read_all (Event.chunk (1 ∷ []) ∷ Event.interrupted ∷ Event.chunk (2 ∷ 3 ∷ 4 ∷ []) ∷ []) 3)
read_all-Gets_example =
    read_all-Gets (Event.chunk (1 ∷ []) ∷ Event.interrupted ∷ Event.chunk (2 ∷ 3 ∷ 4 ∷ []) ∷ []) 3
      (1 ∷ 2 ∷ 3 ∷ []) (4 ∷ []) (omega arith, (omega arith, _)) events-bytes refl
