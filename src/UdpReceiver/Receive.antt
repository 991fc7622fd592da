-- ===== src/UdpReceiver/Receive.antt =====
-- The loops of the UDP receiver: `recv_loop` with `update_rtt`, `ping_loop`, and `jb_loop`.
use rtstream.Prelude.{
  Bool, true, false, ◌&&◌, not, List, [], ◌∷◌, ◌++◌, none, some, length, take, drop, ltb, ◌==◌,
  if◌then◌else◌,
}
use rtstream.Prelude.Int.{ℤ, pos, ◌-ℤ◌, ◌+ℤ◌, ltb_ℤ}
use rtstream.Wire.Bytes.{Bytes}
use rtstream.Wire.Media.{EncodedFrame, PayloadType, payload_code}
use rtstream.Wire.Udp
use rtstream.Wire.Udp.{UdpHeader, blank, magic_ok}
use rtstream.Stats.{Metrics, bump}
use rtstream.Queue
use rtstream.Queue.{Queue, Pushed}
use rtstream.Jitter.Double.{Double}
use rtstream.Jitter.State.{set_rtt_ms}
use rtstream.Jitter.Pop
use rtstream.UdpReceiver.{UdpAssembled, UdpReceiver, Times, on_media}

-- The members that the loops touch. `rtt` is also the gauge `Metrics::rtt_ms`; `remote` has the texts
-- given to `update_remote_from_json`, `out` is the queue of frames.
pub record Link (D : Double) : Type 0 where
  pub core : UdpReceiver D
  pub rtt : D.Num
  pub remote : List Bytes
  pub out : Queue EncodedFrame

-- The receiver after a round, the datagrams that it sent, and the counters.
pub record Heard (D : Double) : Type 0 where
  pub after : Link D
  pub sent : List Bytes
  pub stats : Metrics

-- The frame that goes to the decoder.
unfoldable pub frame_of : UdpAssembled → ℤ → EncodedFrame
frame_of a now = record {
  capture_us = a.capture_us;
  wall_us = pos 0;
  encode_done_us = now;
  frame_id = pos a.frame_id;
  width = 0;
  height = 0;
  keyframe = a.keyframe;
  data_bytes = a.annexb;
}

unfoldable pub send_ping : Bytes → Bytes
send_ping clock =
    Udp.write (record blank { payload_type = payload_code PayloadType.stats_ping; payload_len = 8 })
    ++ clock

-- A round of `ping_loop` at time `now`: the next time to send, and whether a ping went out.
unfoldable pub ping_round : ℤ → ℤ → ℤ × Bool
ping_round next now = if ltb_ℤ now next then (next, false) else (next +ℤ pos 500000, true)

-- The text of a statistics packet: `payload_len` may cut it short.
unfoldable pub text_of : UdpHeader → Bytes → Bytes
text_of h payload =
    let short = ltb 0 h.payload_len && ltb h.payload_len (length payload) in
    if short then take h.payload_len payload else payload

-- `host_int` is the `int64_t` that eight bytes are in memory.
module _ {D : Double} (host_int : Bytes → ℤ) where
  open D use {Num, of_int, plus, times, over, equal}

  unfoldable pub update_rtt : Link D → D.Num → Link D
  update_rtt r ms =
      let rtt' =
        if equal r.rtt (of_int (pos 0))
        then ms
        else plus (times r.rtt (over (of_int (pos 7)) (of_int (pos 8))))
            (times ms (over (of_int (pos 1)) (of_int (pos 8)))) in
      record r { core = record r.core { jb = set_rtt_ms D r.core.jb rtt' }; rtt = rtt' }

  -- A round of `recv_loop` with a datagram that `recv` gave.
  unfoldable pub receive : Link D → Bytes → ℤ → Times → Metrics → Heard D
  unfolding update_rtt text_of
  receive r buf now t stats =
      let counted : Metrics = record stats {
        net_packets_recv = bump stats.net_packets_recv 1;
        net_bytes_recv = bump stats.net_bytes_recv (length buf);
      } in
      let h = Udp.read buf in
      let payload = drop Udp.header_size buf in
      let ms = over (of_int (now -ℤ host_int (take 8 payload))) (of_int (pos 1000)) in
      let quiet : Link D → Heard D = λ r'. record { after = r'; sent = []; stats = counted } in
      let media = on_media r.core h payload t counted in
      if ltb (length buf) Udp.header_size
      then record { after = r; sent = []; stats = stats }
      else if not (magic_ok buf)
      then quiet r
      else if h.payload_type == payload_code PayloadType.stats_json
      then quiet (record r { remote = r.remote ++ text_of h payload ∷ [] })
      else if h.payload_type == payload_code PayloadType.stats_pong
      then quiet (if ltb (length payload) 8 then r else update_rtt r ms)
      else record { after = record r { core = media.after }; sent = media.out; stats = media.stats }

-- What `out.push(ef)` leaves of the queue; its result is not looked at.
unfoldable pub push_frame : Queue EncodedFrame → EncodedFrame → Queue EncodedFrame
push_frame q f = elim (Queue.push q f) [
  | Pushed.pushed r ↦ r
  | Pushed.refused ↦ q
  | Pushed.waits ↦ q
  | Pushed.fault ↦ q
]

-- A round of `jb_loop`; `now` is the clock of `pop`, `done` that of the frame.
unfoldable pub jb_round : {D : Double} → Link D → ℤ → ℤ → Metrics → Link D × Metrics
unfolding frame_of push_frame
jb_round r now done stats =
    let (popped, e) = Pop.pop r.core.jb now stats in
    let r' = record r { core = record r.core { jb = e.after } } in
    elim popped [
      | none ↦ (r', e.stats)
      | some u ↦ (record r' { out = push_frame r.out (frame_of u.content done) }, e.stats)
    ]
