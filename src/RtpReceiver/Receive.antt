-- ===== src/RtpReceiver/Receive.antt =====
-- `recv_loop`: what the receiver does with a datagram, and what it sends itself.
use rtstream.Prelude.{
  ℕ, ◌-◌, Bool, true, false, ◌&&◌, List, [], ◌∷◌, ◌++◌, none, some, length, take, drop, ltb, ◌==◌,
  if◌then◌else◌,
}
use rtstream.Prelude.Int.{ℤ, pos, ◌*ℤ◌, ◌+ℤ◌, ◌-ℤ◌, ltb_ℤ, quot}
use rtstream.Prelude.Maps.{Map, insert}
use rtstream.Wire.Bytes.{Bytes, byte_at, be16, be32, u16}
use rtstream.Wire.Media.{PayloadType, payload_code}
use rtstream.Wire.Udp
use rtstream.Wire.Udp.{UdpHeader, blank, magic_ok}
use rtstream.Stats.{Metrics, bump}
use rtstream.Jitter.Double.{Double}
use rtstream.Jitter.State.{JitterBuffer, set_rtt_ms}
use rtstream.Jitter.Push
use rtstream.Rtp.Header.{RtpPkt, parse_rtp}
use rtstream.UdpReceiver.Clock.{extend_capture_us}

-- The members that receiving touches. `rtt` is also the gauge `Metrics::rtt_ms`; `remote` has the
-- texts given to `update_remote_from_json`.
pub record Listener (D : Double) : Type 0 where
  pub jb : JitterBuffer D RtpPkt
  pub fec : Map Bytes
  pub rtt : D.Num
  pub last_ts90_full : ℤ
  pub remote : List Bytes

-- A receiver after a datagram, the datagrams that it sent, and the counters.
pub record Heard (D : Double) : Type 0 where
  pub after : Listener D
  pub out : List Bytes
  pub stats : Metrics

-- `now_us() * 90 / 1000` stands for the clock; all else is as in `UdpReceiver::extend_capture_us`.
unfoldable pub extend_ts90 : ℤ → ℕ → ℤ → ℤ
extend_ts90 last ts90 now = extend_capture_us last ts90 (quot (now *ℤ pos 90) 1000)

-- The NACK of one RTP packet: group 0, and its number.
unfoldable pub send_nack : ℕ → Bytes
send_nack rtp_seq =
    Udp.write (record blank { payload_type = payload_code PayloadType.nack; payload_len = 6 })
    ++ (be32 0 ++ be16 (u16 rtp_seq))

unfoldable pub send_nacks : List ℕ → List Bytes
unfolding send_nack
send_nacks [] = []
send_nacks (seq ∷ seqs) = send_nack seq ∷ send_nacks seqs

-- `fec_[ms] = payload; if (fec_.size() > 64) fec_.erase(fec_.begin());`
unfoldable pub store_parity : ℕ → Bytes → Map Bytes → Map Bytes
store_parity ms payload fec =
    let fec' = insert ms payload fec in if ltb 64 (length fec') then drop 1 fec' else fec'

-- The payload's length: `payload_len` may cut it short.
unfoldable pub payload_of : UdpHeader → Bytes → Bytes
payload_of h buf =
    let plen = length buf - Udp.header_size in
    let short = ltb 0 h.payload_len && ltb h.payload_len plen in
    take (if short then h.payload_len else plen) (drop Udp.header_size buf)

-- The EWMA of the round-trip time, with weights 7/8 and 1/8.
unfoldable pub update_rtt : (D : Double) → D.Num → D.Num → D.Num
update_rtt D r ms =
    if equal r (of_int (pos 0))
    then ms
    else plus (times r (over (of_int (pos 7)) (of_int (pos 8))))
        (times ms (over (of_int (pos 1)) (of_int (pos 8))))
  where
    open D use {of_int, plus, times, over, equal}

-- `host_int` is the `int64_t` that eight bytes are in memory.
module _ {D : Double} (host_int : Bytes → ℤ) where
  open D use {of_int, over}

  unfoldable pub on_pong : Listener D → Bytes → ℤ → Listener D
  unfolding update_rtt
  on_pong r payload now =
      let ms = over (of_int (now -ℤ host_int (take 8 payload))) (of_int (pos 1000)) in
      let rtt' = update_rtt D r.rtt ms in
      if ltb (length payload) 8 then r else record r { rtt = rtt'; jb = set_rtt_ms D r.jb rtt' }

  -- A datagram with the header of the UDP link.
  unfoldable pub on_control : Listener D → Bytes → ℤ → Listener D
  unfolding on_pong payload_of store_parity
  on_control r buf now =
      let h = Udp.read buf in
      let payload = payload_of h buf in
      if ltb (length buf) Udp.header_size
      then r
      else if h.payload_type == payload_code PayloadType.stats_pong
      then on_pong r payload now
      else if h.payload_type == payload_code PayloadType.stats_json
      then record r { remote = r.remote ++ payload ∷ [] }
      else if h.payload_type == payload_code PayloadType.fec
      then record r { fec = store_parity h.capture_us_lo payload r.fec }
      else r

  -- An RTP packet: its capture time, then the jitter buffer, which asks for what is missing.
  unfoldable pub on_rtp : Listener D → RtpPkt → ℤ → ℤ → Metrics → Heard D
  unfolding extend_ts90 send_nacks
  on_rtp r p now at_push stats =
      let full = extend_ts90 r.last_ts90_full p.ts now in
      let ms = quot full 90 in
      let p' : RtpPkt = record p { capture_ms = ms } in
      let (taken, pushed) = Push.push r.jb p.seq (ms *ℤ pos 1000) p' at_push stats in
      record {
        after = record r { jb = pushed.after; last_ts90_full = full };
        out = send_nacks pushed.asked;
        stats = pushed.stats;
      }

  -- A round of `recv_loop` with a datagram that `recv` gave.
  unfoldable pub receive : Listener D → Bytes → ℤ → ℤ → Metrics → Heard D
  unfolding on_control on_rtp
  receive r buf now at_push stats =
      let counted : Metrics = record stats {
        net_packets_recv = bump stats.net_packets_recv 1;
        net_bytes_recv = bump stats.net_bytes_recv (length buf);
      } in
      if ltb (length buf) 12
      then record { after = r; out = []; stats = stats }
      else if byte_at buf 0 == 0x80
      then elim (parse_rtp buf) [
        | none ↦ record { after = r; out = []; stats = counted }
        | some p ↦ on_rtp r p now at_push counted
      ]
      else record {
        after = if magic_ok buf then on_control r buf now else r;
        out = [];
        stats = counted;
      }

-- `send_ping`; `clock` are the eight bytes of the time in memory.
unfoldable pub send_ping : Bytes → Bytes
send_ping clock =
    Udp.write (record blank { payload_type = payload_code PayloadType.stats_ping; payload_len = 8 })
    ++ clock

-- A round of `ping_loop` at time `now`: the next time to send, and whether a ping went out.
unfoldable pub ping_round : ℤ → ℤ → ℤ × Bool
ping_round next now = if ltb_ℤ now next then (next, false) else (next +ℤ pos 500000, true)
