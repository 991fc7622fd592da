-- ===== src/RtpServer.antt =====
-- src/transport/rtp_server.h: a frame becomes RTP packets and one recovery packet with the header of
-- the UDP link, which go through the retransmission cache and the simulated network. The client list
-- and the answers are those of the UDP server, line for line.
pub mod Delivery
mod Tests
use rtstream.Prelude.{
  ℕ, ◌+◌, ◌*◌, ◌%◌, ◌^◌, Bool, ◌||◌, not, List, [], ◌∷◌, ◌++◌, length, drop, set, is_empty, ltb,
  ◌==◌, if◌then◌else◌,
}
use rtstream.Prelude.Int.{ℤ, pos, ◌*ℤ◌, quot}
use rtstream.Wire.Bytes.{Bytes, byte_at, u16, u32_of_int}
use rtstream.Wire.Media.{EncodedFrame, PayloadType, payload_code}
use rtstream.Wire.Udp
use rtstream.Wire.Udp.{UdpHeader, blank, fec_seq, set_keyframe, magic_ok}
use rtstream.Stats.{Metrics, bump}
use rtstream.Fec.{fec_generate}
use rtstream.Nack.{NackManager, RetransPacket, remember, on_nack}
use rtstream.Sim.{Draw, LossSimulator, inject}
use rtstream.Rtp.Header.{read_seq}
use rtstream.Rtp.Pack.{Stream, pack}
use rtstream.UdpServer.{ClientAddr, Datagram, raw_send, raw_send_all}
use rtstream.UdpServer.Control.{register_client, InjectedAll, inject_all}

pub record RtpServer : Type 0 where
  pub udp_mtu : ℕ
  pub seq : ℕ
  pub ssrc : ℕ
  pub nack : NackManager
  pub sim : LossSimulator
  pub clients : List ClientAddr
  pub stats : Metrics

pub record Sent : Type 0 where
  pub after : RtpServer
  pub out : List Datagram

-- `(f.capture_us / 1000) * 90` in 32 bits.
unfoldable pub timestamp : EncodedFrame → ℕ
timestamp f = u32_of_int (quot f.capture_us 1000 *ℤ pos 90)

unfoldable pub stream_of : RtpServer → EncodedFrame → Stream
unfolding timestamp
stream_of s f = record { mtu = s.udp_mtu; timestamp = timestamp f; ssrc = s.ssrc }

-- The XOR loops over the packets are those of `fec_generate`.
unfoldable pub parity : List Bytes → Bytes
parity packets = fec_generate packets

-- The recovery packet: it carries the capture time in milliseconds, and the number of packets.
unfoldable pub fec_packet : EncodedFrame → List Bytes → Bytes
unfolding parity
fec_packet f packets =
    let payload = parity packets in
    Udp.write (
      set_keyframe
        (record blank {
          payload_type = payload_code PayloadType.fec;
          group_id = u32_of_int f.frame_id;
          fragment_seq = fec_seq;
          fragment_cnt = u16 (length packets);
          frame_id = u32_of_int f.frame_id;
          capture_us_lo = u32_of_int (quot f.capture_us 1000);
          payload_len = u16 (length payload);
        })
        f.keyframe)
    ++ payload

module _ (draws : ℕ → Draw) where
  -- A round of the loop over the packets.
  unfoldable pub send_packet : Bytes → ℤ → RtpServer → Sent
  send_packet p now s =
      let given = inject draws s.sim p now s.stats in
      record {
        after = record s {
          nack = remember s.nack (record { group_id = 0; fragment_seq = read_seq p; raw = p });
          sim = given.after;
          stats = record given.stats {
            net_packets_sent = bump given.stats.net_packets_sent 1;
            net_bytes_sent = bump given.stats.net_bytes_sent (length p);
          };
        };
        out = raw_send_all s.clients given.sent;
      }

  unfoldable pub send_packets : List Bytes → ℤ → RtpServer → Sent
  unfolding send_packet
  send_packets [] now s = record { after = s; out = [] }
  send_packets (p ∷ ps) now s =
      let one = send_packet p now s in
      let rest = send_packets ps now one.after in
      record { after = rest.after; out = one.out ++ rest.out }

  -- The recovery packet is not remembered.
  unfoldable pub send_fec : EncodedFrame → List Bytes → ℤ → RtpServer → Sent
  unfolding fec_packet
  send_fec f packets now s =
      let given = inject draws s.sim (fec_packet f packets) now s.stats in
      record {
        after = record s {
          sim = given.after;
          stats = record given.stats { net_fec_sent = bump given.stats.net_fec_sent 1 };
        };
        out = raw_send_all s.clients given.sent;
      }

  unfoldable pub send_frame : EncodedFrame → ℤ → RtpServer → Sent
  unfolding stream_of send_packets send_fec
  send_frame f now s =
      let packets = pack (stream_of s f) f.data_bytes s.seq in
      let s' : RtpServer = record s { seq = (s.seq + length packets) % 2 ^ 16 } in
      let sent = send_packets packets now s' in
      let last = send_fec f packets now sent.after in
      if is_empty packets
      then record { after = s; out = [] }
      else record { after = last.after; out = sent.out ++ last.out }

  unfoldable pub broadcast : EncodedFrame → ℤ → RtpServer → Sent
  unfolding send_frame
  broadcast f now s =
      if is_empty s.clients then record { after = s; out = [] } else send_frame f now s

  unfoldable pub on_ping : ClientAddr → Bytes → RtpServer → Sent
  on_ping from buf s =
      let clients' = register_client from s.clients in
      record {
        after = record s { clients = clients' };
        out = raw_send clients' (set buf 3 (payload_code PayloadType.stats_pong));
      }

  unfoldable pub on_nack_packet : Bytes → ℤ → RtpServer → Sent
  on_nack_packet buf now s =
      let (packets, stats') = on_nack s.nack (drop Udp.header_size buf) s.stats in
      let given = inject_all draws s.sim packets now stats' in
      record {
        after = record s { sim = given.after; stats = given.stats };
        out = raw_send_all s.clients given.sent;
      }

  -- A round of `recv_loop` with a datagram that `recvfrom` gave.
  unfoldable pub receive : ClientAddr → Bytes → ℤ → RtpServer → Sent
  unfolding on_ping on_nack_packet
  receive from buf now s =
      let ignored : Sent = record { after = s; out = [] } in
      let h = Udp.read buf in
      if ltb (length buf) Udp.header_size || (byte_at buf 0 == 0x80 || not (magic_ok buf))
      then ignored
      else if h.payload_type == payload_code PayloadType.stats_ping
      then on_ping from buf s
      else if h.payload_type == payload_code PayloadType.nack
      then on_nack_packet buf now s
      else ignored

-- A round of `stats_loop`; `json` is the text of `Metrics::to_json`.
unfoldable pub stats_round : Bytes → RtpServer → List Datagram
stats_round json s =
    let h : UdpHeader = record blank {
      payload_type = payload_code PayloadType.stats_json;
      payload_len = u16 (length json);
    } in
    if is_empty s.clients || ltb 65535 (length json + Udp.header_size)
    then []
    else raw_send s.clients (Udp.write h ++ json)
