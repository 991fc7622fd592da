-- ===== src/UdpServer.antt =====
-- src/transport/udp_server.h: a frame becomes numbered fragments and one recovery packet, which go
-- through the retransmission cache and the simulated network; and what the server answers.
pub mod Fragments
pub mod Control
pub mod Packets
pub mod Delivery
pub mod Clients
pub mod Resend
mod Tests
use rtstream.Prelude.{
  ℕ, zero, suc, ◌+◌, ◌-◌, ◌*◌, ◌/◌, ◌%◌, ◌^◌, min, Bool, true, false, ◌&&◌, not, List, [], ◌∷◌,
  ◌++◌, map, Option, none, some, length, take, drop, ltb, ◌==◌, is_empty, if◌then◌else◌,
}
use rtstream.Prelude.Int.{ℤ}
use rtstream.Wire.Bytes.{Bytes, byte_at, u16, u32_of_int}
use rtstream.Wire.Media.{EncodedFrame, PayloadType, payload_code}
use rtstream.Wire.Udp
use rtstream.Wire.Udp.{UdpHeader, blank, header_size, fec_seq, set_keyframe}
use rtstream.Stats.{Metrics, bump}
use rtstream.Fec.{fec_generate}
use rtstream.Nack.{NackManager, RetransPacket, remember, on_nack}
use rtstream.Sim.{Draw, LossSimulator, inject}

-- An IPv4 address as the number that its text stands for.
pub record ClientAddr : Type 0 where
  pub ip : ℕ
  pub port : ℕ

-- A datagram given to `udp_sendto`.
abbrev pub Datagram : Type 0
Datagram = ClientAddr × Bytes

pub record UdpServer : Type 0 where
  pub udp_mtu : ℕ
  pub nack : NackManager
  pub sim : LossSimulator
  pub clients : List ClientAddr
  pub stats : Metrics

-- `raw_send`, and the sender of the simulator: one datagram for each client.
unfoldable pub raw_send : List ClientAddr → Bytes → List Datagram
raw_send cs d = map (λ c. (c, d)) cs

unfoldable pub raw_send_all : List ClientAddr → List Bytes → List Datagram
unfolding raw_send
raw_send_all cs [] = []
raw_send_all cs (d ∷ ds) = raw_send cs d ++ raw_send_all cs ds

-- `cfg_.udp_mtu - UdpHeader::kSize` on `size_t`
unfoldable pub payload_size : ℕ → ℕ
payload_size mtu = (mtu + 2 ^ 64 - header_size) % 2 ^ 64

-- The number of fragments; `size` must not be 0.
unfoldable pub fragment_count : ℕ → Bytes → ℕ
fragment_count size frame =
    let cnt = (length frame + size - 1) / size in if cnt == 0 then 1 else cnt

-- The loop that fills the fragments from number `i` on, with `n` to go.
unfoldable pub fragment_loop : ℕ → ℕ → ℕ → Bytes → List Bytes
fragment_loop zero i size frame = []
fragment_loop (suc n) i size frame =
    let off = i * size in
    take (min size (length frame - off)) (drop off frame) ∷ fragment_loop n (i + 1) size frame

unfoldable pub fragments : ℕ → Bytes → List Bytes
unfolding fragment_count fragment_loop
fragments size frame = fragment_loop (fragment_count size frame) 0 size frame

-- The header that `emit` writes before a payload.
unfoldable pub header_of : EncodedFrame → ℕ → ℕ → ℕ → Bool → UdpHeader
header_of f cnt seq len is_fec =
    set_keyframe
      (record {
        payload_type = payload_code (if is_fec then PayloadType.fec else PayloadType.media);
        group_id = u32_of_int f.frame_id;
        fragment_seq = if is_fec then fec_seq else seq;
        fragment_cnt = u16 (cnt + 1);
        frame_id = u32_of_int f.frame_id;
        capture_us_lo = u32_of_int f.capture_us;
        payload_len = u16 len;
        flags = 0;
      })
      f.keyframe

unfoldable pub packet_of : EncodedFrame → ℕ → ℕ → Bytes → Bool → Bytes
unfolding header_of
packet_of f cnt seq payload is_fec =
    Udp.write (header_of f cnt seq (length payload) is_fec) ++ payload

-- A server after a call, and the datagrams that it handed to the socket.
pub record Sent : Type 0 where
  pub after : UdpServer
  pub out : List Datagram

module _ (draws : ℕ → Draw) where
  -- `emit`: remember the packet, give it to the simulator, count it.
  unfoldable pub emit : EncodedFrame → ℕ → ℕ → Bytes → Bool → ℤ → UdpServer → Sent
  unfolding packet_of
  emit f cnt seq payload is_fec now s =
      let pkt = packet_of f cnt seq payload is_fec in
      let h = header_of f cnt seq (length payload) is_fec in
      let counted : Metrics = record s.stats {
        net_fec_sent = if is_fec then bump s.stats.net_fec_sent 1 else s.stats.net_fec_sent;
      } in
      let given = inject draws s.sim pkt now counted in
      record {
        after = record s {
          nack = remember s.nack (record {
            group_id = u32_of_int f.frame_id;
            fragment_seq = h.fragment_seq;
            raw = pkt;
          });
          sim = given.after;
          stats = record given.stats {
            net_packets_sent = bump given.stats.net_packets_sent 1;
            net_bytes_sent = bump given.stats.net_bytes_sent (length pkt);
          };
        };
        out = raw_send_all s.clients given.sent;
      }

  unfoldable pub emit_loop : EncodedFrame → ℕ → ℕ → List Bytes → ℤ → UdpServer → Sent
  unfolding emit
  emit_loop f cnt i [] now s = record { after = s; out = [] }
  emit_loop f cnt i (d ∷ ds) now s =
      let one = emit f cnt (u16 i) d false now s in
      let rest = emit_loop f cnt (i + 1) ds now one.after in
      record { after = rest.after; out = one.out ++ rest.out }

  -- `none` is the division by zero of an MTU as small as the header.
  unfoldable pub send_frame : EncodedFrame → ℤ → UdpServer → Option Sent
  unfolding emit_loop
  send_frame f now s =
      let size = payload_size s.udp_mtu in
      let parts = fragments size f.data_bytes in
      let cnt = fragment_count size f.data_bytes in
      let sent = emit_loop f cnt 0 parts now s in
      let last = emit f cnt fec_seq (fec_generate parts) true now sent.after in
      if size == 0 then none else some (record { after = last.after; out = sent.out ++ last.out })

  unfoldable pub broadcast : EncodedFrame → ℤ → UdpServer → Option Sent
  unfolding send_frame
  broadcast f now s =
      if is_empty s.clients then some (record { after = s; out = [] }) else send_frame f now s
