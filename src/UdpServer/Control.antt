-- ===== src/UdpServer/Control.antt =====
-- What the server does with the datagrams it receives, and the statistics that it sends.
use rtstream.Prelude.{
  ℕ, ◌+◌, Bool, ◌&&◌, ◌||◌, not, List, [], ◌∷◌, ◌++◌, length, drop, set, is_empty, ltb, ◌==◌,
  if◌then◌else◌,
}
use rtstream.Prelude.Int.{ℤ}
use rtstream.Wire.Bytes.{Bytes, u16}
use rtstream.Wire.Media.{PayloadType, payload_code}
use rtstream.Wire.Udp
use rtstream.Wire.Udp.{UdpHeader, blank, header_size, magic_ok}
use rtstream.Stats.{Metrics}
use rtstream.Nack.{on_nack}
use rtstream.Sim.{Draw, LossSimulator, inject}
use rtstream.UdpServer.{ClientAddr, Datagram, UdpServer, Sent, raw_send, raw_send_all}

unfoldable pub same_client : ClientAddr → ClientAddr → Bool
same_client a b = a.ip == b.ip && a.port == b.port

-- The search loop of `register_client`, and the `push_back` behind it.
unfoldable pub register_client : ClientAddr → List ClientAddr → List ClientAddr
unfolding same_client
register_client c [] = c ∷ []
register_client c (d ∷ ds) =
    let rest = register_client c ds in if same_client d c then d ∷ ds else d ∷ rest

-- The packets of a NACK's answers through the simulator, one after the other.
pub record InjectedAll : Type 0 where
  pub after : LossSimulator
  pub sent : List Bytes
  pub stats : Metrics

module _ (draws : ℕ → Draw) where
  unfoldable pub inject_all : LossSimulator → List Bytes → ℤ → Metrics → InjectedAll
  inject_all sim [] now stats = record { after = sim; sent = []; stats = stats }
  inject_all sim (p ∷ ps) now stats =
      let one = inject draws sim p now stats in
      let rest = inject_all one.after ps now one.stats in
      record { after = rest.after; sent = one.sent ++ rest.sent; stats = rest.stats }

  -- A ping registers its sender and goes back to all clients as a pong.
  unfoldable pub on_ping : ClientAddr → Bytes → UdpServer → Sent
  unfolding register_client
  on_ping from buf s =
      let clients' = register_client from s.clients in
      record {
        after = record s { clients = clients' };
        out = raw_send clients' (set buf 3 (payload_code PayloadType.stats_pong));
      }

  unfoldable pub on_nack_packet : Bytes → ℤ → UdpServer → Sent
  unfolding inject_all
  on_nack_packet buf now s =
      let (packets, stats') = on_nack s.nack (drop header_size buf) s.stats in
      let given = inject_all s.sim packets now stats' in
      record {
        after = record s { sim = given.after; stats = given.stats };
        out = raw_send_all s.clients given.sent;
      }

  unfoldable pub handle_control : ClientAddr → UdpHeader → Bytes → ℤ → UdpServer → Sent
  unfolding on_ping on_nack_packet
  handle_control from h buf now s =
      if h.payload_type == payload_code PayloadType.stats_ping
      then on_ping from buf s
      else if h.payload_type == payload_code PayloadType.nack
      then on_nack_packet buf now s
      else record { after = s; out = [] }

  -- One round of `recv_loop` with a datagram that `recvfrom` gave.
  unfoldable pub receive : ClientAddr → Bytes → ℤ → UdpServer → Sent
  unfolding handle_control
  receive from buf now s =
      if ltb (length buf) header_size || not (magic_ok buf)
      then record { after = s; out = [] }
      else handle_control from (Udp.read buf) buf now s

-- One round of `stats_loop`; `json` is the text of `Metrics::to_json`.
unfoldable pub stats_round : Bytes → UdpServer → List Datagram
stats_round json s =
    let h : UdpHeader = record blank {
      payload_type = payload_code PayloadType.stats_json;
      payload_len = u16 (length json);
    } in
    if is_empty s.clients || ltb 65535 (length json + header_size)
    then []
    else raw_send s.clients (Udp.write h ++ json)
