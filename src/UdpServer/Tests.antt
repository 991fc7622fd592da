-- ===== src/UdpServer/Tests.antt =====
-- A server that sends a frame of 30 bytes in fragments of 12, and its theorems there.
use rtstream.Prelude.{
  ℕ, ◌<◌, ◌≤◌, ◌≡◌, refl, true, false, List, [], ◌∷◌, ◌++◌, map, length, some, arith, replicate,
}
use rtstream.Prelude.Int.{pos}
use rtstream.Wire.Bytes.{Bytes}
use rtstream.Wire.Media.{EncodedFrame, PayloadType, payload_code}
use rtstream.Wire.Udp
use rtstream.Wire.Udp.{UdpHeader, blank, header_size, magic_ok, keyframe}
use rtstream.Stats.{no_metrics}
use rtstream.Nack.Requests.{Request}
use rtstream.Sim.{Draw}
use rtstream.UdpServer.{
  ClientAddr, UdpServer, Sent, fragments, fragment_count, fragment_loop, send_frame,
}
use rtstream.UdpServer.Control.{same_client, register_client, receive}
use rtstream.UdpServer.Fragments.{AllFit, glue, fragments-Whole}
use rtstream.UdpServer.Delivery.{Sends, entries, send_frame-Sends}
use rtstream.UdpServer.Clients.{IsPongOf, Registers, receive-ping}

abbrev no_draws : ℕ → Draw
no_draws k = record { unlucky = false; late_ms = 0 }

abbrev frame : EncodedFrame
frame = record {
  capture_us = pos 5000000000;
  wall_us = pos 0;
  encode_done_us = pos 0;
  frame_id = pos 7;
  width = 640;
  height = 480;
  keyframe = true;
  data_bytes = replicate 30 9;
}

abbrev home : ClientAddr
home = record { ip = 0x7f000001; port = 9000 }

abbrev server : UdpServer
server = record {
  udp_mtu = 36;
  nack = record { items = []; cache = 2; send_set = true };
  sim = record { lossy = false; delay_ms = 0; jitter_ms = 0; pending = []; drawn = 0 };
  clients = home ∷ [];
  stats = no_metrics;
}

abbrev ping : UdpHeader
ping = record blank { payload_type = payload_code PayloadType.stats_ping; payload_len = 8 }

abbrev request : UdpHeader
request = record blank { payload_type = payload_code PayloadType.nack; payload_len = 6 }

fragments-frame :
    fragments 12 frame.data_bytes ≡ replicate 12 9 ∷ replicate 12 9 ∷ replicate 6 9 ∷ []
unfolding fragments fragment_count fragment_loop
fragments-frame = refl

register_client-home : register_client home (home ∷ []) ≡ home ∷ []
unfolding register_client same_client
register_client-home = refl

fragments-Whole_example :
    (glue (fragments 12 frame.data_bytes) ≡ frame.data_bytes)
    × (length (fragments 12 frame.data_bytes) ≡ fragment_count 12 frame.data_bytes)
    × (0 < length frame.data_bytes → AllFit 12 (fragments 12 frame.data_bytes))
fragments-Whole_example = fragments-Whole 12 frame.data_bytes (omega arith)

send_frame-Sends_example :
    (r : Sent) × (send_frame no_draws frame (pos 1) server ≡ some r)
    × Sends server (entries frame 12) r
send_frame-Sends_example =
    send_frame-Sends no_draws frame (pos 1) server (refl, refl, refl) (omega arith) (omega arith)

ping-ok : magic_ok (Udp.write ping ++ replicate 8 0) ≡ true
unfolding magic_ok Udp.write
ping-ok = refl

ping-type : (Udp.read (Udp.write ping ++ replicate 8 0)).payload_type ≡ 3
unfolding Udp.read Udp.write
ping-type = refl

ping-length : header_size ≤ length (Udp.write ping ++ replicate 8 0)
unfolding Udp.write
ping-length = omega arith

receive-ping_example :
    (clients : List ClientAddr) × (pong : Bytes) × Registers home server.clients clients
    × IsPongOf (Udp.write ping ++ replicate 8 0) pong
    × ((receive no_draws home (Udp.write ping ++ replicate 8 0) (pos 1) server).after
        ≡ record server { clients = clients })
    × ((receive no_draws home (Udp.write ping ++ replicate 8 0) (pos 1) server).out
        ≡ map (λ c. (c, pong)) clients)
receive-ping_example =
    receive-ping no_draws home (Udp.write ping ++ replicate 8 0) (pos 1) server ping-length ping-ok
      ping-type

-- A server whose cache has fragment 2 of group 7.
abbrev cached : UdpServer
cached = record server {
  nack = record server.nack {
    items = record { group_id = 7; fragment_seq = 2; raw = 1 ∷ 2 ∷ [] } ∷ [];
  };
}

abbrev wanted : List Request
wanted = (7, 1) ∷ (7, 2) ∷ []
