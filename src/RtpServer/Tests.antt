-- ===== src/RtpServer/Tests.antt =====
-- A server that sends a picture of one unit in two fragments.
use rtstream.Prelude.{
  ℕ, ◌+◌, ◌%◌, ◌^◌, ◌≡◌, refl, true, false, [], ◌∷◌, ◌++◌, length, is_empty, replicate,
}
use rtstream.Prelude.Int.{pos, ◌*ℤ◌}
use rtstream.Wire.Media.{EncodedFrame}
use rtstream.Stats.{no_metrics}
use rtstream.Sim.{Draw}
use rtstream.UdpServer.{ClientAddr, raw_send_all}
use rtstream.UdpServer.Delivery.{IsPerfect}
use rtstream.Rtp.Header.{mark, write_rtp_header}
use rtstream.Rtp.Nalu.{next_nalu, find_start, nal_length, code_at}
use rtstream.Rtp.Pack.{pack, pack_loop, pack_nal, fu_loop, mark_last}
use rtstream.RtpServer.{RtpServer, timestamp, stream_of, fec_packet, send_frame, receive}
use rtstream.RtpServer.Delivery.{remember_all, send_frame-pack}

abbrev no_draws : ℕ → Draw
no_draws k = record { unlucky = false; late_ms = 0 }

abbrev home : ClientAddr
home = record { ip = 1; port = 2 }

abbrev server : RtpServer
server = record {
  udp_mtu = 16;
  seq = 65535;
  ssrc = 7;
  nack = record { items = []; cache = 512; send_set = true };
  sim = record { lossy = false; delay_ms = 0; jitter_ms = 0; pending = []; drawn = 0 };
  clients = home ∷ [];
  stats = no_metrics;
}

abbrev picture : EncodedFrame
picture = record {
  capture_us = pos 1234567;
  wall_us = pos 0;
  encode_done_us = pos 0;
  frame_id = pos 3;
  width = 640;
  height = 480;
  keyframe = true;
  data_bytes = 0 ∷ 0 ∷ 1 ∷ 0x65 ∷ 1 ∷ 2 ∷ 3 ∷ 4 ∷ [];
}

-- The time stamp is the time in whole milliseconds, at 90 kHz.
timestamp-picture : timestamp picture ≡ 111060
unfolding timestamp ◌*ℤ◌
timestamp-picture = refl

has_packets : is_empty (pack (stream_of server picture) picture.data_bytes 65535) ≡ false
unfolding pack pack_loop pack_nal fu_loop mark_last mark next_nalu find_start nal_length code_at
    stream_of write_rtp_header
has_packets = refl

-- A datagram that begins as an RTP packet is not for the server.
receive-rtp :
    receive no_draws home (0x80 ∷ replicate 30 0) (pos 1) server
    ≡ record { after = server; out = [] }
unfolding receive
receive-rtp = refl

send_frame-pack_example :
    ((send_frame no_draws picture (pos 1) server).out
      ≡ raw_send_all server.clients (
          pack (stream_of server picture) picture.data_bytes 65535
          ++ fec_packet picture (pack (stream_of server picture) picture.data_bytes 65535) ∷ []))
    × ((send_frame no_draws picture (pos 1) server).after.nack
        ≡ remember_all server.nack (pack (stream_of server picture) picture.data_bytes 65535))
    × ((send_frame no_draws picture (pos 1) server).after.seq
        ≡ (65535 + length (pack (stream_of server picture) picture.data_bytes 65535)) % 2 ^ 16)
    × ((send_frame no_draws picture (pos 1) server).after.clients ≡ server.clients)
    × IsPerfect (send_frame no_draws picture (pos 1) server).after.sim
send_frame-pack_example =
    send_frame-pack no_draws picture (pos 1) server (refl, refl, refl) has_packets
