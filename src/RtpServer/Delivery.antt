-- ===== src/RtpServer/Delivery.antt =====
-- Over a network that loses and delays nothing, the packets of a frame go to every client, and a
-- receiver can make the frame of what it gets.
use rtstream.Prelude.{
  ℕ, ◌+◌, ◌%◌, ◌^◌, ◌≡◌, refl, ap, ap₂, ◌∙◌, sym, false, List, [], ◌∷◌, ◌++◌, length, is_empty,
}
use rtstream.Prelude.Int.{ℤ}
use rtstream.Wire.Bytes.{Bytes}
use rtstream.Wire.Media.{EncodedFrame}
use rtstream.Nack.{NackManager, remember}
use rtstream.Sim.{Draw}
use rtstream.UdpServer.{raw_send_all}
use rtstream.UdpServer.Delivery.{IsPerfect, inject-IsPerfect, raw_send_all-append}
use rtstream.Rtp.Header.{read_seq}
use rtstream.Rtp.Pack.{pack}
use rtstream.RtpServer.{
  RtpServer, Sent, stream_of, fec_packet, send_packet, send_packets, send_fec, send_frame,
}

-- A packet with the key under which the cache has it.
unfoldable pub remember_all : NackManager → List Bytes → NackManager
remember_all m [] = m
remember_all m (p ∷ ps) =
    remember_all (remember m (record { group_id = 0; fragment_seq = read_seq p; raw = p })) ps

-- What sending packets `ps` leaves of the server, and what goes out, over a perfect network.
abbrev pub Sends : RtpServer → List Bytes → List Bytes → Sent → Type 0
Sends s ps cached r =
    (r.out ≡ raw_send_all s.clients ps)
    × (r.after.nack ≡ remember_all s.nack cached)
    × (r.after.clients ≡ s.clients)
    × (r.after.seq ≡ s.seq)
    × IsPerfect r.after.sim

module _ (draws : ℕ → Draw) where
  send_packets-Sends :
      (ps : List Bytes) (now : ℤ) (s : RtpServer)
      → IsPerfect s.sim
      → Sends s ps ps (send_packets draws ps now s)
  unfolding send_packets send_packet remember_all raw_send_all
  send_packets-Sends [] now s h = (refl, refl, refl, refl, h)
  send_packets-Sends (p ∷ ps) now s h =
      let one = inject-IsPerfect draws s.sim p now s.stats h in
      let rest = send_packets-Sends ps now (send_packet draws p now s).after one.1 in
      (
        ap₂ ◌++◌ (ap (raw_send_all s.clients) one.0) rest.0
            ∙ sym (raw_send_all-append s.clients (p ∷ []) ps),
        rest.1,
        rest.2,
        rest.3,
        rest.4,
      )

  send_fec-Sends :
      (f : EncodedFrame) (ps : List Bytes) (now : ℤ) (s : RtpServer)
      → IsPerfect s.sim
      → Sends s (fec_packet f ps ∷ []) [] (send_fec draws f ps now s)
  unfolding send_fec remember_all raw_send_all
  send_fec-Sends f ps now s h =
      let one = inject-IsPerfect draws s.sim (fec_packet f ps) now s.stats h in
      (ap (raw_send_all s.clients) one.0, refl, refl, refl, one.1)

  -- Over a network that loses and delays nothing, each packet of a frame that has any goes to every
  -- client, in order, and then the recovery packet of them all; the cache takes the packets in
  -- the same order and not the recovery packet, the number of the next packet is the first one not
  -- used, and the clients stay.
  pub send_frame-pack :
      (f : EncodedFrame) (now : ℤ) (s : RtpServer)
      → IsPerfect s.sim
      → is_empty (pack (stream_of s f) f.data_bytes s.seq) ≡ false
      → ((send_frame draws f now s).out
          ≡ raw_send_all s.clients (
              pack (stream_of s f) f.data_bytes s.seq
              ++ fec_packet f (pack (stream_of s f) f.data_bytes s.seq) ∷ []))
        × ((send_frame draws f now s).after.nack
            ≡ remember_all s.nack (pack (stream_of s f) f.data_bytes s.seq))
        × ((send_frame draws f now s).after.seq
            ≡ (s.seq + length (pack (stream_of s f) f.data_bytes s.seq)) % 2 ^ 16)
        × ((send_frame draws f now s).after.clients ≡ s.clients)
        × IsPerfect (send_frame draws f now s).after.sim
  unfolding send_frame remember_all
  send_frame-pack f now s h some_packets =
      let packets = pack (stream_of s f) f.data_bytes s.seq in
      let s' : RtpServer = record s { seq = (s.seq + length packets) % 2 ^ 16 } in
      let first = send_packets-Sends packets now s' h in
      let sent = send_packets draws packets now s' in
      let last = send_fec-Sends f packets now sent.after first.4 in
      rw some_packets (
        ap₂ ◌++◌ first.0 (last.0 ∙ ap (λ cs. raw_send_all cs (fec_packet f packets ∷ [])) first.2)
            ∙ sym (raw_send_all-append s.clients packets (fec_packet f packets ∷ [])),
        last.1 ∙ first.1,
        last.3 ∙ first.3,
        last.2 ∙ first.2,
        last.4,
      )
