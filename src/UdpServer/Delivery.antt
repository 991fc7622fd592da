-- ===== src/UdpServer/Delivery.antt =====
-- With a network that loses and delays nothing, what the server sends is what it means to send.
use rtstream.Prelude.{
  ℕ, ◌+◌, ◌-◌, ◌%◌, ◌^◌, ◌<◌, ◌≡◌, refl, ap, ap₂, ◌∙◌, sym, Bool, true, false, List, [], ◌∷◌, ◌++◌,
  map, append_assoc, ◌==◌, if◌then◌else◌, some, arith,
}
use rtstream.Prelude.Int.{ℤ}
use rtstream.Wire.Bytes.{Bytes, u16, u32_of_int}
use rtstream.Wire.Media.{EncodedFrame}
use rtstream.Wire.Udp.{header_size, fec_seq, set_keyframe}
use rtstream.Stats.{Metrics}
use rtstream.Fec.{fec_generate}
use rtstream.Nack.{NackManager, RetransPacket, remember}
use rtstream.Sim.{Draw, LossSimulator, inject, delay_of}
use rtstream.UdpServer.{
  UdpServer, Sent, ClientAddr, raw_send_all, payload_size, fragment_count, fragments, packet_of,
  header_of, emit, emit_loop, send_frame,
}

-- `loss_rate`, `delay_ms` and `jitter_ms` are 0.
abbrev pub IsPerfect : LossSimulator → Type 0
IsPerfect sim = (sim.lossy ≡ false) × (sim.delay_ms ≡ 0) × (sim.jitter_ms ≡ 0)

-- A packet with the key under which the cache has it.
abbrev pub entry : EncodedFrame → ℕ → ℕ → Bytes → Bool → RetransPacket
entry f cnt seq payload is_fec = record {
  group_id = u32_of_int f.frame_id;
  fragment_seq = if is_fec then fec_seq else seq;
  raw = packet_of f cnt seq payload is_fec;
}

unfoldable pub data_entries : EncodedFrame → ℕ → ℕ → List Bytes → List RetransPacket
data_entries f cnt i [] = []
data_entries f cnt i (d ∷ ds) = entry f cnt (u16 i) d false ∷ data_entries f cnt (i + 1) ds

-- The packets of a frame: the numbered fragments, then the recovery packet.
unfoldable pub entries : EncodedFrame → ℕ → List RetransPacket
entries f size =
    let parts = fragments size f.data_bytes in
    let cnt = fragment_count size f.data_bytes in
    data_entries f cnt 0 parts ++ entry f cnt fec_seq (fec_generate parts) true ∷ []

unfoldable pub remember_all : NackManager → List RetransPacket → NackManager
remember_all m [] = m
remember_all m (p ∷ ps) = remember_all (remember m p) ps

-- What a call leaves of the server, and what it sends, when `es` goes through a perfect network.
abbrev pub Sends : UdpServer → List RetransPacket → Sent → Type 0
Sends s es r =
    (r.out ≡ raw_send_all s.clients (map (λ e. e.raw) es))
    × (r.after.nack ≡ remember_all s.nack es)
    × (r.after.clients ≡ s.clients)
    × IsPerfect r.after.sim

pub raw_send_all-append :
    (cs : List ClientAddr) (ds es : List Bytes)
    → raw_send_all cs (ds ++ es) ≡ raw_send_all cs ds ++ raw_send_all cs es
unfolding raw_send_all
raw_send_all-append cs [] es = refl
raw_send_all-append cs (d ∷ ds) es =
    ap (λ rest. map (λ c. (c, d)) cs ++ rest) (raw_send_all-append cs ds es)
    ∙ sym (append_assoc (map (λ c. (c, d)) cs) (raw_send_all cs ds) (raw_send_all cs es))

remember_all-append :
    (m : NackManager) (es fs : List RetransPacket)
    → remember_all m (es ++ fs) ≡ remember_all (remember_all m es) fs
unfolding remember_all
remember_all-append m [] fs = refl
remember_all-append m (e ∷ es) fs = remember_all-append (remember m e) es fs

map-append :
    (es fs : List RetransPacket)
    → map (λ e. e.raw) (es ++ fs) ≡ map (λ e. e.raw) es ++ map (λ e. e.raw) fs
map-append [] fs = refl
map-append (e ∷ es) fs = ap (λ rest. e.raw ∷ rest) (map-append es fs)

module _ (draws : ℕ → Draw) where
  pub inject-IsPerfect :
      (sim : LossSimulator) (p : Bytes) (now : ℤ) (stats : Metrics)
      → IsPerfect sim
      → ((inject draws sim p now stats).sent ≡ p ∷ [])
        × IsPerfect (inject draws sim p now stats).after
  unfolding inject delay_of
  inject-IsPerfect sim p now stats h = ground arith

  emit-Sends :
      (f : EncodedFrame) (cnt seq : ℕ) (payload : Bytes) (is_fec : Bool) (now : ℤ) (s : UdpServer)
      → IsPerfect s.sim
      → Sends s (entry f cnt seq payload is_fec ∷ []) (emit draws f cnt seq payload is_fec now s)
  unfolding emit remember_all header_of set_keyframe
  emit-Sends f cnt seq payload is_fec now s h =
      let given = inject-IsPerfect s.sim (packet_of f cnt seq payload is_fec) now _ h in
      (ap (raw_send_all s.clients) given.0, refl, refl, given.1)

  -- Two calls in a row.
  Sends-trans :
      (s : UdpServer) (one two : Sent) (es fs : List RetransPacket)
      → Sends s es one
      → Sends one.after fs two
      → Sends s (es ++ fs) (record { after = two.after; out = one.out ++ two.out })
  Sends-trans s one two es fs p q = (
    ap₂ ◌++◌ p.0 (q.0 ∙ ap (λ cs. raw_send_all cs (map (λ e. e.raw) fs)) p.2)
        ∙ sym (raw_send_all-append s.clients (map (λ e. e.raw) es) (map (λ e. e.raw) fs))
        ∙ ap (raw_send_all s.clients) (sym (map-append es fs)),
    q.1 ∙ ap (λ m. remember_all m fs) p.1 ∙ sym (remember_all-append s.nack es fs),
    q.2 ∙ p.2,
    q.3,
  )

  emit_loop-Sends :
      (f : EncodedFrame) (cnt i : ℕ) (ds : List Bytes) (now : ℤ) (s : UdpServer)
      → IsPerfect s.sim
      → Sends s (data_entries f cnt i ds) (emit_loop draws f cnt i ds now s)
  unfolding emit_loop data_entries remember_all raw_send_all
  emit_loop-Sends f cnt i [] now s h = (refl, refl, refl, h)
  emit_loop-Sends f cnt i (d ∷ ds) now s h =
      let first = emit-Sends f cnt (u16 i) d false now s h in
      let one = emit draws f cnt (u16 i) d false now s in
      Sends-trans s one (emit_loop draws f cnt (i + 1) ds now one.after)
        (entry f cnt (u16 i) d false ∷ []) (data_entries f cnt (i + 1) ds) first
        (emit_loop-Sends f cnt (i + 1) ds now one.after first.3)

  -- Over a network that loses and delays nothing, sending a frame succeeds: each datagram goes to
  -- every client, the numbered fragments first and in order, the recovery packet last; the cache
  -- takes the same packets in the same order, and the clients stay. The MTU is above the header's
  -- 24 bytes and is a `size_t`.
  pub send_frame-Sends :
      (f : EncodedFrame) (now : ℤ) (s : UdpServer)
      → IsPerfect s.sim
      → header_size < s.udp_mtu
      → s.udp_mtu < 2 ^ 64
      → (r : Sent) × (send_frame draws f now s ≡ some r)
        × Sends s (entries f (s.udp_mtu - header_size)) r
  unfolding send_frame entries payload_size
  send_frame-Sends f now s h low high =
      rw (size, positive)
        (let size = s.udp_mtu - header_size in
          let parts = fragments size f.data_bytes in
          let cnt = fragment_count size f.data_bytes in
          let sent = emit_loop draws f cnt 0 parts now s in
          let first = emit_loop-Sends f cnt 0 parts now s h in
          let last = emit-Sends f cnt fec_seq (fec_generate parts) true now sent.after first.3 in
          (
            _,
            refl,
            Sends-trans s sent (emit draws f cnt fec_seq (fec_generate parts) true now sent.after)
                (data_entries f cnt 0 parts) (entry f cnt fec_seq (fec_generate parts) true ∷ [])
                first last,
          ))
    where
      size : (s.udp_mtu + 2 ^ 64 - header_size) % 2 ^ 64 ≡ s.udp_mtu - header_size
      size = omega arith

      positive : (s.udp_mtu - header_size == 0) ≡ false
      positive = ground arith
