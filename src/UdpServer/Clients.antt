-- ===== src/UdpServer/Clients.antt =====
-- What the server answers, and to whom.
use rtstream.Prelude.{
  ℕ, ◌≤◌, ◌≡◌, ◌≢◌, ap, ◌++◌, ◌⊎◌, inl, inr, refl, true, false, List, [], ◌∷◌, map, length, drop,
  set, ltb, arith, Bool-cases,
}
use rtstream.Prelude.Int.{ℤ}
use rtstream.Wire.Bytes.{Bytes}
use rtstream.Wire.Media.{PayloadType, payload_code}
use rtstream.Wire.Udp
use rtstream.Wire.Udp.{UdpHeader, header_size, magic_ok}
use rtstream.Sim.{Draw}
use rtstream.UdpServer.{ClientAddr, UdpServer, raw_send}
use rtstream.UdpServer.Control.{same_client, register_client, on_ping, handle_control, receive}

-- The client does not stand in the list.
abbrev pub Misses : ClientAddr → List ClientAddr → Type 0
Misses c [] = Unit {0}
Misses c (d ∷ ds) = (d ≢ c) × Misses c ds

-- What registering a client makes of the list: nothing new when the client stands in it, and else the
-- same list with the client at its end.
abbrev pub Registers : ClientAddr → List ClientAddr → List ClientAddr → Type 0
Registers c cs cs' =
    ((before behind : List ClientAddr) × (cs ≡ before ++ c ∷ behind) × (cs' ≡ cs))
    ⊎ (Misses c cs × (cs' ≡ cs ++ c ∷ []))

same_client-eq : (c d : ClientAddr) → same_client d c ≡ true → d ≡ c
unfolding same_client
same_client-eq c d h =
    let ips : d.ip ≡ c.ip = ground (arith, h) in
    let ports : d.port ≡ c.port = ground (arith, h) in λ i. record { ip = ips i; port = ports i }

same_client-ne : (c d : ClientAddr) → same_client d c ≡ false → d ≢ c
unfolding same_client
same_client-ne c d h e =
    ground (arith, h, ap (λ (x : ClientAddr). x.ip) e, ap (λ (x : ClientAddr). x.port) e)

register_client-Registers :
    (c : ClientAddr) (cs : List ClientAddr) → Registers c cs (register_client c cs)
unfolding register_client
register_client-Registers c [] = inr (tt, refl)
register_client-Registers c (d ∷ ds) = elim (Bool-cases (same_client d c)) [
  | inl same ↦ rw same (inl ([], ds, ap (λ e. e ∷ ds) (same_client-eq c d same), refl))
  | inr other ↦ rw other (elim (register_client-Registers c ds) [
    | inl (before, behind, e, kept) ↦
        inl (d ∷ before, behind, ap (λ es. d ∷ es) e, ap (λ es. d ∷ es) kept)
    | inr (missing, added) ↦ inr ((same_client-ne c d other, missing), ap (λ es. d ∷ es) added)
  ])
]

-- A pong reads as its ping, with the type of a pong.
abbrev pub IsPongOf : Bytes → Bytes → Type 0
IsPongOf ping pong =
    (Udp.read pong ≡ record (Udp.read ping) { payload_type = payload_code PayloadType.stats_pong })
    × (magic_ok pong ≡ true)
    × (length pong ≡ length ping)
    × (drop header_size pong ≡ drop header_size ping)

pong-IsPongOf :
    (buf : Bytes)
    → header_size ≤ length buf
    → magic_ok buf ≡ true
    → IsPongOf buf (set buf 3 (payload_code PayloadType.stats_pong))
unfolding Udp.read magic_ok
pong-IsPongOf [] h ok = absurd (omega arith)
pong-IsPongOf (a ∷ []) h ok = absurd (omega arith)
pong-IsPongOf (a ∷ b ∷ []) h ok = absurd (omega arith)
pong-IsPongOf (a ∷ b ∷ c ∷ []) h ok = absurd (omega arith)
pong-IsPongOf (a ∷ b ∷ c ∷ d ∷ rest) h ok = (refl, ok, refl, refl)

module _ (draws : ℕ → Draw) where
  -- A ping of at least a header's length leaves its sender registered: a sender that stands in the list of
  -- clients already changes nothing, and a new one is put at its end. Nothing else changes in the
  -- server. What goes out is one datagram for each client of the new list, the sender included, which
  -- is the ping with its type turned into a pong.
  pub receive-ping :
      (from : ClientAddr) (buf : Bytes) (now : ℤ) (s : UdpServer)
      → header_size ≤ length buf
      → magic_ok buf ≡ true
      → (Udp.read buf).payload_type ≡ payload_code PayloadType.stats_ping
      → (clients : List ClientAddr) × (pong : Bytes) × Registers from s.clients clients
        × IsPongOf buf pong
        × ((receive draws from buf now s).after ≡ record s { clients = clients })
        × ((receive draws from buf now s).out ≡ map (λ c. (c, pong)) clients)
  unfolding receive handle_control on_ping raw_send
  receive-ping from buf now s len ok type =
      rw (long_enough, ok, type)
        (
          register_client from s.clients,
          _,
          register_client-Registers from s.clients,
          pong-IsPongOf buf len ok,
          refl,
          refl,
        )
    where
      long_enough : ltb (length buf) header_size ≡ false
      long_enough = ground arith
