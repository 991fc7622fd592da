-- ===== src/TcpServer/Sends.antt =====
-- However the socket takes the bytes of a frame, they go out in order and whole, or the client ends.
use rtstream.Prelude.{
  ℕ, zero, suc, ◌≡◌, refl, ap, subst, ◌∙◌, sym, ◌⊎◌, inl, inr, false, List, [], ◌∷◌, ◌++◌, take,
  drop, take-append-drop, append_assoc,
}
use rtstream.Wire.Bytes.{Bytes}
use rtstream.Wire.Media.{EncodedFrame}
use rtstream.Stats.{Metrics, bump}
use rtstream.TcpServer.{
  SendResult, Outcome, Sending, Client, Round, send_all, send_both, packet, total, hang_up,
  after_send, send_frame,
}

-- All of the bytes went out, or only those before `rest`.
abbrev pub Writes : Bytes → Sending → Type 0
Writes bytes s =
    ((s.outcome ≡ Outcome.done) × (s.out ≡ bytes))
    ⊎ ((rest : Bytes) × ((s.outcome ≡ Outcome.failed) ⊎ (s.outcome ≡ Outcome.waits))
        × (s.out ++ rest ≡ bytes))

Writes-cons :
    (b : ℕ) (head tail : Bytes) (s : Sending)
    → Writes tail s
    → Writes (b ∷ (head ++ tail)) (record s { out = b ∷ (head ++ s.out) })
Writes-cons b head tail s (inl (e, all)) = inl (e, ap (λ out. b ∷ (head ++ out)) all)
Writes-cons b head tail s (inr (rest, e, some_of)) =
    inr (
      rest,
      e,
      ap (λ out. b ∷ out) (append_assoc head s.out rest ∙ ap (λ out. head ++ out) some_of),
    )

pub send_all-Writes : (rs : List SendResult) (bytes : Bytes) → Writes bytes (send_all rs bytes)
unfolding send_all
send_all-Writes rs [] = inl (refl, refl)
send_all-Writes [] (b ∷ bytes) = inr (b ∷ bytes, inr refl, refl)
send_all-Writes (SendResult.interrupted ∷ rs) (b ∷ bytes) = send_all-Writes rs (b ∷ bytes)
send_all-Writes (SendResult.broken ∷ rs) (b ∷ bytes) = inr (b ∷ bytes, inl refl, refl)
send_all-Writes (SendResult.took zero ∷ rs) (b ∷ bytes) = inr (b ∷ bytes, inl refl, refl)
send_all-Writes (SendResult.took (suc n) ∷ rs) (b ∷ bytes) =
    subst
      (λ whole. Writes (b ∷ whole) (record (send_all rs (drop n bytes)) {
        out = b ∷ (take n bytes ++ (send_all rs (drop n bytes)).out);
      }))
      (take-append-drop n bytes)
      (Writes-cons b (take n bytes) (drop n bytes) (send_all rs (drop n bytes))
        (send_all-Writes rs (drop n bytes)))

longer :
    (out rest first second : Bytes)
    → out ++ rest ≡ first
    → out ++ (rest ++ second) ≡ first ++ second
longer out rest first second e = sym (append_assoc out rest second) ∙ ap (λ xs. xs ++ second) e

send_both-cases :
    (first second : Bytes) (one two : Sending)
    → Writes first one
    → Writes second two
    → Writes (first ++ second) (elim one.outcome [
      | Outcome.done ↦ record two { out = one.out ++ two.out }
      | Outcome.failed ↦ one
      | Outcome.waits ↦ one
    ])
send_both-cases first second one two (inl (e, all)) (inl (e', all')) =
    rw e (inl (e', rw (all, all') refl))
send_both-cases first second one two (inl (e, all)) (inr (rest, e', some_of)) =
    rw e (inr (rest, e', append_assoc one.out two.out rest ∙ rw (all, some_of) refl))
send_both-cases first second one two (inr (rest, inl e, some_of)) w =
    rw e (inr (rest ++ second, inl e, longer one.out rest first second some_of))
send_both-cases first second one two (inr (rest, inr e, some_of)) w =
    rw e (inr (rest ++ second, inr e, longer one.out rest first second some_of))

-- The bytes of one frame on the wire: its length, its header, its data.
unfoldable pub wire : EncodedFrame → Bytes
wire f = total (packet f) ++ packet f

-- The client sent a frame whole and counted it; or its thread ends with it dead, or waits for ever,
-- after the bytes before `rest` only.
abbrev pub Delivers : Client → EncodedFrame → Metrics → Round → Type 0
Delivers c f stats (Round.goes_on c' stats') =
    (c'.on_wire ≡ c.on_wire ++ wire f)
    × (stats'.net_packets_sent ≡ bump stats.net_packets_sent 1)
    × (c'.queue ≡ c.queue)
    × (c'.alive ≡ c.alive)
Delivers c f stats (Round.ends c' stats') =
    (c'.alive ≡ false)
    × (stats' ≡ stats)
    × ((rest : Bytes) × (c'.on_wire ++ rest ≡ c.on_wire ++ wire f))
Delivers c f stats (Round.stuck c') = (rest : Bytes) × (c'.on_wire ++ rest ≡ c.on_wire ++ wire f)

delivers :
    (c : Client) (f : EncodedFrame) (stats : Metrics) (s : Sending)
    → Writes (wire f) s
    → Delivers c f stats (after_send c f stats s)
unfolding after_send hang_up
delivers c f stats s (inl (e, all)) = rw (e, all) (refl, refl, refl, refl)
delivers c f stats s (inr (rest, inl e, some_of)) =
    rw e
      (refl, refl, (rest, append_assoc c.on_wire s.out rest ∙ ap (λ out. c.on_wire ++ out) some_of))
delivers c f stats s (inr (rest, inr e, some_of)) =
    rw e (rest, append_assoc c.on_wire s.out rest ∙ ap (λ out. c.on_wire ++ out) some_of)

-- Whatever the socket does, a frame that a client's thread sends goes out whole, behind what went out
-- before, and is counted; or a part of it from its start goes out, and then the client is dead and
-- the counters stay, or the call has not returned.
pub send_frame-Delivers :
    (c : Client) (f : EncodedFrame) (stats : Metrics) → Delivers c f stats (send_frame c f stats)
unfolding send_frame send_both wire
send_frame-Delivers c f stats = delivers c f stats _ (
    send_both-cases (total (packet f)) (packet f) _ _ (send_all-Writes c.results (total (packet f)))
      (send_all-Writes _ (packet f)))
