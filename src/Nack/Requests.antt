-- ===== src/Nack/Requests.antt =====
-- What a NACK datagram makes the server send, for the payloads that the receivers build.
use rtstream.Prelude.{
  ℕ, ◌+◌, ◌*◌, ◌/◌, ◌%◌, ◌^◌, ◌<◌, ◌≡◌, refl, ap, ◌∙◌, true, List, [], ◌∷◌, ◌++◌, none, some,
  length, length-append, get_or-append_right, append_assoc, arith, sym, Option-cases, inl, inr,
}
use rtstream.Wire.Bytes.{Bytes, be16, be32, read_be16, read_be32}
use rtstream.Stats.{Metrics, bump}
use rtstream.Nack.Window.{newest, find-newest}
use rtstream.Nack.{NackManager, find, answer, nack_loop, on_nack}

-- A request: group id and fragment number.
abbrev pub Request : Type 0
Request = ℕ × ℕ

-- The payload of a NACK: six bytes for each request, in network order.
unfoldable pub encode : List Request → Bytes
encode [] = []
encode ((gid, seq) ∷ rs) = be32 gid ++ (be16 seq ++ encode rs)

abbrev pub AreRequests : List Request → Type 0
AreRequests [] = Unit {0}
AreRequests ((gid, seq) ∷ rs) = (gid < 2 ^ 32) × (seq < 2 ^ 16) × AreRequests rs

-- What the requests ask for and the cache still has, in the order of the requests: for each request the
-- newest packet with its group and number.
unfoldable pub hits : NackManager → List Request → List Bytes
hits m [] = []
hits m ((gid, seq) ∷ rs) = elim (newest gid seq m.items) [
  | none ↦ hits m rs
  | some raw ↦ raw ∷ hits m rs
]

pub length-encode : (rs : List Request) → length (encode rs) ≡ length rs * 6
unfolding encode
length-encode [] = refl
length-encode ((gid, seq) ∷ rs) = omega (arith, length-encode rs)

read_gid :
    (pre rest : Bytes) (n gid : ℕ)
    → n ≡ length pre
    → gid < 2 ^ 32
    → read_be32 (pre ++ (be32 gid ++ rest)) n ≡ gid
read_gid pre rest n gid e h = omega (
  arith,
  get_or-append_right pre (be32 gid ++ rest) n 0 0 (omega arith),
  get_or-append_right pre (be32 gid ++ rest) (n + 1) 1 0 (omega arith),
  get_or-append_right pre (be32 gid ++ rest) (n + 2) 2 0 (omega arith),
  get_or-append_right pre (be32 gid ++ rest) (n + 2 + 1) 3 0 (omega arith),
)

read_seq :
    (pre rest : Bytes) (n gid seq : ℕ)
    → n ≡ length pre
    → seq < 2 ^ 16
    → read_be16 (pre ++ (be32 gid ++ (be16 seq ++ rest))) (n + 4) ≡ seq
read_seq pre rest n gid seq e h = omega (
  arith,
  get_or-append_right pre (be32 gid ++ (be16 seq ++ rest)) (n + 4) 4 0 (omega arith),
  get_or-append_right pre (be32 gid ++ (be16 seq ++ rest)) (n + 4 + 1) 5 0 (omega arith),
)

-- The requests one by one, read from no buffer.
answer_all : NackManager → List Request → Metrics → List Bytes × Metrics
answer_all m [] stats = ([], stats)
answer_all m ((gid, seq) ∷ rs) stats =
    let (sent, stats') = answer m gid seq stats in
    let (later, stats'') = answer_all m rs stats' in (sent ++ later, stats'')

nack_loop-encode :
    (m : NackManager) (rs : List Request) (i : ℕ) (pre junk payload : Bytes) (stats : Metrics)
    → payload ≡ pre ++ (encode rs ++ junk)
    → i * 6 ≡ length pre
    → AreRequests rs
    → nack_loop m (length rs) i payload stats ≡ answer_all m rs stats
unfolding nack_loop answer_all encode
nack_loop-encode m [] i pre junk payload stats p e r = refl
nack_loop-encode m ((gid, seq) ∷ rs) i pre junk payload stats p e (hg, hs, r) =
    let tail = encode rs ++ junk in
    let at_gid : read_be32 payload (i * 6) ≡ gid =
      ap (λ b. read_be32 b (i * 6)) p ∙ read_gid pre (be16 seq ++ tail) (i * 6) gid e hg in
    let at_seq : read_be16 payload (i * 6 + 4) ≡ seq =
      ap (λ b. read_be16 b (i * 6 + 4)) p ∙ read_seq pre tail (i * 6) gid seq e hs in
    let rest : payload ≡ (pre ++ (be32 gid ++ be16 seq)) ++ tail =
      p ∙ sym (append_assoc pre (be32 gid ++ be16 seq) tail) in
    let stats' = (answer m gid seq stats).1 in
    rw
      (
        at_gid,
        at_seq,
        nack_loop-encode m rs (i + 1) (pre ++ (be32 gid ++ be16 seq)) junk payload stats' rest
            (omega (arith, length-append pre (be32 gid ++ be16 seq))) r,
      )
      refl

answer_miss :
    (m : NackManager) (gid seq : ℕ) (stats : Metrics)
    → find m gid seq ≡ none
    → answer m gid seq stats ≡ ([], record stats { nack_received = bump stats.nack_received 1 })
unfolding answer
answer_miss m gid seq stats e = rw (e, answer) refl

answer_hit :
    (m : NackManager) (gid seq : ℕ) (stats : Metrics) (raw : Bytes)
    → m.send_set ≡ true
    → find m gid seq ≡ some raw
    → answer m gid seq stats ≡ (
      raw ∷ [],
      record stats {
        nack_received = bump stats.nack_received 1;
        retransmit_sent = bump stats.retransmit_sent 1;
      },
    )
unfolding answer
answer_hit m gid seq stats raw on e = ground arith

-- What one request or several send, and what they count.
pub record Answers (m : NackManager) (rs : List Request) (stats : Metrics)
    (out : List Bytes × Metrics) : Type 0 where
  pub sent : out.0 ≡ hits m rs
  pub requests : out.1.nack_received ≡ (stats.nack_received + length rs) % 2 ^ 64
  pub resent : out.1.retransmit_sent ≡ (stats.retransmit_sent + length (hits m rs)) % 2 ^ 64

hits_miss :
    (m : NackManager) (gid seq : ℕ) (rs : List Request)
    → find m gid seq ≡ none
    → hits m ((gid, seq) ∷ rs) ≡ hits m rs
unfolding hits
hits_miss m gid seq rs e = rw (hits, sym (find-newest m gid seq) ∙ e) refl

hits_hit :
    (m : NackManager) (gid seq : ℕ) (rs : List Request) (raw : Bytes)
    → find m gid seq ≡ some raw
    → hits m ((gid, seq) ∷ rs) ≡ raw ∷ hits m rs
unfolding hits
hits_hit m gid seq rs raw e = rw (hits, sym (find-newest m gid seq) ∙ e) refl

answer_all-Answers :
    (m : NackManager) (rs : List Request) (stats : Metrics)
    → m.send_set ≡ true
    → stats.nack_received < 2 ^ 64
    → stats.retransmit_sent < 2 ^ 64
    → Answers m rs stats (answer_all m rs stats)
unfolding answer_all
answer_all-Answers m [] stats on a b =
    unfold hits in record { sent = refl; requests = omega arith; resent = omega arith }
answer_all-Answers m ((gid, seq) ∷ rs) stats on a b = elim (Option-cases (find m gid seq)) [
  | inl miss ↦
      let rest =
        answer_all-Answers m rs (record stats { nack_received = bump stats.nack_received 1 }) on
          (omega arith) b in
      let shorter = hits_miss m gid seq rs miss in
      rw (answer_miss m gid seq stats miss) (record {
        sent = rest.sent ∙ sym shorter;
        requests = omega (arith, rest.requests);
        resent = omega (arith, rest.resent, ap length shorter);
      })
  | inr (raw, hit) ↦
      let rest =
        answer_all-Answers m rs
          (record stats {
            nack_received = bump stats.nack_received 1;
            retransmit_sent = bump stats.retransmit_sent 1;
          })
          on (omega arith) (omega arith) in
      let longer = hits_hit m gid seq rs raw hit in
      rw (answer_hit m gid seq stats raw on hit) (record {
        sent = ap (λ xs. raw ∷ xs) rest.sent ∙ sym longer;
        requests = omega (arith, rest.requests);
        resent = omega (arith, rest.resent, ap length longer);
      })
]

-- A NACK payload that lists requests, with up to five bytes behind them, sends again exactly the
-- packets that the cache still has, in the order of the requests, and counts each request
-- as received and each packet as sent, modulo 2^64.
pub on_nack-Answers :
    (m : NackManager) (rs : List Request) (junk : Bytes) (stats : Metrics)
    → m.send_set ≡ true
    → AreRequests rs
    → length junk < 6
    → stats.nack_received < 2 ^ 64
    → stats.retransmit_sent < 2 ^ 64
    → Answers m rs stats (on_nack m (encode rs ++ junk) stats)
unfolding on_nack
on_nack-Answers m rs junk stats on r j a b =
    let count : length (encode rs ++ junk) / 6 ≡ length rs =
      omega (arith, length-append (encode rs) junk, length-encode rs) in
    rw (count, nack_loop-encode m rs 0 [] junk (encode rs ++ junk) stats refl (omega arith) r)
      (answer_all-Answers m rs stats on a b)
