-- ===== src/Nack/Tests.antt =====
-- Runs of the retransmission cache, and its theorems at small caches.
use rtstream.Prelude.{◌≡◌, refl, true, last_n, List, [], ◌∷◌, ◌++◌, arith}
use rtstream.Stats.{no_metrics}
use rtstream.Nack.{RetransPacket, NackManager, remember, on_nack}
use rtstream.Nack.Window.{remember-last_n}
use rtstream.Nack.Requests.{Request, encode, AreRequests, Answers, on_nack-Answers}

abbrev first : RetransPacket
first = record { group_id = 1; fragment_seq = 0; raw = 10 ∷ [] }

abbrev second : RetransPacket
second = record { group_id = 1; fragment_seq = 1; raw = 11 ∷ [] }

abbrev third : RetransPacket
third = record { group_id = 2; fragment_seq = 0; raw = 12 ∷ [] }

-- Room for two packets, and both are taken.
abbrev two : NackManager
two = record { items = first ∷ second ∷ []; cache = 2; send_set = true }

remember-third : (remember two third).items ≡ second ∷ third ∷ []
unfolding remember
remember-third = refl

abbrev asked : List Request
asked = (1, 1) ∷ (9, 9) ∷ (1, 0) ∷ []

answer_asked : (on_nack two (encode asked) no_metrics).0 ≡ (11 ∷ []) ∷ (10 ∷ []) ∷ []
unfolding on_nack encode
answer_asked = refl

remember-last_n_example :
    (remember two third).items ≡ last_n 2 ((first ∷ second ∷ []) ++ third ∷ [])
remember-last_n_example = remember-last_n two (first ∷ second ∷ []) third (omega arith) refl

asked-AreRequests : AreRequests asked
asked-AreRequests = omega arith

on_nack-Answers_example :
    Answers two asked no_metrics (on_nack two (encode asked ++ 7 ∷ []) no_metrics)
on_nack-Answers_example =
    on_nack-Answers two asked (7 ∷ []) no_metrics refl asked-AreRequests (omega arith) (omega arith)
      (omega arith)
