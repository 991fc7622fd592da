-- ===== src/Fec/Tests.antt =====
-- Runs of the recovery code, and its theorems at small groups.
use rtstream.Prelude.{◌≡◌, refl, List, [], ◌∷◌, ◌++◌, some, length, set, arith}
use rtstream.Wire.Bytes.{Bytes}
use rtstream.Fec.{max_len, fec_generate, fec_recover}
use rtstream.Fec.Recover.{pad, IsFull, fec_recover-fec_generate}

abbrev group : List Bytes
group = (1 ∷ 2 ∷ 3 ∷ []) ∷ (4 ∷ 5 ∷ []) ∷ (0xff ∷ 0 ∷ 9 ∷ []) ∷ []

generate_group : fec_generate group ≡ 0xfa ∷ 7 ∷ 10 ∷ []
unfolding fec_generate
generate_group = refl

-- The short packet comes back with a zero behind it.
recover_second :
    fec_recover ((1 ∷ 2 ∷ 3 ∷ []) ∷ [] ∷ (0xff ∷ 0 ∷ 9 ∷ []) ∷ (0xfa ∷ 7 ∷ 10 ∷ []) ∷ []) 3
    ≡ some ((1 ∷ 2 ∷ 3 ∷ []) ∷ (4 ∷ 5 ∷ 0 ∷ []) ∷ (0xff ∷ 0 ∷ 9 ∷ []) ∷ (0xfa ∷ 7 ∷ 10 ∷ []) ∷ [])
unfolding fec_recover
recover_second = refl

group-IsFull : IsFull group
group-IsFull = omega arith

fec_recover-fec_generate_example :
    (fec_recover (set group 1 [] ++ fec_generate group ∷ []) (length (fec_generate group))
      ≡ some
          (set group 1 (pad (length (fec_generate group)) (4 ∷ 5 ∷ [])) ++ fec_generate group ∷ []))
    × (length (fec_generate group) ≡ max_len 0 group)
fec_recover-fec_generate_example = fec_recover-fec_generate group 1 (omega arith) group-IsFull
