-- ===== src/UdpReceiver/Rebuild.antt =====
-- A frame that the server cut into fragments comes back from the receiver's group.
use rtstream.Prelude.{
  ℕ, zero, suc, ◌-◌, ◌≤◌, ◌<◌, ◌≡◌, refl, ap, ◌∙◌, sym, max, true, false, List, [], ◌∷◌, ◌++◌, some,
  length, take, set, get_or, length-set, append-nil, arith,
}
use rtstream.Prelude.Maps.{erase}
use rtstream.Wire.Bytes.{Bytes}
use rtstream.Stats.{Metrics, bump}
use rtstream.Fec.{fec_generate, fec_recover, max_len}
use rtstream.Fec.Recover.{IsFull, pad, not-is_empty, length-fec_generate, fec_recover-fec_generate}
use rtstream.Jitter.Double.{Double}
use rtstream.Jitter.Push
use rtstream.UdpServer.{fragments}
use rtstream.UdpServer.Fragments.{AllFit, glue, fragments-Whole}
use rtstream.UdpReceiver.{
  Group, UdpAssembled, UdpReceiver, Received, Times, complete, join, longest, recover, finish,
  try_finalize,
}

join-glue : (ds : List Bytes) → join ds ≡ glue ds
unfolding join glue
join-glue [] = refl
join-glue (d ∷ ds) = ap (λ rest. d ++ rest) (join-glue ds)

AllFit-IsFull : (size : ℕ) (ds : List Bytes) → AllFit size ds → IsFull ds
AllFit-IsFull size [] f = tt
AllFit-IsFull size (d ∷ ds) f = (f.0, AllFit-IsFull size ds f.2)

complete-IsFull : (ds : List Bytes) → IsFull ds → complete ds ≡ true
unfolding complete
complete-IsFull [] f = refl
complete-IsFull (d ∷ ds) f = rw (not-is_empty d f.0) (complete-IsFull ds f.1)

complete-set : (ds : List Bytes) (k : ℕ) → k < length ds → complete (set ds k []) ≡ false
unfolding complete
complete-set [] k h = absurd (omega arith)
complete-set (d ∷ ds) zero h = refl
complete-set (d ∷ ds) (suc k) h = rw (complete-set ds k (omega arith)) (ground arith)

longest-le : (a b : ℕ) (ds : List Bytes) → a ≤ b → longest a ds ≤ max_len b ds
unfolding longest max_len
longest-le a b [] h = h
longest-le a b (d ∷ ds) h = longest-le (max a (length d)) (max b (length d)) ds (omega arith)

longest-set : (a : ℕ) (ds : List Bytes) (k : ℕ) → longest a (set ds k []) ≤ max_len a ds
unfolding longest max_len
longest-set a [] k = omega arith
longest-set a (d ∷ ds) zero = longest-le (max a 0) (max a (length d)) ds (omega arith)
longest-set a (d ∷ ds) (suc k) = longest-set (max a (length d)) ds k

take-append : (n : ℕ) (xs ys : List Bytes) → n ≡ length xs → take n (xs ++ ys) ≡ xs
take-append zero [] ys e = refl
take-append zero (x ∷ xs) ys e = absurd (omega arith)
take-append (suc n) [] ys e = absurd (omega arith)
take-append (suc n) (x ∷ xs) ys e = ap (λ rest. x ∷ rest) (take-append n xs ys (omega arith))

set-get_or : (ds : List Bytes) (k : ℕ) → set ds k (get_or ds k []) ≡ ds
set-get_or [] k = refl
set-get_or (d ∷ ds) zero = refl
set-get_or (d ∷ ds) (suc k) = ap (λ rest. d ∷ rest) (set-get_or ds k)

recover-some :
    (g : Group) (known : List Bytes)
    → fec_recover (g.frags ++ g.parity ∷ []) (max (longest 0 g.frags) (length g.parity))
      ≡ some known
    → recover g ≡ some (take g.fragment_cnt known)
unfolding recover
recover-some g known h = rw (recover, h) refl

-- The code's length is that of the recovery packet.
slots-full :
    (ds frags : List Bytes) (parity : Bytes) (k : ℕ)
    → k < length ds
    → IsFull ds
    → length (get_or ds k []) ≡ max_len 0 ds
    → frags ≡ set ds k []
    → parity ≡ fec_generate ds
    → fec_recover (frags ++ parity ∷ []) (max (longest 0 frags) (length parity))
      ≡ some (set ds k (get_or ds k []) ++ fec_generate ds ∷ [])
unfolding pad
slots-full ds frags parity k h f len e e' =
    let expect : max (longest 0 (set ds k [])) (length (fec_generate ds))
        ≡ length (fec_generate ds) =
      omega (arith, longest-set 0 ds k, length-fec_generate ds) in
    let none_left : length (fec_generate ds) - length (get_or ds k []) ≡ 0 =
      omega (arith, length-fec_generate ds) in
    rw (e, e', expect, (fec_recover-fec_generate ds k h f).0, none_left)
      (ap (λ d. some (set ds k d ++ fec_generate ds ∷ [])) (append-nil (get_or ds k [])))

-- A lost packet as long as the longest comes back without padding.
recover-full :
    (g : Group) (ds : List Bytes) (k : ℕ)
    → k < length ds
    → IsFull ds
    → length (get_or ds k []) ≡ max_len 0 ds
    → g.frags ≡ set ds k []
    → g.parity ≡ fec_generate ds
    → g.fragment_cnt ≡ length ds
    → recover g ≡ some ds
recover-full g ds k h f len frags parity cnt =
    recover-some g _ (slots-full ds g.frags g.parity k h f len frags parity)
    ∙ ap some (
        take-append g.fragment_cnt (set ds k (get_or ds k [])) (fec_generate ds ∷ [])
          (cnt ∙ sym (length-set ds k (get_or ds k [])))
        ∙ set-get_or ds k)

-- The frame that a group makes.
abbrev pub assembled : Group → Bytes → UdpAssembled
assembled g bytes = record {
  frame_id = g.frame_id;
  capture_us = g.capture_us;
  keyframe = g.keyframe;
  annexb = bytes;
}

-- The group is gone, and its frame with these bytes went to the jitter buffer.
abbrev pub Finishes :
    {D : Double} → UdpReceiver D → Group → Bytes → Times → Metrics → Received D → Type 0
Finishes r g bytes t stats result =
    (result.after.jb
      ≡ (Push.push r.jb g.frame_id g.capture_us (assembled g bytes) t.at_push stats).1.after)
    × (result.after.groups ≡ erase g.frame_id r.groups)
    × (result.after.last_capture_us ≡ r.last_capture_us)
    × (result.out ≡ [])

module _ {D : Double} where
  -- When a group has all fragments of a frame that is not empty, exactly the frame's bytes go to
  -- the jitter buffer, the group is removed, and nothing is asked for. The payload size is not 0.
  pub try_finalize-fragments :
      (r : UdpReceiver D) (g : Group) (t : Times) (stats : Metrics) (size : ℕ) (frame : Bytes)
      → 0 < size
      → 0 < length frame
      → g.frags ≡ fragments size frame
      → Finishes r g frame t stats (try_finalize r g t stats)
  unfolding try_finalize finish
  try_finalize-fragments r g t stats size frame p q e =
      let whole = fragments-Whole size frame p in
      let full = complete-IsFull _ (AllFit-IsFull size _ (whole.2 q)) in
      rw (e, full, join-glue (fragments size frame), whole.0) (refl, refl, refl, refl)

  -- When exactly one fragment of a frame that is not empty is missing, the recovery packet is
  -- there, and the missing fragment is as long as the longest (as all but the last are), exactly
  -- the frame's bytes go to the jitter buffer, with the count of recovered frames one higher.
  pub try_finalize-lost :
      (r : UdpReceiver D) (g : Group) (t : Times) (stats : Metrics) (size : ℕ) (frame : Bytes)
      (k : ℕ)
      → 0 < size
      → 0 < length frame
      → k < length (fragments size frame)
      → length (get_or (fragments size frame) k []) ≡ max_len 0 (fragments size frame)
      → g.frags ≡ set (fragments size frame) k []
      → g.fec_seen ≡ true
      → g.parity ≡ fec_generate (fragments size frame)
      → g.fragment_cnt ≡ length (fragments size frame)
      → Finishes r g frame t
          (record stats { fec_recovered = bump stats.fec_recovered 1 })
          (try_finalize r g t stats)
  unfolding try_finalize finish
  try_finalize-lost r g t stats size frame k p q h len frags seen parity cnt =
      let whole = fragments-Whole size frame p in
      let full = AllFit-IsFull size _ (whole.2 q) in
      let back = recover-full g (fragments size frame) k h full len frags parity cnt in
      let gap : complete g.frags ≡ false =
        ap complete frags ∙ complete-set (fragments size frame) k h in
      rw (gap, seen, back, join-glue (fragments size frame), whole.0) (refl, refl, refl, refl)
