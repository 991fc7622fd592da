-- ===== src/UdpReceiver/Gather.antt =====
-- The fragments of a frame that come in order fill the group one by one.
use rtstream.Prelude.{
  ℕ, suc, ◌+◌, ◌-◌, ◌^◌, ◌<◌, ◌≡◌, refl, ap, ap₂, ◌∙◌, Bool, true, false, not, List, [], ◌∷◌, ◌++◌,
  Option, none, some, length, append-nil, set_middle, get_or, get_or-append_right, replicate,
  is_empty, ltb, ◌==◌, ==_iff, Bool-cases, inl, inr, if◌then◌else◌, arith,
}
use rtstream.Prelude.Int.{ℤ, pos, ◌-ℤ◌, ltb_ℤ}
use rtstream.Prelude.Maps.{
  Map, lookup, insert, erase, lookup-insert, erase-insert, erase-none, insert-insert,
}
use rtstream.Wire.Bytes.{Bytes}
use rtstream.Wire.Udp.{UdpHeader, fec_seq, keyframe}
use rtstream.Stats.{Metrics}
use rtstream.Jitter.Double.{Double}
use rtstream.Jitter.State.{JitterBuffer}
use rtstream.Jitter.Push
use rtstream.UdpServer.{fragments}
use rtstream.UdpReceiver.{
  UdpAssembled, Group, new_group, UdpReceiver, Received, Times, complete, begin_group, put_fragment,
  wait_more, try_finalize, on_media,
}
use rtstream.UdpReceiver.Rebuild.{assembled, try_finalize-fragments}
use rtstream.UdpReceiver.Clock.{extend_capture_us}

-- What the packets of a frame have in common, and when its first one came.
pub record Shared : Type 0 where
  pub gid : ℕ
  pub cnt : ℕ
  pub cap : ℤ
  pub key : Bool
  pub seen : ℤ

abbrev pub group : Shared → ℤ → List Bytes → Group
group s nack frags = record {
  fragment_cnt = s.cnt;
  frame_id = s.gid;
  capture_us = s.cap;
  keyframe = s.key;
  first_recv_us = s.seen;
  last_nack_us = nack;
  fec_seen = false;
  frags = frags;
  parity = [];
}

-- The slots when `done` has come and `left` fragments have not.
abbrev pub slots : List Bytes → ℕ → List Bytes
slots done left = done ++ replicate left []

complete-slots : (done : List Bytes) (n : ℕ) → complete (slots done (suc n)) ≡ false
unfolding complete
complete-slots [] n = refl
complete-slots (d ∷ done) n = ground (arith, complete-slots done n)

is_empty-slots : (done : List Bytes) (n : ℕ) → is_empty (slots done (suc n)) ≡ false
is_empty-slots [] n = refl
is_empty-slots (d ∷ done) n = refl

-- A header of fragment `i`.
pub record IsMedia (s : Shared) (i : ℕ) (h : UdpHeader) : Type 0 where
  pub group_id : h.group_id ≡ s.gid
  pub number : h.fragment_seq ≡ i
  pub count : h.fragment_cnt ≡ s.cnt + 1
  pub key : keyframe h ≡ s.key

begin_group-new :
    (s : Shared) (i : ℕ) (h : UdpHeader)
    → IsMedia s i h
    → begin_group new_group h s.cap s.seen ≡ group s (pos 0) (slots [] s.cnt)
unfolding begin_group
begin_group-new s i h m = λ j. record {
  fragment_cnt = cnt j;
  frame_id = m.group_id j;
  capture_us = s.cap;
  keyframe = m.key j;
  first_recv_us = s.seen;
  last_nack_us = pos 0;
  fec_seen = false;
  frags = replicate (cnt j) [];
  parity = [];
}
  where
    cnt : h.fragment_cnt - (if ltb 0 h.fragment_cnt then 1 else 0) ≡ s.cnt
    cnt = ground (arith, m.count)

begin_group-slots :
    (s : Shared) (h : UdpHeader) (nack cap now : ℤ) (done : List Bytes) (n : ℕ)
    → begin_group (group s nack (slots done (suc n))) h cap now ≡ group s nack (slots done (suc n))
unfolding begin_group
begin_group-slots s h nack cap now done n = rw (begin_group, is_empty-slots done n) refl

put_fragment-slots :
    (s : Shared) (i : ℕ) (h : UdpHeader) (nack : ℤ) (done : List Bytes) (d : Bytes) (n : ℕ)
    → IsMedia s i h
    → i ≡ length done
    → i < s.cnt
    → s.cnt < 2 ^ 16 - 1
    → put_fragment (group s nack (slots done (suc n))) h d
      ≡ some (group s nack (slots (done ++ d ∷ []) n))
unfolding put_fragment
put_fragment-slots s i h nack done d n m e lt small =
    rw
      (
        put_fragment,
        not_fec,
        within,
        free,
        set_middle done [] d (replicate n []) h.fragment_seq (m.number ∙ e),
      )
      refl
  where
    not_fec : (h.fragment_seq == fec_seq) ≡ false
    not_fec = ground (arith, m.number)

    within : ltb h.fragment_seq s.cnt ≡ true
    within = ground (arith, m.number)

    free : is_empty (get_or (slots done (suc n)) h.fragment_seq []) ≡ true
    free = ap is_empty (
        get_or-append_right done (replicate (suc n) []) h.fragment_seq 0 []
          (omega (arith, m.number)))

wait_more-keeps :
    {D : Double} (r : UdpReceiver D) (g : Group) (now : ℤ) (stats : Metrics)
    → ltb_ℤ (pos 250000) (now -ℤ g.first_recv_us) ≡ false
    → (nack : ℤ) × ((wait_more r g now stats).after
        ≡ record r { groups = insert g.frame_id (record g { last_nack_us = nack }) r.groups })
unfolding wait_more
wait_more-keeps r g now stats h =
    elim (Bool-cases (not (ltb_ℤ (now -ℤ g.last_nack_us) (pos 10000)))) [
      | inl ask ↦ (now, rw (ask, h) refl)
      | inr quiet ↦ (g.last_nack_us, rw (quiet, h) refl)
    ]

-- The receiver has the fragments `done` of a frame, and `suc left` are to come; all else is as when the
-- frame began.
pub record Gathers {D : Double} (s : Shared) (m : Map Group) (jb : JitterBuffer D UdpAssembled)
    (done : List Bytes) (left : ℕ) (r : UdpReceiver D) : Type 0 where
  pub nack : ℤ
  pub groups : r.groups ≡ insert s.gid (group s nack (slots done (suc left))) m
  pub same_jb : r.jb ≡ jb
  pub capture : r.last_capture_us ≡ s.cap

-- The same before the next packet, whether it is the first of the frame or not.
pub record Expects {D : Double} (s : Shared) (m : Map Group) (jb : JitterBuffer D UdpAssembled)
    (done : List Bytes) (left : ℕ) (r : UdpReceiver D) (h : UdpHeader) (t : Times) : Type 0 where
  pub nack : ℤ
  pub opens :
      begin_group
        (elim (lookup h.group_id r.groups) [ none ↦ new_group | some g ↦ g ])
        h
        s.cap
        t.at_first
      ≡ group s nack (slots done (suc left))
  pub inserts : (g : Group) → insert s.gid g r.groups ≡ insert s.gid g m
  pub erases : erase s.gid r.groups ≡ m
  pub same_jb : r.jb ≡ jb
  pub capture : extend_capture_us r.last_capture_us h.capture_us_lo t.at_capture ≡ s.cap

module _ {D : Double} (s : Shared) (m : Map Group) (jb : JitterBuffer D UdpAssembled)
    (new : lookup s.gid m ≡ none) (small : s.cnt < 2 ^ 16 - 1) where
  pub Gathers-Expects :
      (done : List Bytes) (left : ℕ) (r : UdpReceiver D) (i : ℕ) (h : UdpHeader) (t : Times)
      → Gathers s m jb done left r
      → IsMedia s i h
      → extend_capture_us s.cap h.capture_us_lo t.at_capture ≡ s.cap
      → Expects s m jb done left r h t
  Gathers-Expects done left r i h t g media again = record {
    nack = g.nack;
    opens =
        ap
          (λ k.
            begin_group (elim (lookup k r.groups) [ none ↦ new_group | some g ↦ g ]) h s.cap
              t.at_first)
          media.group_id
        ∙ ap
            (λ gs.
              begin_group (elim (lookup s.gid gs) [ none ↦ new_group | some g ↦ g ]) h s.cap
                t.at_first)
            g.groups
        ∙ ap (λ o. begin_group (elim o [ none ↦ new_group | some g ↦ g ]) h s.cap t.at_first)
            (lookup-insert s.gid s.gid (group s g.nack (slots done (suc left))) m
              ∙ ap
                  (λ b. if b then some (group s g.nack (slots done (suc left))) else lookup s.gid m)
                  ((==_iff s.gid s.gid).1 refl))
        ∙ begin_group-slots s h g.nack s.cap t.at_first done left;
    inserts = λ g'. ap (insert s.gid g') g.groups ∙ insert-insert s.gid _ g' m new;
    erases = ap (erase s.gid) g.groups ∙ erase-insert s.gid _ m new;
    same_jb = g.same_jb;
    capture = ap (λ last. extend_capture_us last h.capture_us_lo t.at_capture) g.capture ∙ again;
  }

  -- The first packet.
  pub new-Expects :
      (left : ℕ) (r : UdpReceiver D) (i : ℕ) (h : UdpHeader) (t : Times)
      → s.cnt ≡ suc left
      → r.groups ≡ m
      → r.jb ≡ jb
      → IsMedia s i h
      → t.at_first ≡ s.seen
      → extend_capture_us r.last_capture_us h.capture_us_lo t.at_capture ≡ s.cap
      → Expects s m jb [] left r h t
  new-Expects left r i h t e groups same media seen capture = record {
    nack = pos 0;
    opens =
        ap₂
          (λ k gs.
            begin_group (elim (lookup k gs) [ none ↦ new_group | some g ↦ g ]) h s.cap t.at_first)
          media.group_id groups
        ∙ ap₂ (λ o now. begin_group (elim o [ none ↦ new_group | some g ↦ g ]) h s.cap now) new seen
        ∙ begin_group-new s i h media
        ∙ ap (λ n. group s (pos 0) (slots [] n)) e;
    inserts = λ g. ap (insert s.gid g) groups;
    erases = ap (erase s.gid) groups ∙ erase-none s.gid m new;
    same_jb = same;
    capture = capture;
  }

  on_media-puts :
      (done : List Bytes) (d : Bytes) (left : ℕ) (r : UdpReceiver D) (i : ℕ) (h : UdpHeader)
      (t : Times) (stats : Metrics) (x : Expects s m jb done left r h t)
      → IsMedia s i h
      → i ≡ length done
      → i < s.cnt
      → on_media r h d t stats
        ≡ try_finalize
            (record r { last_capture_us = s.cap })
            (group s x.nack (slots (done ++ d ∷ []) left))
            t
            stats
  unfolding on_media
  on_media-puts done d left r i h t stats x media e lt =
      let found : Group = elim (lookup h.group_id r.groups) [ none ↦ new_group | some g ↦ g ] in
      let go : ℤ → Group → Option Group → Received D = λ c g o. elim o [
        | none ↦ record {
          after = record r { last_capture_us = c; groups = insert h.group_id g r.groups };
          out = [];
          stats = stats;
        }
        | some g' ↦ try_finalize (record r { last_capture_us = c }) g' t stats
      ] in
      ap
        (λ c.
          go c (begin_group found h c t.at_first)
            (put_fragment (begin_group found h c t.at_first) h d))
        x.capture
      ∙ ap (λ g. go s.cap g (put_fragment g h d)) x.opens
      ∙ ap (go s.cap (group s x.nack (slots done (suc left))))
          (put_fragment-slots s i h x.nack done d left media e lt small)

  try_finalize-waits :
      (r : UdpReceiver D) (nack : ℤ) (done : List Bytes) (n : ℕ) (t : Times) (stats : Metrics)
      → ltb_ℤ (pos 250000) (t.at_check -ℤ s.seen) ≡ false
      → (nack' : ℤ) × ((try_finalize r (group s nack (slots done (suc n))) t stats).after
          ≡ record r { groups = insert s.gid (group s nack' (slots done (suc n))) r.groups })
  unfolding try_finalize
  try_finalize-waits r nack done n t stats h =
      rw (try_finalize, complete-slots done n)
        (wait_more-keeps r (group s nack (slots done (suc n))) t.at_check stats h)

  -- A fragment that is not the last to come.
  pub on_media-Gathers :
      (done : List Bytes) (d : Bytes) (left : ℕ) (r : UdpReceiver D) (i : ℕ) (h : UdpHeader)
      (t : Times) (stats : Metrics)
      → Expects s m jb done (suc left) r h t
      → IsMedia s i h
      → i ≡ length done
      → i < s.cnt
      → ltb_ℤ (pos 250000) (t.at_check -ℤ s.seen) ≡ false
      → Gathers s m jb (done ++ d ∷ []) left (on_media r h d t stats).after
  on_media-Gathers done d left r i h t stats x media e lt soon =
      let r' : UdpReceiver D = record r { last_capture_us = s.cap } in
      let w = try_finalize-waits r' x.nack (done ++ d ∷ []) left t stats soon in
      let same =
        ap (λ o. o.after) (on_media-puts done d (suc left) r i h t stats x media e lt) ∙ w.1 in
      record {
        nack = w.0;
        groups =
            ap (λ a. a.groups) same ∙ x.inserts (group s w.0 (slots (done ++ d ∷ []) (suc left)));
        same_jb = ap (λ a. a.jb) same ∙ x.same_jb;
        capture = ap (λ a. a.last_capture_us) same;
      }

  -- The last fragment of a frame.
  pub on_media-finishes :
      (done : List Bytes) (d : Bytes) (r : UdpReceiver D) (i : ℕ) (h : UdpHeader) (t : Times)
      (stats : Metrics) (size : ℕ) (frame : Bytes)
      → Expects s m jb done 0 r h t
      → IsMedia s i h
      → i ≡ length done
      → i < s.cnt
      → 0 < size
      → 0 < length frame
      → done ++ d ∷ [] ≡ fragments size frame
      → (on_media r h d t stats).after ≡ record {
        groups = m;
        jb =
            (Push.push jb s.gid s.cap
              (assembled (group s (pos 0) []) frame)
              t.at_push
              stats).1.after;
        last_capture_us = s.cap;
      }
  on_media-finishes done d r i h t stats size frame x media e lt p q all =
      let g = group s x.nack (slots (done ++ d ∷ []) 0) in
      let r' : UdpReceiver D = record r { last_capture_us = s.cap } in
      let f =
        try_finalize-fragments r' g t stats size frame p q (append-nil (done ++ d ∷ []) ∙ all) in
      let same = ap (λ o. o.after) (on_media-puts done d 0 r i h t stats x media e lt) in
      λ j. record {
        groups = (ap (λ a. a.groups) same ∙ f.1 ∙ x.erases) j;
        jb =
            (ap (λ a. a.jb) same
                ∙ f.0
                ∙ ap (λ b. (Push.push b s.gid s.cap (assembled g frame) t.at_push stats).1.after)
                    x.same_jb)
              j;
        last_capture_us = (ap (λ a. a.last_capture_us) same ∙ f.2) j;
      }
