-- ===== src/UdpReceiver/Whole.antt =====
-- A run of `recv_loop` over the datagrams with the fragments of a frame, in order.
use rtstream.Prelude.{
  ℕ, suc, ◌+◌, ◌-◌, ◌^◌, ◌<◌, ◌≡◌, ◌≢◌, refl, ap, ap₂, ◌∙◌, sym, false, List, [], ◌∷◌, ◌++◌, none,
  map, length, length-append, append_assoc, arith,
}
use rtstream.Prelude.Int.{ℤ, pos, ◌-ℤ◌, ltb_ℤ, int_laws}
use rtstream.Prelude.Maps.{lookup}
use rtstream.Wire.Bytes.{Bytes, u32_of_int}
use rtstream.Wire.Media.{EncodedFrame}
use rtstream.Stats.{Metrics}
use rtstream.Jitter.Double.{Double}
use rtstream.Jitter.Push
use rtstream.UdpServer.{header_of, fragments, fragment_count}
use rtstream.UdpServer.Delivery.{data_entries}
use rtstream.UdpServer.Fragments.{glue, fragments-Whole}
use rtstream.UdpReceiver.{UdpReceiver, Times, on_media}
use rtstream.UdpReceiver.Clock.{extend_capture_us, IsNear, extend_capture_us-u32_of_int}
use rtstream.UdpReceiver.Rebuild.{assembled}
use rtstream.UdpReceiver.Receive.{Link}
use rtstream.UdpReceiver.Run.{
  run, datagrams, datagrams-data_entries, shared, header_of-IsMedia, lo-header_of, run-datagrams,
}
use rtstream.UdpReceiver.Gather.{
  group, Expects, Gathers-Expects, new-Expects, on_media-Gathers, on_media-finishes,
}

-- The receiver when the frame with these bytes has gone to the jitter buffer.
abbrev pub Takes : {D : Double} → Link D → EncodedFrame → ℤ → Link D → Type 0
Takes r f now r' =
    (stats : Metrics) × (r' ≡ record r {
      core = record r.core {
        jb =
            (Push.push r.core.jb (u32_of_int f.frame_id) f.capture_us
              (record {
                frame_id = u32_of_int f.frame_id;
                capture_us = f.capture_us;
                keyframe = f.keyframe;
                annexb = f.data_bytes;
              })
              now stats).1.after;
        last_capture_us = f.capture_us;
      };
    })

module _ {D : Double} (host_int : Bytes → ℤ) (clock : ℕ → Times) (f : EncodedFrame) (size : ℕ)
    (seen : ℤ) (start : Link D) (new : lookup (u32_of_int f.frame_id) start.core.groups ≡ none)
    (p : 0 < size) (q : 0 < length f.data_bytes)
    (small : fragment_count size f.data_bytes < 2 ^ 16 - 1)
    (soon : (n : ℕ) → ltb_ℤ (pos 250000) ((clock n).at_check -ℤ seen) ≡ false)
    (again : (now : ℤ)
      → extend_capture_us f.capture_us (u32_of_int f.capture_us) now ≡ f.capture_us) where
  whole : length (fragments size f.data_bytes) ≡ fragment_count size f.data_bytes
  whole = (fragments-Whole size f.data_bytes p).1

  loop :
      (done : List Bytes) (d : Bytes) (ds : List Bytes) (r : Link D) (i : ℕ) (stats : Metrics)
      → i ≡ length done
      → done ++ d ∷ ds ≡ fragments size f.data_bytes
      → ◌≡◌ {A = Link D} (record r { core = start.core }) start
      → Expects
          (shared f (fragment_count size f.data_bytes) seen)
          start.core.groups
          start.core.jb
          done
          (length ds)
          r.core
          (header_of f (fragment_count size f.data_bytes) i (length d) false)
          (clock (length ds))
      → Takes start f
          (clock 0).at_push
          (run host_int clock
            (datagrams f (fragment_count size f.data_bytes) i (d ∷ ds))
            r
            stats).after
  unfolding run datagrams
  loop done d [] r i stats e all same x =
      let s = shared f (fragment_count size f.data_bytes) seen in
      let lt : i < fragment_count size f.data_bytes =
        omega (arith, whole, ap length all, length-append done (d ∷ [])) in
      let (stats1, stats2, goes) =
        run-datagrams host_int clock f (fragment_count size f.data_bytes) i d [] r stats
          (omega arith) in
      (
        stats1,
        goes
            ∙ ap {A = UdpReceiver D} {B = Link D} (λ c. record r { core = c })
                (on_media-finishes s start.core.groups start.core.jb new small done d r.core i _
                  (clock 0) stats1 size f.data_bytes x
                  (header_of-IsMedia f (fragment_count size f.data_bytes) i seen d (omega arith)
                    small)
                  e lt p q all)
            ∙ ap {A = Link D} {B = Link D}
                (λ l. record l {
                  core = record start.core {
                    jb =
                        (Push.push start.core.jb s.gid s.cap
                          (assembled (group s (pos 0) []) f.data_bytes) (clock 0).at_push
                          stats1).1.after;
                    last_capture_us = f.capture_us;
                  };
                })
                same,
      )
  loop done d (d' ∷ ds) r i stats e all same x =
      let cnt = fragment_count size f.data_bytes in
      let s = shared f cnt seen in
      let total = length-append done (d ∷ d' ∷ ds) in
      let lt : i + 1 < cnt = omega (arith, whole, ap length all, total) in
      let h = header_of f cnt i (length d) false in
      let h' = header_of f cnt (i + 1) (length d') false in
      let (stats1, stats2, goes) =
        run-datagrams host_int clock f cnt i d (d' ∷ ds) r stats (omega arith) in
      let g =
        on_media-Gathers s start.core.groups start.core.jb new small done d (length ds) r.core i h
          (clock (length (d' ∷ ds))) stats1 x (header_of-IsMedia f cnt i seen d (omega arith) small)
          e (omega arith) (soon (length (d' ∷ ds))) in
      let x' =
        Gathers-Expects s start.core.groups start.core.jb new small (done ++ d ∷ []) (length ds) _
          (i + 1) h' (clock (length ds)) g
          (header_of-IsMedia f cnt (i + 1) seen d' (omega arith) small)
          (ap (λ lo. extend_capture_us f.capture_us lo (clock (length ds)).at_capture)
              (lo-header_of f cnt (i + 1) (length d'))
            ∙ again (clock (length ds)).at_capture) in
      let (stats3, ends) =
        loop (done ++ d ∷ []) d' ds
          (record r { core = (on_media r.core h d (clock (length (d' ∷ ds))) stats1).after })
          (i + 1) stats2 (omega (arith, length-append done (d ∷ [])))
          (append_assoc done (d ∷ []) (d' ∷ ds) ∙ all) same x' in
      (stats3, goes ∙ ends)

  first :
      (ds : List Bytes) (stats : Metrics)
      → ds ≡ fragments size f.data_bytes
      → (clock (length ds - 1)).at_first ≡ seen
      → extend_capture_us start.core.last_capture_us
          (u32_of_int f.capture_us)
          (clock (length ds - 1)).at_capture
        ≡ f.capture_us
      → Takes start f
          (clock 0).at_push
          (run host_int clock
            (datagrams f (fragment_count size f.data_bytes) 0 ds)
            start
            stats).after
  unfolding glue
  first [] stats e at_first capture =
      absurd (omega (arith, ap length (ap glue e ∙ (fragments-Whole size f.data_bytes p).0)))
  first (d ∷ ds) stats e at_first capture =
      let cnt = fragment_count size f.data_bytes in
      let h = header_of f cnt 0 (length d) false in
      let t = clock (length ds) in
      let one_less : suc (length ds) - 1 ≡ length ds = omega arith in
      let same_clock = ap clock one_less in
      loop [] d ds start 0 stats refl e refl (
        new-Expects (shared f cnt seen) start.core.groups start.core.jb new small (length ds)
          start.core 0 h t (sym whole ∙ sym (ap length e)) refl refl
          (header_of-IsMedia f cnt 0 seen d (omega arith) small)
          (ap (λ u. u.at_first) (sym same_clock) ∙ at_first)
          (ap₂ (λ lo u. extend_capture_us start.core.last_capture_us lo u.at_capture)
              (lo-header_of f cnt 0 (length d)) (sym same_clock)
            ∙ capture))

IsNear-self : (t : ℤ) → IsNear t t
IsNear-self t = (omega int_laws, omega int_laws)

-- When the server's datagrams with the fragments of a frame come in order, without the recovery packet
-- that it sends behind them, and no group has the frame's number, exactly the frame's bytes go to the jitter buffer, once, with its number in 32 bits, its
-- whole capture time and its keyframe flag, when the last datagram comes; the groups
-- are as before, and so is all else of the receiver but the last capture time. The frame is not empty,
-- the payload size is not 0, the numbers of the fragments fit; none of the rounds is 250 ms behind
-- the first; and the capture time is not 0 and is less than 2^31 us from the one before, or from the clock
-- when there is none.
pub run-data_entries :
    {D : Double} (host_int : Bytes → ℤ) (clock : ℕ → Times) (f : EncodedFrame) (size : ℕ)
    (r : Link D) (stats : Metrics)
    → lookup (u32_of_int f.frame_id) r.core.groups ≡ none
    → 0 < size
    → 0 < length f.data_bytes
    → fragment_count size f.data_bytes < 2 ^ 16 - 1
    → ((n : ℕ)
        → ltb_ℤ
            (pos 250000)
            ((clock n).at_check -ℤ (clock (fragment_count size f.data_bytes - 1)).at_first)
          ≡ false)
    → f.capture_us ≢ pos 0
    → (r.core.last_capture_us ≡ pos 0
        → IsNear f.capture_us (clock (fragment_count size f.data_bytes - 1)).at_capture)
    → (r.core.last_capture_us ≢ pos 0 → IsNear f.capture_us r.core.last_capture_us)
    → Takes r f
        (clock 0).at_push
        (run host_int clock
          (map
            (λ e. e.raw)
            (data_entries f (fragment_count size f.data_bytes) 0 (fragments size f.data_bytes)))
          r
          stats).after
run-data_entries host_int clock f size r stats new p q small soon ne none_before near =
    let cnt = fragment_count size f.data_bytes in
    let seen = (clock (cnt - 1)).at_first in
    let whole_count = (fragments-Whole size f.data_bytes p).1 in
    rw (datagrams-data_entries f cnt 0 (fragments size f.data_bytes)) (
      first host_int clock f size seen r new p q small soon
        (λ now.
          extend_capture_us-u32_of_int f.capture_us f.capture_us now (λ e. absurd (ne e))
            (λ h. IsNear-self f.capture_us))
        (fragments size f.data_bytes) stats refl (ap (λ n. (clock (n - 1)).at_first) whole_count)
        (ap
            (λ n.
              extend_capture_us r.core.last_capture_us (u32_of_int f.capture_us)
                (clock (n - 1)).at_capture)
            whole_count
          ∙ extend_capture_us-u32_of_int r.core.last_capture_us f.capture_us
              (clock (cnt - 1)).at_capture none_before near))
