-- ===== src/UdpReceiver/Run.antt =====
-- `recv_loop` over the datagrams with the fragments of a frame.
use rtstream.Prelude.{
  ℕ, suc, ◌+◌, ◌-◌, ◌^◌, ◌≤◌, ◌<◌, ◌≡◌, refl, ap, ap₂, ◌∙◌, false, List, [], ◌∷◌, ◌++◌, map, length,
  not-ltb, ◌==◌, arith,
}
use rtstream.Prelude.Int.{ℤ}
use rtstream.Wire.Bytes.{Bytes, u16, u32_of_int}
use rtstream.Wire.Media.{EncodedFrame}
use rtstream.Wire.Udp
use rtstream.Wire.Udp.{UdpHeader, set_keyframe, magic_ok}
use rtstream.Stats.{Metrics, bump}
use rtstream.Jitter.Double.{Double}
use rtstream.UdpServer.{header_of, packet_of}
use rtstream.UdpServer.Packets.{packet_of-Reads}
use rtstream.UdpServer.Delivery.{data_entries}
use rtstream.UdpReceiver.{Times, on_media}
use rtstream.UdpReceiver.Receive.{Link, Heard, receive}
use rtstream.UdpReceiver.Gather.{Shared, IsMedia}

-- What every datagram adds to the counters.
abbrev pub counted : Metrics → Bytes → Metrics
counted stats buf = record stats {
  net_packets_recv = bump stats.net_packets_recv 1;
  net_bytes_recv = bump stats.net_bytes_recv (length buf);
}

type_media :
    (f : EncodedFrame) (cnt i len : ℕ)
    → ((header_of f cnt i len false).payload_type == 5 ≡ false)
      × ((header_of f cnt i len false).payload_type == 4 ≡ false)
unfolding header_of set_keyframe
type_media f cnt i len = (refl, refl)

length-packet_of :
    (f : EncodedFrame) (cnt i : ℕ) (d : Bytes)
    → Udp.header_size ≤ length (packet_of f cnt i d false)
unfolding packet_of Udp.write
length-packet_of f cnt i d = omega arith

module _ {D : Double} (host_int : Bytes → ℤ) where
  -- `recv_loop` for a list of datagrams; `clock n` are the times of the round with `n` to come.
  unfoldable pub run : (ℕ → Times) → List Bytes → Link D → Metrics → Heard D
  unfolding receive
  run clock [] r stats = record { after = r; sent = []; stats = stats }
  run clock (p ∷ ps) r stats =
      let t = clock (length ps) in
      let one = receive host_int r p t.at_capture t stats in
      let rest = run clock ps one.after one.stats in
      record { after = rest.after; sent = one.sent ++ rest.sent; stats = rest.stats }

  -- A packet with a fragment goes to `on_media`.
  receive-packet_of :
      (r : Link D) (f : EncodedFrame) (cnt i : ℕ) (d : Bytes) (now : ℤ) (t : Times)
      (stats : Metrics)
      → i < 2 ^ 16
      → (receive host_int r (packet_of f cnt i d false) now t stats).after ≡ record r {
        core =
            (on_media r.core
              (header_of f cnt i (length d) false)
              d
              t
              (counted stats (packet_of f cnt i d false))).after;
      }
  unfolding receive
  receive-packet_of r f cnt i d now t stats lt =
      let reads = packet_of-Reads f cnt i d false lt in
      let types = type_media f cnt i (length d) in
      rw
        (
          receive,
          not-ltb _ _ (length-packet_of f cnt i d),
          reads.0,
          reads.1,
          reads.2,
          types.0,
          types.1,
        )
        refl

-- The datagrams of fragments `ds` from number `i` on.
unfoldable pub datagrams : EncodedFrame → ℕ → ℕ → List Bytes → List Bytes
datagrams f cnt i [] = []
datagrams f cnt i (d ∷ ds) = packet_of f cnt (u16 i) d false ∷ datagrams f cnt (i + 1) ds

pub length-datagrams :
    (f : EncodedFrame) (cnt i : ℕ) (ds : List Bytes) → length (datagrams f cnt i ds) ≡ length ds
unfolding datagrams
length-datagrams f cnt i [] = refl
length-datagrams f cnt i (d ∷ ds) = ap suc (length-datagrams f cnt (i + 1) ds)

-- They are what the server makes for its cache and its clients.
pub datagrams-data_entries :
    (f : EncodedFrame) (cnt i : ℕ) (ds : List Bytes)
    → map (λ e. e.raw) (data_entries f cnt i ds) ≡ datagrams f cnt i ds
unfolding datagrams data_entries
datagrams-data_entries f cnt i [] = refl
datagrams-data_entries f cnt i (d ∷ ds) =
    ap (λ rest. packet_of f cnt (u16 i) d false ∷ rest) (datagrams-data_entries f cnt (i + 1) ds)

abbrev pub shared : EncodedFrame → ℕ → ℤ → Shared
shared f cnt seen = record {
  gid = u32_of_int f.frame_id;
  cnt = cnt;
  cap = f.capture_us;
  key = f.keyframe;
  seen = seen;
}

pub header_of-IsMedia :
    (f : EncodedFrame) (cnt i : ℕ) (seen : ℤ) (d : Bytes)
    → i < 2 ^ 16
    → cnt < 2 ^ 16 - 1
    → IsMedia (shared f cnt seen) i (header_of f cnt i (length d) false)
unfolding header_of set_keyframe
header_of-IsMedia f cnt i seen d lt small = record {
  group_id = refl;
  number = refl;
  count = omega arith;
  key = (packet_of-Reads f cnt i d false lt).3;
}

pub lo-header_of :
    (f : EncodedFrame) (cnt i len : ℕ)
    → (header_of f cnt i len false).capture_us_lo ≡ u32_of_int f.capture_us
unfolding header_of set_keyframe
lo-header_of f cnt i len = refl

-- The first datagram goes to `on_media`, and then the others come.
pub run-datagrams :
    {D : Double} (host_int : Bytes → ℤ) (clock : ℕ → Times) (f : EncodedFrame) (cnt i : ℕ)
    (d : Bytes) (ds : List Bytes) (r : Link D) (stats : Metrics)
    → i < 2 ^ 16
    → (stats1 : Metrics) × (stats2 : Metrics) × ((run host_int clock
          (datagrams f cnt i (d ∷ ds))
          r
          stats).after
        ≡ (run host_int clock
            (datagrams f cnt (i + 1) ds)
            (record r {
              core =
                  (on_media r.core
                    (header_of f cnt i (length d) false)
                    d
                    (clock (length ds))
                    stats1).after;
            })
            stats2).after)
unfolding run datagrams
run-datagrams {D} host_int clock f cnt i d ds r stats lt =
    let ps = datagrams f cnt (i + 1) ds in
    let one : ℕ → ℕ → Heard D =
      λ n k. receive host_int r (packet_of f cnt k d false) (clock n).at_capture (clock n) stats in
    let number : u16 i ≡ i = omega arith in
    (
      counted stats (packet_of f cnt i d false),
      (one (length ds) i).stats,
      ap₂ (λ n k. (run host_int clock ps (one n k).after (one n k).stats).after)
            (length-datagrams f cnt (i + 1) ds) number
          ∙ ap (λ b. (run host_int clock ps b (one (length ds) i).stats).after)
              (receive-packet_of host_int r f cnt i d (clock (length ds)).at_capture
                (clock (length ds)) stats lt),
    )
