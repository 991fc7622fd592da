-- ===== src/TcpClient/Link.antt =====
-- What a server writes, a client reads: the same frames in the same order.
use rtstream.Prelude.{
  ℕ, suc, ◌+◌, ◌^◌, ◌≤◌, ◌<◌, ◌≡◌, refl, ap, subst, ◌∙◌, sym, Bool, true, false, not, List, [], ◌∷◌,
  ◌++◌, length, drop, append_assoc, bit_and, ◌==◌, if◌then◌else◌, arith,
}
use rtstream.Prelude.Int.{ℤ, pos, negsuc}
use rtstream.Wire.Bytes.{
  Bytes, byte_at, read_be32, u32_of_int, u64_of_int, int_of_u64, load_be64, store_be64,
}
use rtstream.Wire.Media.{EncodedFrame}
use rtstream.Wire.Tcp.{header_size, magic_ok, write_header}
use rtstream.Wire.RoundTrip.{load-store_be64}
use rtstream.Stats.{Metrics}
use rtstream.Queue.{Queue}
use rtstream.Queue.Ready.{IsReady, pushed, push-IsReady}
use rtstream.TcpServer.{packet, total}
use rtstream.TcpServer.Sends.{wire}
use rtstream.TcpClient.{
  Event, TcpClient, State, Round, frame_of, max_total, bad_length, take_frame, round, loop,
}
use rtstream.TcpClient.Reads.{content, IsOpen, read_all-Gets}

-- A frame that fits: its length is within the client's bound, its capture time is an `int64_t`.
pub record IsSendable (f : EncodedFrame) : Type 0 where
  pub short : length f.data_bytes + header_size ≤ max_total
  pub in_range : int_of_u64 (u64_of_int f.capture_us) ≡ f.capture_us

-- The frame that the client makes of a frame: its number in 32 bits, and the clock.
abbrev pub received : EncodedFrame → ℤ → EncodedFrame
received f now = record {
  capture_us = f.capture_us;
  wall_us = pos 0;
  encode_done_us = now;
  frame_id = pos (u32_of_int f.frame_id);
  width = 0;
  height = 0;
  keyframe = f.keyframe;
  data_bytes = f.data_bytes;
}

u64_of_int-lt : (z : ℤ) → u64_of_int z < 2 ^ 64
u64_of_int-lt (pos n) = omega arith
u64_of_int-lt (negsuc n) = omega arith

capture-packet :
    (f : EncodedFrame)
    → load_be64 (packet f) 12 ≡ load_be64 (store_be64 (u64_of_int f.capture_us) ++ f.data_bytes) 0
unfolding packet write_header load_be64 store_be64
capture-packet f = refl

length-packet : (f : EncodedFrame) → length (packet f) ≡ length f.data_bytes + header_size
unfolding packet write_header store_be64
length-packet f = omega arith

flags-keyframe : (on : Bool) → not (bit_and (if on then 1 else 0) 1 == 0) ≡ on
flags-keyframe true = refl
flags-keyframe false = refl

flags_no_stats : (on : Bool) → (bit_and (if on then 1 else 0) 2 == 0) ≡ true
flags_no_stats true = refl
flags_no_stats false = refl

data_bytes-packet : (f : EncodedFrame) → drop header_size (packet f) ≡ f.data_bytes
unfolding packet write_header store_be64
data_bytes-packet f = refl

u32_of_int-lt : (z : ℤ) → u32_of_int z < 2 ^ 32
u32_of_int-lt (pos n) = omega arith
u32_of_int-lt (negsuc n) = omega arith

frame_id-packet : (f : EncodedFrame) → read_be32 (packet f) 8 ≡ u32_of_int f.frame_id
unfolding packet write_header
frame_id-packet f = omega (arith, u32_of_int-lt f.frame_id)

flags-packet : (f : EncodedFrame) → byte_at (packet f) 4 ≡ (if f.keyframe then 1 else 0)
unfolding packet write_header
flags-packet f = refl

magic_ok-packet : (f : EncodedFrame) → magic_ok (packet f) ≡ true
unfolding packet write_header magic_ok
magic_ok-packet f = refl

frame_of-packet :
    (f : EncodedFrame) (now : ℤ) → IsSendable f → frame_of (packet f) now ≡ received f now
unfolding frame_of
frame_of-packet f now v = λ i. record {
  capture_us = time i;
  wall_us = pos 0;
  encode_done_us = now;
  frame_id = pos (frame_id-packet f i);
  width = 0;
  height = 0;
  keyframe = key i;
  data_bytes = data_bytes-packet f i;
}
  where
    time : int_of_u64 (load_be64 (packet f) 12) ≡ f.capture_us
    time =
        ap int_of_u64 (
          capture-packet f
          ∙ (load-store_be64 (u64_of_int f.capture_us) f.data_bytes (u64_of_int-lt f.capture_us)).0)
        ∙ v.in_range

    key : not (bit_and (byte_at (packet f) 4) 1 == 0) ≡ f.keyframe
    key = ap (λ b. not (bit_and b 1 == 0)) (flags-packet f) ∙ flags-keyframe f.keyframe

-- The loop goes on with the frame in its queue, and with the events that carry `rest`.
abbrev pub Takes : State → EncodedFrame → Bytes → Round → Type 0
Takes s f rest r =
    (s' : State) × (r ≡ Round.goes_on s')
    × (s'.client ≡ record s.client { out = pushed s.client.out f })
    × (content s'.events ≡ rest)
    × IsOpen s'.events

take_frame-packet :
    (c : TcpClient) (f : EncodedFrame) (now : ℤ) (es : List Event) (stats : Metrics)
    → IsSendable f
    → IsReady c.out
    → (s' : State) × (take_frame c (packet f) now es stats ≡ Round.goes_on s')
      × (s'.client ≡ record c { out = pushed c.out (received f now) })
      × (s'.events ≡ es)
unfolding take_frame
take_frame-packet c f now es stats v ready =
    rw
      (
        magic_ok-packet f,
        frame_of-packet f now v,
        flags-packet f,
        flags_no_stats f.keyframe,
        (push-IsReady c.out (received f now) ready).0,
      )
      (_, refl, refl, refl)

total-bytes :
    (f : EncodedFrame)
    → IsSendable f
    → (read_be32 (total (packet f)) 0 ≡ length (packet f))
      × (length (total (packet f)) ≡ 4)
      × (bad_length (length (packet f)) ≡ false)
unfolding total bad_length
total-bytes f v = (omega (arith, length-packet f, v.short), refl, ground (arith, length-packet f))

round-Takes :
    (s : State) (f : EncodedFrame) (now : ℤ) (rest : Bytes)
    → IsSendable f
    → IsReady s.client.out
    → IsOpen s.events
    → content s.events ≡ wire f ++ rest
    → Takes s (received f now) rest (round s now)
unfolding round wire
round-Takes s f now rest v ready o e =
    let bytes = total-bytes f v in
    let (es, got_len, left, o') =
      read_all-Gets s.events 4 (total (packet f)) (packet f ++ rest) o
        (e ∙ append_assoc (total (packet f)) (packet f) rest) bytes.1 in
    let (es', got_buf, left', o'') =
      read_all-Gets es (length (packet f)) (packet f) rest o' left refl in
    let (s', taken, client, events) = take_frame-packet s.client f now es' s.stats v ready in
    rw (round, got_len, bytes.0, bytes.2, got_buf, taken)
      (s', refl, client, ap content events ∙ left', subst IsOpen (sym events) o'')

-- The frames of a list, one after the other on the wire, and one after the other in the queue.
unfoldable pub wires : List EncodedFrame → Bytes
wires [] = []
wires (f ∷ fs) = wire f ++ wires fs

unfoldable pub pushed_all : (ℕ → ℤ) → Queue EncodedFrame → List EncodedFrame → Queue EncodedFrame
unfolding pushed
pushed_all clock q [] = q
pushed_all clock q (f ∷ fs) = pushed_all clock (pushed q (received f (clock (suc (length fs))))) fs

abbrev pub AreSendable : List EncodedFrame → Type 0
AreSendable [] = Unit {0}
AreSendable (f ∷ fs) = IsSendable f × AreSendable fs

-- However the network cuts the server's bytes into pieces, the client takes exactly the frames that
-- the server wrote, in order and unchanged but for their number, of which 32 bits arrive, and the
-- fields that are not sent; it pushes each into its queue, stays connected, and leaves the bytes
-- behind them. Each frame fits; the queue is open, drops its oldest frame when it is full,
-- and counts in 64 bits; no error stands among the events.
pub loop-wires :
    (clock : ℕ → ℤ) (fs : List EncodedFrame) (s : State) (rest : Bytes)
    → AreSendable fs
    → IsReady s.client.out
    → IsOpen s.events
    → content s.events ≡ wires fs ++ rest
    → (s' : State) × (loop clock (length fs) s ≡ Round.goes_on s')
      × (s'.client ≡ record s.client { out = pushed_all clock s.client.out fs })
      × (content s'.events ≡ rest)
unfolding loop wires pushed_all
loop-wires clock [] s rest v ready o e = (s, refl, refl, e)
loop-wires clock (f ∷ fs) s rest v ready o e =
    let now = clock (suc (length fs)) in
    let (s1, goes, client, left, o1) =
      round-Takes s f now (wires fs ++ rest) v.0 ready o
        (e ∙ append_assoc (wire f) (wires fs) rest) in
    let ready1 =
      subst (λ c. IsReady c.out) (sym client)
        (push-IsReady s.client.out (received f now) ready).1 in
    let (s2, goes2, client2, left2) = loop-wires clock fs s1 rest v.1 ready1 o1 left in
    rw (loop, goes)
      (
        s2,
        goes2,
        client2
            ∙ ap {A = TcpClient} {B = TcpClient} (λ c. record c { out = pushed_all clock c.out fs })
                client,
        left2,
      )
