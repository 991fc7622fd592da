-- ===== src/UdpReceiver/Tests.antt =====
-- A group with one fragment of three, and the theorems of the receiver there.
use rtstream.Prelude.{
  ℕ, ◌≡◌, refl, ap, sym, true, false, [], ◌∷◌, none, some, map, length, set, get_or, arith,
}
use rtstream.Prelude.Int.{ℤ, pos, ◌+ℤ◌, ◌-ℤ◌, ◌≤ℤ◌, ltb_ℤ, pos_part, int_laws}
use rtstream.Wire.Bytes.{Bytes, u32_of_int}
use rtstream.Stats.{no_metrics}
use rtstream.Fec.{fec_recover, fec_generate, max_len}
use rtstream.Jitter.Double.{Double}
use rtstream.Jitter.State
use rtstream.Sim.{Draw}
use rtstream.UdpServer.{ClientAddr, UdpServer, fragments, fragment_count, fragment_loop}
use rtstream.Prelude.Maps.{lookup}
use rtstream.Queue
use rtstream.Wire.Media.{EncodedFrame}
use rtstream.UdpServer.Delivery.{data_entries}
use rtstream.UdpReceiver.Receive.{Link, receive}
use rtstream.UdpReceiver.Run.{run}
use rtstream.UdpReceiver.Whole.{Takes, run-data_entries}
use rtstream.UdpReceiver.{
  Group, UdpReceiver, Times, try_finalize, new_group, missing_count, recover, longest,
}
use rtstream.UdpReceiver.Clock.{extend_capture_us, extend_capture_us-u32_of_int}
use rtstream.UdpReceiver.Rebuild.{Finishes, try_finalize-lost}

abbrev gappy : Group
gappy = record new_group {
  fragment_cnt = 3;
  frame_id = 7;
  frags = (1 ∷ 2 ∷ []) ∷ [] ∷ (5 ∷ []) ∷ [];
  fec_seen = true;
  parity = 7 ∷ 6 ∷ [];
}

-- The last fragment stays one byte long; the missing one is 3, 4.
recover-gappy : recover gappy ≡ some ((1 ∷ 2 ∷ []) ∷ (3 ∷ 4 ∷ []) ∷ (5 ∷ []) ∷ [])
unfolding recover longest fec_recover
recover-gappy = refl

missing_count-gappy : missing_count gappy.frags ≡ 1
unfolding missing_count
missing_count-gappy = refl

abbrev no_draws : ℕ → Draw
no_draws k = record { unlucky = false; late_ms = 0 }

abbrev client : ClientAddr
client = record { ip = 1; port = 2 }

abbrev server : UdpServer
server = record {
  udp_mtu = 1200;
  nack = record {
    items = record { group_id = 7; fragment_seq = 1; raw = 3 ∷ 4 ∷ [] } ∷ [];
    cache = 2;
    send_set = true;
  };
  sim = record { lossy = false; delay_ms = 0; jitter_ms = 0; pending = []; drawn = 0 };
  clients = client ∷ [];
  stats = no_metrics;
}

-- The clock passes 2^32 us between two packets.
extend_capture_us-u32_of_int_example :
    extend_capture_us (pos 4294967290) (u32_of_int (pos 4294967310)) (pos 9) ≡ pos 4294967310
extend_capture_us-u32_of_int_example =
    extend_capture_us-u32_of_int (pos 4294967290) (pos 4294967310) (pos 9)
      (λ e. absurd (omega (arith, ap pos_part e))) (λ h. near)
  where
    near :
        (pos 4294967310 +ℤ pos 1 ≤ℤ (pos 4294967290 +ℤ pos 2147483648))
        × (pos 4294967290 +ℤ pos 1 ≤ℤ (pos 4294967310 +ℤ pos 2147483648))
    near = (omega int_laws, omega int_laws)

-- A frame of three fragments, the first of them lost.
abbrev frame : Bytes
frame = 1 ∷ 2 ∷ 3 ∷ 4 ∷ 5 ∷ []

abbrev doubles : Double
doubles = record {
  Num = ℤ;
  of_int = λ z. z;
  to_int = λ z. z;
  negate = λ z. pos 0 -ℤ z;
  plus = λ a b. a +ℤ b;
  minus = λ a b. a -ℤ b;
  times = λ a b. a;
  over = λ a b. a;
  less = λ a b. ltb_ℤ a b;
  equal = λ a b. false;
}

abbrev idle : UdpReceiver doubles
idle = record { groups = []; jb = State.new doubles 256; last_capture_us = pos 0 }

abbrev whole_group : Group
whole_group = record new_group { fragment_cnt = 3; frame_id = 7; frags = fragments 2 frame }

abbrev lost_group : Group
lost_group = record whole_group {
  frags = set (fragments 2 frame) 0 [];
  fec_seen = true;
  parity = fec_generate (fragments 2 frame);
}

abbrev times : Times
times = record { at_capture = pos 1; at_first = pos 1; at_check = pos 1; at_push = pos 2 }

three-fragments :
    (length (fragments 2 frame) ≡ 3)
    × (length (get_or (fragments 2 frame) 0 []) ≡ max_len 0 (fragments 2 frame))
unfolding fragments fragment_count fragment_loop max_len
three-fragments = (refl, refl)

try_finalize-lost_example :
    Finishes idle lost_group frame times
      (record no_metrics { fec_recovered = 1 })
      (try_finalize idle lost_group times no_metrics)
try_finalize-lost_example =
    try_finalize-lost idle lost_group times no_metrics 2 frame 0 (omega arith) (omega arith)
      (omega (arith, three-fragments.0)) three-fragments.1 refl refl refl (sym three-fragments.0)

abbrev sent_frame : EncodedFrame
sent_frame = record {
  capture_us = pos 5000;
  wall_us = pos 0;
  encode_done_us = pos 0;
  frame_id = pos 7;
  width = 0;
  height = 0;
  keyframe = true;
  data_bytes = frame;
}

abbrev link : Link doubles
link = record { core = idle; rtt = pos 0; remote = []; out = Queue.new 16 true }

no_delay : ltb_ℤ (pos 250000) (pos 1 -ℤ pos 1) ≡ false
unfolding ◌-ℤ◌
no_delay = refl

nothing_known : lookup (u32_of_int (pos 7)) idle.groups ≡ none
unfolding lookup
nothing_known = refl

count-frame : fragment_count 2 frame ≡ 3
unfolding fragment_count
count-frame = refl

run-data_entries_example :
    Takes link sent_frame
      (pos 2)
      (run
        (λ bytes. pos 0)
        (λ n. times)
        (map (λ e. e.raw) (data_entries sent_frame (fragment_count 2 frame) 0 (fragments 2 frame)))
        link
        no_metrics).after
run-data_entries_example =
    run-data_entries (λ bytes. pos 0) (λ n. times) sent_frame 2 link no_metrics nothing_known
      (omega arith) (omega arith) (omega (arith, count-frame)) (λ n. no_delay)
      (λ e. absurd (omega (arith, ap pos_part e))) (λ e. (omega int_laws, omega int_laws))
      (λ h. absurd (h refl))

-- A datagram shorter than the header is passed over.
receive-short : (receive (λ bytes. pos 0) link (1 ∷ 2 ∷ []) (pos 0) times no_metrics).sent ≡ []
unfolding receive
receive-short = refl
