-- ===== src/RtpReceiver/Tests.antt =====
-- A frame of two units in four packets.
use rtstream.Prelude.{
  ◌≡◌, refl, Bool, true, false, List, [], ◌∷◌, none, some, length, is_empty, arith, ◌>>=◌,
}
use rtstream.Prelude.Int.{ℤ, pos, ◌+ℤ◌}
use rtstream.Wire.Bytes.{Bytes}
use rtstream.Stats.{no_metrics}
use rtstream.Queue
use rtstream.Queue.{Queue}
use rtstream.Queue.Ready.{pushed, new-IsReady}
use rtstream.Rtp.Header.{RtpPkt, mark, write_rtp_header}
use rtstream.Rtp.Nalu.{next_nalu, find_start, nal_length, code_at}
use rtstream.Rtp.Pack.{Stream, pack, pack_loop, pack_nal, fu_loop, mark_last}
use rtstream.Rtp.Scan.{clean, stream}
use rtstream.Rtp.RoundTrip.{AreUnits}
use rtstream.RtpReceiver.{FrameState, no_frame, complete, span, last_seq, Emitted, emit}
use rtstream.RtpReceiver.Assembly.{Assembler, Times, finalize_frame, start_frame, next_frame}
use rtstream.RtpReceiver.Receive.{ping_round}
use rtstream.RtpReceiver.Rebuild.{numbered, Holds, frame_of, emit-pack}
use rtstream.Rtp.Numbers.{heard}
use rtstream.RtpReceiver.Run.{run, part}
use rtstream.RtpReceiver.Whole.{made, run-pack}
use rtstream.RtpReceiver.Twice.{finalize_frame-next_frame}

abbrev parameters : Bytes
parameters = 0x67 ∷ 5 ∷ 6 ∷ []

abbrev picture : Bytes
picture = 0x65 ∷ 1 ∷ 2 ∷ 3 ∷ 4 ∷ []

abbrev units : List (Bool × Bytes)
units = (true, parameters) ∷ (false, picture) ∷ []

abbrev link : Stream
link = record { mtu = 16; timestamp = 90; ssrc = 1 }

abbrev packets : List Bytes
packets = pack link (stream units) 10

abbrev filled : FrameState
filled = record no_frame {
  started = true;
  marker_seen = true;
  ts = 90;
  capture_ms = pos 1;
  first_seq = 10;
  raws = numbered 10 packets;
}

abbrev filled_units-AreUnits : AreUnits units
unfolding clean
filled_units-AreUnits = (
  record {
    is_clean = refl;
    not_empty = omega arith;
    header_fits = omega arith;
    type_is_single = λ e. absurd (omega (arith, e));
  },
  (
    record {
      is_clean = refl;
      not_empty = omega arith;
      header_fits = omega arith;
      type_is_single = λ e. absurd (omega (arith, e));
    },
    _,
  ),
)

length-packets : length packets ≡ 3
unfolding pack pack_loop pack_nal fu_loop mark_last mark stream next_nalu find_start nal_length
    code_at write_rtp_header
length-packets = refl

filled-Holds : Holds filled packets
filled-Holds = (refl, omega (arith, length-packets))

emit-pack_example : emit filled none (pos 5) ≡ Emitted.frame (frame_of filled units (pos 5))
emit-pack_example =
    emit-pack filled link (true, parameters) ((false, picture) ∷ []) 10 (pos 5)
      filled_units-AreUnits (omega arith) (omega arith) filled-Holds

abbrev assembler : Assembler
assembler = record {
  cur = filled;
  fec = [];
  zombies = [];
  out = Queue.new 16 true;
  stats = no_metrics;
}

abbrev now : Times
now = record { at_first = pos 5; at_emit = pos 5; at_check = pos 5; at_expire = pos 5 }

abbrev soon : Times
soon = record { at_first = pos 6; at_emit = pos 6; at_check = pos 6; at_expire = pos 6 }

abbrev next : RtpPkt
next = record { seq = 13; ts = 3090; marker = false; capture_ms = pos 34; raw = [] }

there : (is_empty filled.raws ≡ false) × (complete filled ≡ true)
unfolding pack pack_loop pack_nal fu_loop mark_last mark stream next_nalu find_start nal_length
    code_at write_rtp_header numbered complete span last_seq
there = (refl, refl)

emit_later : emit filled none (pos 6) ≡ Emitted.frame (frame_of filled units (pos 6))
emit_later =
    emit-pack filled link (true, parameters) ((false, picture) ∷ []) 10 (pos 6)
      filled_units-AreUnits (omega arith) (omega arith) filled-Holds

finalize_frame-next_frame_example :
    (finalize_frame true now assembler >>= next_frame next soon)
    ≡ some (
        start_frame next soon (record assembler {
          out =
              pushed
                (pushed (Queue.new 16 true) (frame_of filled units (pos 5)))
                (frame_of filled units (pos 6));
        }))
finalize_frame-next_frame_example =
    finalize_frame-next_frame assembler (frame_of filled units (pos 5))
      (frame_of filled units (pos 6)) next now soon
      (record {
        begun = refl;
        has_packets = there.0;
        all_there = there.1;
        emits = emit-pack_example;
      })
      emit_later (new-IsReady 16 (omega arith))

-- A frame whose first packet is missing is taken for complete.
complete-headless :
    complete (record filled { first_seq = 11; raws = (11, []) ∷ (12, []) ∷ [] }) ≡ true
unfolding complete span last_seq
complete-headless = refl

ping_round-due : ping_round (pos 1000) (pos 1000) ≡ (pos 501000, true)
unfolding ping_round ◌+ℤ◌
ping_round-due = refl

abbrev idle : Assembler
idle = record assembler { cur = no_frame }

run-pack_example :
    (seen : ℤ) × (run (λ n. now) (heard (pos 1) packets) idle
      ≡ some (record idle {
        cur = part link (pos 1) seen 10 true packets;
        out = pushed (Queue.new 16 true) (made (pos 1) units (pos 5));
      }))
run-pack_example =
    run-pack (λ n. now) link (pos 1) (true, parameters) ((false, picture) ∷ []) 10 idle
      filled_units-AreUnits (omega arith) (omega arith) (omega arith)
      (omega (arith, length-packets)) refl refl (new-IsReady 16 (omega arith))
