-- ===== src/Rtp/Tests.antt =====
-- A parameter set and a key picture, the second of them too long for one packet.
use rtstream.Prelude.{
  ◌≡◌, refl, Bool, true, false, List, [], ◌∷◌, ◌++◌, none, some, length, map, replicate, arith,
}
use rtstream.Wire.Bytes.{Bytes}
use rtstream.Rtp.Header.{read_seq, write_rtp_header, mark, parse_rtp}
use rtstream.Rtp.Nalu.{find_start, nal_length, code_at, next_nalu}
use rtstream.Rtp.Pack.{
  Stream, pack, pack_loop, pack_nal, fu_loop, fu_indicator, fu_header, mark_last,
}
use rtstream.Rtp.Unpack.{no_bytes, unpack, unpack_step, fu_step}
use rtstream.Rtp.Scan.{clean, code, stream, next_nalu-stream}
use rtstream.Rtp.RoundTrip.{AreUnits, longs, any_idr, unpack-pack}

abbrev parameters : Bytes
parameters = 0x67 ∷ 0 ∷ 0 ∷ 3 ∷ 1 ∷ []

abbrev picture : Bytes
picture = 0x65 ∷ 1 ∷ 2 ∷ 3 ∷ 4 ∷ []

abbrev units : List (Bool × Bytes)
units = (true, parameters) ∷ (false, picture) ∷ []

abbrev link : Stream
link = record { mtu = 16; timestamp = 90; ssrc = 1 }

next_nalu-units : next_nalu (stream units) ≡ some (parameters, code false ++ picture)
unfolding next_nalu find_start nal_length code_at stream
next_nalu-units = refl

parameters-clean : clean parameters ≡ true
unfolding clean
parameters-clean = refl

-- Each unit is cut into two fragments of two bytes; the numbers wrap.
length-pack : length (pack link (stream units) 65534) ≡ 4
unfolding pack pack_loop pack_nal fu_loop mark_last mark stream next_nalu find_start nal_length
    code_at write_rtp_header
length-pack = refl

seqs-pack : map read_seq (pack link (stream units) 65534) ≡ 65534 ∷ 65535 ∷ 0 ∷ 1 ∷ []
unfolding pack pack_loop pack_nal fu_loop mark_last mark stream next_nalu find_start nal_length
    code_at write_rtp_header read_seq fu_indicator fu_header
seqs-pack = refl

-- A continuation whose start was lost is dropped.
unpack-middle : unpack no_bytes ((replicate 12 0 ++ 0x7c ∷ 5 ∷ 9 ∷ []) ∷ []) ≡ no_bytes
unfolding unpack unpack_step fu_step
unpack-middle = refl

parse_rtp_short : parse_rtp (0x80 ∷ 0x60 ∷ []) ≡ none
unfolding parse_rtp
parse_rtp_short = refl

next_nalu-stream_example :
    next_nalu (stream units) ≡ some (parameters, stream ((false, picture) ∷ []))
next_nalu-stream_example =
    next_nalu-stream true parameters ((false, picture) ∷ []) parameters-clean (omega arith)

units-AreUnits : AreUnits units
unfolding clean
units-AreUnits = (
  record {
    is_clean = refl;
    not_empty = omega arith;
    header_fits = omega arith;
    type_is_single = λ e. absurd (omega (arith, e));
  },
  (
    record {
      is_clean = refl;
      not_empty = omega arith;
      header_fits = omega arith;
      type_is_single = λ e. absurd (omega (arith, e));
    },
    _,
  ),
)

unpack-pack_example :
    unpack no_bytes (pack link (stream units) 65534)
    ≡ record { annexb = stream (longs units); keyframe = any_idr units; fu_active = false }
unpack-pack_example = unpack-pack link units 65534 units-AreUnits (omega arith) (omega arith)
