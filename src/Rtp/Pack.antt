-- ===== src/Rtp/Pack.antt =====
-- The packets of a frame: the loops of `RtpServer::send_frame`. Each packet takes the next number of
-- `seq_`.
use rtstream.Prelude.{
  ℕ, zero, suc, ◌+◌, ◌-◌, ◌%◌, ◌^◌, min, Bool, true, false, List, [], ◌∷◌, ◌++◌, none, some,
  bit_and, bit_or, length, take, drop, leb, ◌==◌, if◌then◌else◌,
}
use rtstream.Wire.Bytes.{Bytes, u16}
use rtstream.Rtp.Header.{header_size, write_rtp_header, mark}
use rtstream.Rtp.Nalu.{next_nalu}

-- What the packets of a frame have in common.
pub record Stream : Type 0 where
  pub mtu : ℕ
  pub timestamp : ℕ
  pub ssrc : ℕ

unfoldable pub fu_indicator : ℕ → ℕ
fu_indicator h = bit_or (bit_and h 0xe0) 28

unfoldable pub fu_header : Bool → Bool → ℕ → ℕ
fu_header first last h =
    bit_or (bit_or (if first then 0x80 else 0) (if last then 0x40 else 0)) (bit_and h 0x1f)

-- The FU-A loop: `rest` are the `remain` bytes to go of a unit with header byte `h`, `size` is
-- `max_payload`. A round takes a byte at least when `size` is not 0, so `remain` rounds of fuel are
-- enough; with `size` 0 the source does not end.
unfoldable pub fu_loop : ℕ → Stream → Bool → ℕ → Bytes → ℕ → ℕ → List Bytes
unfolding fu_indicator fu_header
fu_loop zero st first h rest size seq = []
fu_loop (suc n) st first h [] size seq = []
fu_loop (suc n) st first h (b ∷ rest) size seq =
    let chunk = min size (length (b ∷ rest)) in
    let last = chunk == length (b ∷ rest) in
    (write_rtp_header false (u16 seq) st.timestamp st.ssrc
      ++ (fu_indicator h ∷ fu_header first last h ∷ take chunk (b ∷ rest)))
    ∷ fu_loop n st false h (drop chunk (b ∷ rest)) size (seq + 1)

-- `cfg_.udp_mtu - k` on `size_t`
abbrev pub below_mtu : Stream → ℕ → ℕ
below_mtu st k = (st.mtu + 2 ^ 64 - k) % 2 ^ 64

-- The packets of one unit, which is not empty.
unfoldable pub pack_nal : Stream → Bytes → ℕ → List Bytes
unfolding fu_loop
pack_nal st [] seq = []
pack_nal st (h ∷ body) seq =
    if leb (length (h ∷ body)) (below_mtu st header_size)
    then (write_rtp_header false (u16 seq) st.timestamp st.ssrc ++ (h ∷ body)) ∷ []
    else fu_loop (length body) st true h body (below_mtu st (header_size + 2)) seq

-- The loop over the frame, with `n` rounds of fuel; a round takes a start code at least.
unfoldable pub pack_loop : ℕ → Stream → Bytes → ℕ → List Bytes
unfolding pack_nal
pack_loop zero st d seq = []
pack_loop (suc n) st [] seq = []
pack_loop (suc n) st (b ∷ d) seq = elim (next_nalu (b ∷ d)) [
  | none ↦ []
  | some (nal, rest) ↦
      let packets = pack_nal st nal seq in packets ++ pack_loop n st rest (seq + length packets)
]

unfoldable pub mark_last : List Bytes → List Bytes
unfolding mark
mark_last [] = []
mark_last (p ∷ []) = mark p ∷ []
mark_last (p ∷ q ∷ ps) = p ∷ mark_last (q ∷ ps)

-- All packets of a frame, the last with the marker.
unfoldable pub pack : Stream → Bytes → ℕ → List Bytes
unfolding pack_loop mark_last
pack st d seq = mark_last (pack_loop (length d) st d seq)
