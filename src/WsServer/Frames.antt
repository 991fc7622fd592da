-- ===== src/WsServer/Frames.antt =====
-- A frame is read back as it was written, with a mask or without.
use rtstream.Prelude.{
  ℕ, zero, suc, ◌+◌, ◌*◌, ◌/◌, ◌%◌, ◌^◌, ◌<◌, ◌≤◌, ◌≡◌, ◌≢◌, refl, ap, ap₂, ◌∙◌, sym, Bool, true,
  false, ◌&&◌, not, [], ◌∷◌, ◌++◌, some, bit_and, bit_or, bit_xor, not-ltb, not-leb, length,
  length-append, take, drop, append_assoc, ltb, leb, ◌==◌, Bool-cases, inl, inr, if◌then◌else◌,
  arith,
}
use rtstream.Prelude.Bits.{holds_below, holds_below_sound, xor-zero, xor_self, xor_assoc}
use rtstream.Wire.Bytes.{Bytes, byte_at, read_be16, load_be64, store_be64}
use rtstream.Wire.RoundTrip.{load-store_be64}
use rtstream.WsServer.{
  frame_header, length_bytes, frame, Frame, Parsed, sizes, unmask, body, parse_frame,
}

-- The first bytes of a frame up to its mask, as RFC 6455 has them: a first byte, then the length in
-- 7, 16 or 64 bits, beside the flag for a mask.
unfoldable pub lead : ℕ → Bool → ℕ → Bytes
lead first masked len =
    let flag = if masked then 128 else 0 in
    first
    ∷ (if ltb len 126
        then (flag + len) ∷ []
        else if leb len 65535
        then (flag + 126) ∷ (len / 2 ^ 8) ∷ (len % 2 ^ 8) ∷ []
        else (flag + 127) ∷ store_be64 len)

unfoldable same : Bool → Bool → Bool
same true b = b
same false b = not b

abbrev second_ok : Bool → ℕ → Bool
second_ok masked n =
    let flag = if masked then 128 else 0 in
    bit_and (flag + n) 0x7f == n && same (not (bit_and (flag + n) 0x80 == 0)) masked

second_table : (masked : Bool) → holds_below (second_ok masked) 128 ≡ true
unfolding holds_below same
second_table true = refl
second_table false = refl

second_facts :
    (m n : ℕ) (b masked : Bool) → (m == n && same b masked) ≡ true → (m ≡ n) × (b ≡ masked)
unfolding same
second_facts m n b true e = ground arith
second_facts m n b false e = ground arith

-- What the second byte says.
second :
    (masked : Bool) (n : ℕ)
    → n < 128
    → (bit_and ((if masked then 128 else 0) + n) 0x7f ≡ n)
      × (not (bit_and ((if masked then 128 else 0) + n) 0x80 == 0) ≡ masked)
second masked n lt =
    second_facts _ n _ masked (holds_below_sound (second_ok masked) 128 n lt (second_table masked))

take_exact : (n : ℕ) (xs ys : Bytes) → length xs ≡ n → take n (xs ++ ys) ≡ xs
take_exact zero [] ys e = refl
take_exact (suc n) [] ys e = absurd (omega arith)
take_exact zero (x ∷ xs) ys e = absurd (omega arith)
take_exact (suc n) (x ∷ xs) ys e = ap (λ rest. x ∷ rest) (take_exact n xs ys (omega arith))

drop_exact : (n : ℕ) (xs ys : Bytes) → length xs ≡ n → drop n (xs ++ ys) ≡ ys
drop_exact zero [] ys e = refl
drop_exact (suc n) [] ys e = absurd (omega arith)
drop_exact zero (x ∷ xs) ys e = absurd (omega arith)
drop_exact (suc n) (x ∷ xs) ys e = drop_exact n xs ys (omega arith)

-- The frame that stands behind a header of `hdr` bytes.
abbrev there : Bytes → Bytes → Bytes → Parsed
there buf payload rest =
    Parsed.parsed
      (record {
        fin = not (bit_and (byte_at buf 0) 0x80 == 0);
        opcode = bit_and (byte_at buf 0) 0x0f;
        payload = payload;
      })
      rest

body-plain :
    (l raw rest : Bytes) (hdr len : ℕ)
    → length l ≡ hdr
    → length raw ≡ len
    → hdr + len < 2 ^ 64
    → body (l ++ (raw ++ rest)) false hdr len ≡ there (l ++ (raw ++ rest)) raw rest
unfolding body
body-plain l raw rest hdr len el er lt =
    rw
      (
        body,
        enough,
        fits,
        drop_exact hdr l (raw ++ rest) el,
        take_exact len raw rest er,
        sym (append_assoc l raw rest),
        drop_exact (hdr + len) (l ++ raw) rest (omega (arith, length-append l raw)),
      )
      refl
  where
    enough : ltb (length (l ++ (raw ++ rest))) ((hdr + len) % 2 ^ 64) ≡ false
    enough = not-ltb _ _ (omega (arith, length-append l (raw ++ rest), length-append raw rest))

    fits : leb (2 ^ 64) (hdr + len) ≡ false
    fits = not-leb _ _ lt

body-masked :
    (l mask raw rest : Bytes) (hdr len : ℕ)
    → length l ≡ hdr
    → length mask ≡ 4
    → length raw ≡ len
    → hdr + 4 + len < 2 ^ 64
    → body (l ++ (mask ++ (raw ++ rest))) true hdr len
      ≡ there (l ++ (mask ++ (raw ++ rest))) (unmask mask 0 raw) rest
unfolding body
body-masked l mask raw rest hdr len el em er lt =
    rw
      (
        body,
        has_mask,
        enough,
        fits,
        drop_exact hdr l (mask ++ (raw ++ rest)) el,
        take_exact 4 mask (raw ++ rest) em,
        sym (append_assoc l mask (raw ++ rest)),
        drop_exact (hdr + 4) (l ++ mask) (raw ++ rest) (omega (arith, length-append l mask)),
        take_exact len raw rest er,
        sym (append_assoc (l ++ mask) raw rest),
        drop_exact (hdr + 4 + len) ((l ++ mask) ++ raw) rest
            (omega (arith, length-append l mask, length-append (l ++ mask) raw)),
      )
      refl
  where
    size : length (l ++ (mask ++ (raw ++ rest))) ≡ hdr + 4 + len + length rest
    size = omega (
      arith,
      length-append l (mask ++ (raw ++ rest)),
      length-append mask (raw ++ rest),
      length-append raw rest,
    )

    has_mask : ltb (length (l ++ (mask ++ (raw ++ rest)))) (hdr + 4) ≡ false
    has_mask = not-ltb _ _ (omega (arith, size))

    enough : ltb (length (l ++ (mask ++ (raw ++ rest)))) ((hdr + 4 + len) % 2 ^ 64) ≡ false
    enough = not-ltb _ _ (omega (arith, size))

    fits : leb (2 ^ 64) (hdr + 4 + len) ≡ false
    fits = not-leb _ _ lt

differs : (m n : ℕ) → m ≢ n → (m == n) ≡ false
differs m n h = ground arith

sizes-short :
    (buf : Bytes) (n : ℕ) → bit_and (byte_at buf 1) 0x7f ≡ n → n < 126 → sizes buf ≡ some (2, n)
unfolding sizes
sizes-short buf n e lt =
    rw (sizes, e, differs n 126 (omega arith), differs n 127 (omega arith)) refl

sizes-medium :
    (buf : Bytes)
    → bit_and (byte_at buf 1) 0x7f ≡ 126
    → 4 ≤ length buf
    → sizes buf ≡ some (4, read_be16 buf 2)
unfolding sizes
sizes-medium buf e le = rw (sizes, e, not-ltb (length buf) 4 le) refl

sizes-long :
    (buf : Bytes)
    → bit_and (byte_at buf 1) 0x7f ≡ 127
    → 10 ≤ length buf
    → sizes buf ≡ some (10, load_be64 buf 2)
unfolding sizes
sizes-long buf e le = rw (sizes, e, not-ltb (length buf) 10 le) refl

load-behind :
    (a b v : ℕ) (tail : Bytes)
    → load_be64 (a ∷ b ∷ (store_be64 v ++ tail)) 2 ≡ load_be64 (store_be64 v ++ tail) 0
unfolding load_be64 store_be64
load-behind a b v tail = refl

-- What a header says, whatever follows.
abbrev Says : ℕ → Bool → ℕ → Bytes → Bytes → Type 0
Says first masked len l tail =
    (sizes (l ++ tail) ≡ some (length l, len))
    × (not (bit_and (byte_at (l ++ tail) 1) 0x80 == 0) ≡ masked)
    × (byte_at (l ++ tail) 0 ≡ first)
    × (2 ≤ length l)
    × (length l ≤ 10)

lead-Says :
    (first : ℕ) (masked : Bool) (len : ℕ) (tail : Bytes)
    → len < 2 ^ 64
    → Says first masked len (lead first masked len) tail
unfolding lead
lead-Says first masked len tail lt = elim (Bool-cases (ltb len 126)) [
  | inl short ↦
      let small : len < 126 = ground (arith, short) in
      let s = second masked len (omega (arith, small)) in
      rw short (sizes-short _ len s.0 small, s.1, refl, omega arith, omega arith)
  | inr not_short ↦ elim (Bool-cases (leb len 65535)) [
    | inl medium ↦
        let s = second masked 126 (omega arith) in
        let whole : len / 2 ^ 8 * 2 ^ 8 + len % 2 ^ 8 ≡ len = omega arith in
        rw (not_short, medium)
          (
            sizes-medium _ s.0 (omega arith) ∙ ap (λ n. some (4, n)) whole,
            s.1,
            refl,
            omega arith,
            omega arith,
          )
    | inr long ↦
        let s = second masked 127 (omega arith) in
        let stored = load-store_be64 len tail lt in
        rw (not_short, long)
          (
            sizes-long _ s.0 (omega (arith, stored.1, length-append (store_be64 len) tail))
                ∙ ap₂ (λ k n. some (k, n)) (ap (λ k. suc (suc k)) (sym stored.1))
                    (load-behind first ((if masked then 128 else 0) + 127) len tail ∙ stored.0),
            s.1,
            refl,
            omega (arith, stored.1),
            omega (arith, stored.1),
          )
  ]
]

parse-sizes :
    (buf : Bytes) (masked : Bool) (hdr len : ℕ)
    → sizes buf ≡ some (hdr, len)
    → not (bit_and (byte_at buf 1) 0x80 == 0) ≡ masked
    → 2 ≤ length buf
    → parse_frame buf ≡ body buf masked hdr len
unfolding parse_frame
parse-sizes buf masked hdr len e m le = rw (parse_frame, not-ltb (length buf) 2 le, e, m) refl

abbrev frame_of : ℕ → Bytes → Frame
frame_of first payload = record {
  fin = not (bit_and first 0x80 == 0);
  opcode = bit_and first 0x0f;
  payload = payload;
}

-- A frame without a mask is read as its first byte says, with its payload and what follows.
pub parse-plain :
    (first : ℕ) (payload rest : Bytes)
    → length payload + 14 < 2 ^ 64
    → parse_frame (lead first false (length payload) ++ (payload ++ rest))
      ≡ Parsed.parsed (frame_of first payload) rest
parse-plain first payload rest lt =
    let l = lead first false (length payload) in
    let says = lead-Says first false (length payload) (payload ++ rest) (omega arith) in
    parse-sizes (l ++ (payload ++ rest)) false (length l) (length payload) says.0 says.1
      (omega (arith, says.3, length-append l (payload ++ rest)))
    ∙ body-plain l payload rest (length l) (length payload) refl refl (omega (arith, says.4))
    ∙ ap (λ b. Parsed.parsed (frame_of b payload) rest) says.2

-- What a client sends for `bytes` (RFC 6455, 5.3): the four bytes of the mask in turn, and again from
-- the first.
unfoldable pub masked_by : ℕ → ℕ → ℕ → ℕ → Bytes → Bytes
masked_by a b c d [] = []
masked_by a b c d (x ∷ bytes) = bit_xor x a ∷ masked_by b c d a bytes

length-masked_by : (a b c d : ℕ) (bytes : Bytes) → length (masked_by a b c d bytes) ≡ length bytes
unfolding masked_by
length-masked_by a b c d [] = refl
length-masked_by a b c d (x ∷ bytes) = ap suc (length-masked_by b c d a bytes)

xor_twice : (x a : ℕ) → bit_xor (bit_xor x a) a ≡ x
xor_twice x a = xor_assoc x a a ∙ ap (bit_xor x) (xor_self a) ∙ xor-zero x

-- From byte `i` on, the client begins with the byte of the mask that is in turn.
unmask-masked_by :
    (mask : Bytes) (i : ℕ) (bytes : Bytes)
    → unmask mask i (
        masked_by
          (byte_at mask (i % 4))
          (byte_at mask ((i + 1) % 4))
          (byte_at mask ((i + 2) % 4))
          (byte_at mask ((i + 3) % 4))
          bytes)
      ≡ bytes
unfolding unmask masked_by
unmask-masked_by mask i [] = refl
unmask-masked_by mask i (x ∷ bytes) =
    let turn : (k : ℕ) → byte_at mask ((i + suc k) % 4) ≡ byte_at mask ((i + 1 + k) % 4) =
      λ k. ap (byte_at mask) (omega arith) in
    let again : byte_at mask (i % 4) ≡ byte_at mask ((i + 1 + 3) % 4) =
      ap (byte_at mask) (omega arith) in
    ap₂ ◌∷◌ (xor_twice x (byte_at mask (i % 4))) (
      (λ j.
        unmask mask (i + 1)
          (masked_by (byte_at mask ((i + 1) % 4)) (turn 1 j) (turn 2 j) (again j) bytes))
      ∙ unmask-masked_by mask (i + 1) bytes)

-- A masked frame is read as its first byte says, with the payload as it was before the client masked it
-- with the four bytes `a` to `d`, and what follows. The frame's length fits 64 bits.
pub parse-masked :
    (first a b c d : ℕ) (payload rest : Bytes)
    → length payload + 14 < 2 ^ 64
    → parse_frame (
        lead first true (length payload)
        ++ ((a ∷ b ∷ c ∷ d ∷ []) ++ (masked_by a b c d payload ++ rest)))
      ≡ Parsed.parsed (frame_of first payload) rest
parse-masked first a b c d payload rest lt =
    let mask : Bytes = a ∷ b ∷ c ∷ d ∷ [] in
    let l = lead first true (length payload) in
    let raw = masked_by a b c d payload in
    let says = lead-Says first true (length payload) (mask ++ (raw ++ rest)) (omega arith) in
    parse-sizes (l ++ (mask ++ (raw ++ rest))) true (length l) (length payload) says.0 says.1
      (omega (arith, says.3, length-append l (mask ++ (raw ++ rest))))
    ∙ body-masked l mask raw rest (length l) (length payload) refl refl
        (length-masked_by a b c d payload) (omega (arith, says.4))
    ∙ ap₂ (λ b p. Parsed.parsed (frame_of b p) rest) says.2 (unmask-masked_by mask 0 payload)

length_bytes-store_be64 : (len : ℕ) → len < 2 ^ 64 → length_bytes 8 len ≡ store_be64 len
unfolding length_bytes store_be64
length_bytes-store_be64 len lt = ap₂ ◌∷◌ (omega arith) (
    ap₂ ◌∷◌ (omega arith) (
      ap₂ ◌∷◌ (omega arith) (
        ap₂ ◌∷◌ (omega arith) (
          ap₂ ◌∷◌ (omega arith)
            (ap₂ ◌∷◌ (omega arith) (ap₂ ◌∷◌ (omega arith) (ap₂ ◌∷◌ (omega arith) refl)))))))

frame_header-lead :
    (opcode len : ℕ) → len < 2 ^ 64 → frame_header opcode len ≡ lead (bit_or 0x80 opcode) false len
unfolding frame_header lead
frame_header-lead opcode len lt = elim (Bool-cases (ltb len 126)) [
  | inl short ↦ rw short (ap (λ n. bit_or 0x80 opcode ∷ n ∷ []) (omega arith))
  | inr not_short ↦ elim (Bool-cases (leb len 65535)) [
    | inl medium ↦ rw (not_short, medium) refl
    | inr long ↦ rw (not_short, long, length_bytes-store_be64 len lt) refl
  ]
]

abbrev op_ok : ℕ → Bool
op_ok n = same (not (bit_and (bit_or 0x80 n) 0x80 == 0)) true && bit_and (bit_or 0x80 n) 0x0f == n

op_table : holds_below op_ok 16 ≡ true
unfolding holds_below same
op_table = refl

op_facts : (b : Bool) (m n : ℕ) → (same b true && m == n) ≡ true → (b ≡ true) × (m ≡ n)
unfolding same
op_facts true m n e = ground arith
op_facts false m n e = ground arith

-- What `broadcast` writes is read as one whole frame with its opcode and its bytes, and then what
-- follows. The opcode has four bits, and the frame's length fits 64 bits.
pub parse_frame-frame :
    (opcode : ℕ) (payload rest : Bytes)
    → opcode < 16
    → length payload + 14 < 2 ^ 64
    → parse_frame (frame opcode payload ++ rest)
      ≡ Parsed.parsed (record { fin = true; opcode = opcode; payload = payload }) rest
unfolding frame
parse_frame-frame opcode payload rest op lt =
    let facts = op_facts _ _ opcode (holds_below_sound op_ok 16 opcode op op_table) in
    ap (λ l. parse_frame ((l ++ payload) ++ rest))
      (frame_header-lead opcode (length payload) (omega arith))
    ∙ ap parse_frame (append_assoc (lead (bit_or 0x80 opcode) false (length payload)) payload rest)
    ∙ parse-plain (bit_or 0x80 opcode) payload rest lt
    ∙ ap₂ (λ fin op. Parsed.parsed (record { fin = fin; opcode = op; payload = payload }) rest)
        facts.0 facts.1
