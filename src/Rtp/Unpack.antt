-- ===== src/Rtp/Unpack.antt =====
-- The loop of `RtpReceiver::emit` over the packets of a frame.
use rtstream.Prelude.{
  ℕ, Bool, true, false, ◌&&◌, ◌||◌, not, List, [], ◌∷◌, ◌++◌, bit_and, bit_or, length, drop, ltb,
  ◌==◌, if◌then◌else◌,
}
use rtstream.Wire.Bytes.{Bytes, byte_at}

pub record Assembly : Type 0 where
  pub annexb : Bytes
  pub keyframe : Bool
  pub fu_active : Bool

abbrev pub no_bytes : Assembly
no_bytes = record { annexb = []; keyframe = false; fu_active = false }

abbrev pub start_code : Bytes
start_code = 0 ∷ 0 ∷ 0 ∷ 1 ∷ []

-- `nt == 5`, for the header byte of a unit.
abbrev pub is_idr : ℕ → Bool
is_idr h = bit_and h 0x1f == 5

-- A fragment with payload `pl`, of two bytes at least.
unfoldable pub fu_step : Assembly → Bytes → Assembly
fu_step a pl =
    let fu = byte_at pl 1 in
    let h = bit_or (bit_and (byte_at pl 0) 0xe0) (bit_and fu 0x1f) in
    let ends = not (bit_and fu 0x40 == 0) in
    let a' : Assembly =
      if not (bit_and fu 0x80 == 0)
      then record a {
        annexb = a.annexb ++ (start_code ++ (h ∷ drop 2 pl));
        keyframe = a.keyframe || is_idr h;
        fu_active = true;
      }
      else if a.fu_active
      then record a { annexb = a.annexb ++ drop 2 pl }
      else a in
    record a' { fu_active = a'.fu_active && not ends }

unfoldable pub unpack_step : Assembly → Bytes → Assembly
unfolding fu_step
unpack_step a raw =
    let pl = drop 12 raw in
    if ltb (length raw) 13
    then a
    else if bit_and (byte_at pl 0) 0x1f == 28
    then (if ltb (length pl) 2 then a else fu_step a pl)
    else record {
      annexb = a.annexb ++ (start_code ++ pl);
      keyframe = a.keyframe || is_idr (byte_at pl 0);
      fu_active = false;
    }

unfoldable pub unpack : Assembly → List Bytes → Assembly
unfolding unpack_step
unpack a [] = a
unpack a (raw ∷ raws) = unpack (unpack_step a raw) raws
