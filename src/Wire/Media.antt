-- ===== src/Wire/Media.antt =====
-- The shared data types of src/common/media_types.h.
use rtstream.Prelude.{ℕ, Bool}
use rtstream.Prelude.Int.{ℤ}
use rtstream.Wire.Bytes.{Bytes}

pub record EncodedFrame : Type 0 where
  pub capture_us : ℤ
  pub wall_us : ℤ
  pub encode_done_us : ℤ
  pub frame_id : ℤ
  pub width : ℕ
  pub height : ℕ
  pub keyframe : Bool
  pub data_bytes : Bytes

-- `enum class PayloadType`, and its values.
pub data PayloadType : Type 0 where
  media fec nack stats_ping stats_pong stats_json : PayloadType

abbrev pub payload_code : PayloadType → ℕ
payload_code PayloadType.media = 0
payload_code PayloadType.fec = 1
payload_code PayloadType.nack = 2
payload_code PayloadType.stats_ping = 3
payload_code PayloadType.stats_pong = 4
payload_code PayloadType.stats_json = 5
