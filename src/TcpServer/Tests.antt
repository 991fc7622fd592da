-- ===== src/TcpServer/Tests.antt =====
-- A socket that takes a few bytes at a time, and one that breaks.
use rtstream.Prelude.{◌≡◌, refl, true, false, [], ◌∷◌}
use rtstream.Prelude.Int.{pos}
use rtstream.Wire.Media.{EncodedFrame}
use rtstream.Stats.{no_metrics}
use rtstream.Queue
use rtstream.Queue.{Queue}
use rtstream.TcpServer.{
  SendResult, Outcome, Client, new_client, send_all, send_both, send_stats, total, send_frame,
}
use rtstream.TcpServer.Sends.{Delivers, send_frame-Delivers}

abbrev frame : EncodedFrame
frame = record {
  capture_us = pos 40000;
  wall_us = pos 0;
  encode_done_us = pos 0;
  frame_id = pos 3;
  width = 640;
  height = 480;
  keyframe = true;
  data_bytes = 9 ∷ 8 ∷ 7 ∷ [];
}

abbrev slow : Client
slow =
    new_client
      (SendResult.took 3 ∷ SendResult.interrupted ∷ SendResult.took 1 ∷ SendResult.took 99 ∷ [])

abbrev broken : Client
broken = new_client (SendResult.took 2 ∷ SendResult.broken ∷ [])

send_all-pieces :
    send_all (SendResult.took 2 ∷ SendResult.interrupted ∷ SendResult.took 5 ∷ []) (1 ∷ 2 ∷ 3 ∷ [])
    ≡ record { outcome = Outcome.done; out = 1 ∷ 2 ∷ 3 ∷ []; left = [] }
unfolding send_all
send_all-pieces = refl

-- A write of the statistics that fails ends the client and closes its queue.
send_stats-broken :
    ((send_stats (1 ∷ 2 ∷ []) broken).alive ≡ false)
    × ((send_stats (1 ∷ 2 ∷ []) broken).queue.is_closed ≡ true)
    × ((send_stats (1 ∷ 2 ∷ []) broken).on_wire ≡ 0 ∷ 0 ∷ [])
unfolding send_stats send_both send_all total new_client Queue.close
send_stats-broken = (refl, refl, refl)

send_frame-Delivers_example : Delivers slow frame no_metrics (send_frame slow frame no_metrics)
send_frame-Delivers_example = send_frame-Delivers slow frame no_metrics
