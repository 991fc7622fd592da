-- ===== src/Rtp.antt =====
-- The RTP format of src/transport/rtp_server.h and src/receiver/rtp_receiver.h: how a frame's NAL
-- units become packets, and packets a frame.
pub mod Header
pub mod Nalu
pub mod Pack
pub mod Unpack
pub mod Scan
pub mod Fragments
pub mod RoundTrip
pub mod Numbers
mod Tests
