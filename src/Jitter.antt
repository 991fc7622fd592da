-- ===== src/Jitter.antt =====
-- src/receiver/jitter_buffer.h: the reordering buffer of both datagram receivers.
pub mod Double
pub mod State
pub mod Missing
pub mod Push
pub mod Pop
pub mod Keys
pub mod Bounds
pub mod Agree
pub mod Order
pub mod Delivery
pub mod Run
pub mod Stall
pub mod Tune
mod Tests
