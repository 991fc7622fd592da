-- ===== src/Common.antt =====
-- src/common/crc32.h, sha1.h and thread_pool.h: checksums, digests, Base64, and a pool of threads.
pub mod Crc
pub mod Sha
pub mod Base
pub mod Pool
mod Tests
