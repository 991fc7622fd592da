-- ===== src/Stats.antt =====
-- The counters of src/stats/metrics.h that the transport and the receivers update. The singleton
-- is a record that each operation takes and returns; a counter is a `uint64_t`.
pub mod Latency
mod Tests
use rtstream.Prelude.{ℕ, ◌+◌, ◌%◌, ◌^◌}

pub record Metrics : Type 0 where
  pub net_packets_sent : ℕ
  pub net_bytes_sent : ℕ
  pub net_fec_sent : ℕ
  pub sim_dropped : ℕ
  pub nack_received : ℕ
  pub retransmit_sent : ℕ
  pub net_packets_recv : ℕ
  pub net_bytes_recv : ℕ
  pub net_lost : ℕ
  pub fec_recovered : ℕ
  pub nack_requested : ℕ
  pub queue_dropped : ℕ

-- `counter += n`
abbrev pub bump : ℕ → ℕ → ℕ
bump counter n = (counter + n) % 2 ^ 64

abbrev pub no_metrics : Metrics
no_metrics = record {
  net_packets_sent = 0;
  net_bytes_sent = 0;
  net_fec_sent = 0;
  sim_dropped = 0;
  nack_received = 0;
  retransmit_sent = 0;
  net_packets_recv = 0;
  net_bytes_recv = 0;
  net_lost = 0;
  fec_recovered = 0;
  nack_requested = 0;
  queue_dropped = 0;
}
