-- ===== src/Bandwidth.antt =====
-- bandwidth.go: the counters of the bytes sent and received, which wrap as uint64.
use hydfs.Prelude.{ℕ, ◌+◌, ◌%◌, ◌^◌}

pub record BandwidthStats : Type 0 where
  pub bytes_sent : ℕ
  pub bytes_received : ℕ

abbrev pub zero_stats : BandwidthStats
zero_stats = record { bytes_sent = 0; bytes_received = 0 }

unfoldable pub add_sent : ℕ → BandwidthStats → BandwidthStats
add_sent bytes bs = record bs { bytes_sent = (bs.bytes_sent + bytes) % 2 ^ 64 }

unfoldable pub add_received : ℕ → BandwidthStats → BandwidthStats
add_received bytes bs = record bs { bytes_received = (bs.bytes_received + bytes) % 2 ^ 64 }

-- the counters, and the statistics after the reset
unfoldable pub get_and_reset : BandwidthStats → ℕ × ℕ × BandwidthStats
get_and_reset bs =
    (bs.bytes_sent, bs.bytes_received, record bs { bytes_sent = 0; bytes_received = 0 })
