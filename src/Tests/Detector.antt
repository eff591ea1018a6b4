-- ===== src/Tests/Detector.antt =====
-- The detector on two samples, one second apart.
use falx_v.Base.{ℕ, some}
use falx_v.Bpfmaps.Types.{XdpStats}
use falx_v.Bpfmaps.Manager.{zero_stats}
use falx_v.Failsafe.Detector.{DetectorConfig, Detector, new_detector}
use falx_v.Tests.World.{whole}
use falx_v.Tests.Data.{at_second}

abbrev pub config : DetectorConfig ℕ
config = record {
  pps_threshold = 1_000;
  bps_threshold = 8_000_000;
  spike_multiplier = 5;
  baseline_window = 30;
  drop_ratio_threshold = 1;
  parse_error_rate_threshold = 100;
  consecutive_violations = 3;
  consecutive_clean = 5;
}

-- A detector that has seen a sample without packets at second 0.
abbrev pub seen_one : Detector ℕ
seen_one = record (new_detector whole config) {
  sample_count = 1;
  prev_stats = some zero_stats;
  prev_at = at_second 0;
}

-- So many packets.
abbrev pub counted : ℕ → XdpStats
counted n = record zero_stats { rx_packets = n }
