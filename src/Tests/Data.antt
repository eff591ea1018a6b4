-- ===== src/Tests/Data.antt =====
-- The data of the concrete runs.
use falx_v.Base.{ℕ, ◌+◌, ◌*◌, [], ◌∷◌}
use falx_v.Base.Time.{unix_epoch, second}
use falx_v.Bpfmaps.Types.{IpAddr, BlockEntry, MappedXdpStats, FailsafeState, reason_ai_verdict}
use falx_v.Bpfmaps.RateLimiter.{default_rate_limit_config, new_map_rate_limiter}
use falx_v.Bpfmaps.Manager.{Manager, zero_stats, zero_mapped}
use falx_v.Tests.World.{World}

-- 2023-11-14 22:13:20 UTC, and so many seconds after it.
abbrev pub at_second : ℕ → ℕ
at_second n = (unix_epoch + 1_700_000_000 + n) * second

abbrev pub attacker : IpAddr
attacker = 203 ∷ 0 ∷ 113 ∷ 7 ∷ []

abbrev pub neighbour : IpAddr
neighbour = 203 ∷ 0 ∷ 113 ∷ 8 ∷ []

abbrev pub one_minute : BlockEntry
one_minute = record {
  expire_at = 60;
  action = 1;
  rule_id = 7;
  threat_score = 90;
  reason = reason_ai_verdict;
}

-- The circuit's state with the flag given.
abbrev pub circuit_state : ℕ → FailsafeState
circuit_state b = record {
  circuit_open = b;
  current_pps = 5;
  current_bps = 9;
  open_since_ns = 0;
  pps_threshold = 1_000;
  bps_threshold = 8_000;
  window_start_ns = 0;
}

-- Counters of so many packets.
abbrev pub packets : ℕ → MappedXdpStats
packets n = record zero_mapped { rx_packets = n }

abbrev pub world : ℕ → ℕ → World
world b n = record {
  blocked = [];
  circuit = circuit_state b;
  cold_path = zero_stats ∷ zero_stats ∷ [];
  hot_path = packets n ∷ packets n ∷ [];
}

abbrev pub manager_of : World → Manager World
manager_of w = record {
  world = w;
  rl = new_map_rate_limiter default_rate_limit_config (at_second 0);
  audit = record { file = []; event_ch = [] };
}

abbrev pub manager : Manager World
manager = manager_of (world 0 100)
