-- ===== src/Tests/Counters.antt =====
-- The counters and the limiter.
use falx_v.Base.{min, ◌≡◌, refl, some, arith}
use falx_v.Bpfmaps.Types.{max_u64, XdpStats}
use falx_v.Bpfmaps.Types.Stats.{total, Cold, cold, Hot, hot, hot_merged}
use falx_v.Bpfmaps.Manager.{read_stats}
use falx_v.Bpfmaps.Manager.Merge.{read_stats-totals}
use falx_v.Tests.World.{kernel}
use falx_v.Tests.Data.{manager}

read_stats-totals_example :
    (s : XdpStats) × (read_stats kernel manager ≡ some s)
    × ((c : Cold) → cold c s ≡ min (total (cold c) manager.world.cold_path) max_u64)
    × ((c : Hot) → hot_merged c s ≡ min (total (hot c) manager.world.hot_path) max_u64)
unfolding kernel
read_stats-totals_example =
    read_stats-totals kernel manager manager.world.cold_path manager.world.hot_path refl refl
      (λ c. ground arith) (λ c. ground arith)
