-- ===== src/Bpfmaps/Manager/Merge.antt =====
-- The merged view of the per-CPU counters.
use falx_v.Base.{◌≤◌, min, ◌≡◌, refl, List, some, All, arith}
use falx_v.Bpfmaps.Types.{max_u64, XdpStats, MappedXdpStats, add_stats, add_mapped}
use falx_v.Bpfmaps.Types.Stats.{
  aggregate, aggregate-min, total, Cold, rate_limited, cold, cold-add_stats, Hot, rx_packets, hot,
  hot_merged, hot-add_mapped,
}
use falx_v.Bpfmaps.Kernel.{KernelMaps}
use falx_v.Bpfmaps.Manager.{Manager, zero_stats, zero_mapped, merged, read_stats}

cold-merged : (c : Cold) (h : MappedXdpStats) (s : XdpStats) → cold c (merged h s) ≡ cold c s
unfolding merged
cold-merged rate_limited h s = refl
cold-merged _ h s = refl

hot-merged : (c : Hot) (h : MappedXdpStats) (s : XdpStats) → hot_merged c (merged h s) ≡ hot c h
unfolding merged
hot-merged rx_packets h s = refl
hot-merged _ h s = refl

zero_cold : (c : Cold) → cold c zero_stats ≡ 0
zero_cold rate_limited = refl
zero_cold _ = refl

zero_hot : (c : Hot) → hot c zero_mapped ≡ 0
zero_hot rx_packets = refl
zero_hot _ = refl

module _ {W : Type 0} (K : KernelMaps W) where
  -- Each counter of the view is the sum over the CPUs of the map that it is written to, or the
  -- largest uint64 where that sum does not fit: the packet, byte, passed and dropped counters of
  -- the hot-path map, and the others of the cold-path map.
  pub read_stats-totals :
      (m : Manager W) (cs : List XdpStats) (hs : List MappedXdpStats)
      → K.xdp_stats m.world ≡ some cs
      → K.mapped_stats m.world ≡ some hs
      → ((c : Cold) → All (λ s. cold c s ≤ max_u64) cs)
      → ((c : Hot) → All (λ s. hot c s ≤ max_u64) hs)
      → (s : XdpStats) × (read_stats K m ≡ some s)
        × ((c : Cold) → cold c s ≡ min (total (cold c) cs) max_u64)
        × ((c : Hot) → hot_merged c s ≡ min (total (hot c) hs) max_u64)
  unfolding read_stats
  read_stats-totals m cs hs ec eh wc wh =
      let k = aggregate add_stats zero_stats cs in
      let h = aggregate add_mapped zero_mapped hs in
      (
        merged h k,
        rw (ec, read_stats) (rw eh),
        (λ c. omega (
          arith,
          cold-merged c h k,
          zero_cold c,
          aggregate-min add_stats (cold c) zero_stats cs (cold-add_stats c)
              (omega (arith, zero_cold c)) (wc c),
        )),
        λ c. omega (
          arith,
          hot-merged c h k,
          zero_hot c,
          aggregate-min add_mapped (hot c) zero_mapped hs (hot-add_mapped c)
              (omega (arith, zero_hot c)) (wh c),
        ),
      )
