-- ===== src/Bpfmaps/Types/Stats.antt =====
-- The saturating sums of the per-CPU counters.
use falx_v.Base.{ℕ, ◌+◌, ◌≤◌, min, ◌≡◌, List, [], ◌∷◌, refl, All, arith}
use falx_v.Bpfmaps.Types.{max_u64, safe_add, XdpStats, MappedXdpStats, add_stats, add_mapped}

safe_add-min : (a b : ℕ) → a ≤ max_u64 → b ≤ max_u64 → safe_add a b ≡ min (a + b) max_u64
unfolding safe_add
safe_add-min a b h k = ground arith

module _ {S : Type 0} (add : S → S → S) where
  -- `for _, s := range perCPU { acc = acc.Add(s) }`.
  unfoldable pub aggregate : S → List S → S
  aggregate acc [] = acc
  aggregate acc (s ∷ ss) = aggregate (add acc s) ss

abbrev pub total : {S : Type 0} → (S → ℕ) → List S → ℕ
total f [] = 0
total f (s ∷ ss) = f s + total f ss

module _ {S : Type 0} (add : S → S → S) (f : S → ℕ) where
  -- The aggregate of a counter that is added by `safe_add` is its exact sum over the CPUs, or the
  -- largest uint64 where the sum does not fit.
  pub aggregate-min :
      (acc : S) (ss : List S)
      → ((a b : S) → f (add a b) ≡ safe_add (f a) (f b))
      → f acc ≤ max_u64
      → All (λ s. f s ≤ max_u64) ss
      → f (aggregate add acc ss) ≡ min (f acc + total f ss) max_u64
  unfolding aggregate
  aggregate-min acc [] hom h w = omega arith
  aggregate-min acc (s ∷ ss) hom h w =
      let step = safe_add-min (f acc) (f s) h w.0 in
      omega (
        arith,
        aggregate-min (add acc s) ss hom (omega (arith, hom acc s, step)) w.1,
        hom acc s,
        step,
      )

-- The counters of the merged view that one per-CPU map holds.
pub data Cold : Type 0 where
  rate_limited redirected failsafe_drops parse_errors map_errors cooling_bans : Cold
  syn_flood_bans : Cold

abbrev pub cold : Cold → XdpStats → ℕ
cold rate_limited s = s.rate_limited
cold redirected s = s.redirected
cold failsafe_drops s = s.failsafe_drops
cold parse_errors s = s.parse_errors
cold map_errors s = s.map_errors
cold cooling_bans s = s.cooling_bans
cold syn_flood_bans s = s.syn_flood_bans

pub cold-add_stats :
    (c : Cold) (a b : XdpStats) → cold c (add_stats a b) ≡ safe_add (cold c a) (cold c b)
unfolding add_stats
cold-add_stats rate_limited a b = refl
cold-add_stats _ a b = refl

pub data Hot : Type 0 where
  rx_packets rx_bytes dropped passed : Hot

abbrev pub hot : Hot → MappedXdpStats → ℕ
hot rx_packets s = s.rx_packets
hot rx_bytes s = s.rx_bytes
hot dropped s = s.dropped
hot passed s = s.passed

abbrev pub hot_merged : Hot → XdpStats → ℕ
hot_merged rx_packets s = s.rx_packets
hot_merged rx_bytes s = s.rx_bytes
hot_merged dropped s = s.dropped
hot_merged passed s = s.passed

pub hot-add_mapped :
    (c : Hot) (a b : MappedXdpStats) → hot c (add_mapped a b) ≡ safe_add (hot c a) (hot c b)
unfolding add_mapped
hot-add_mapped rx_packets a b = refl
hot-add_mapped _ a b = refl
