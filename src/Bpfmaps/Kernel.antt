-- ===== src/Bpfmaps/Kernel.antt =====
-- What the manager uses of the eBPF library: the maps that the kernel holds, as operations on a
-- state of the kernel, and their documented laws. A system call may fail, and then changes nothing.
use falx_v.Base.{◌⊎◌, ℕ, All, ◌≡◌, ◌≢◌, List, Option, none, some}
use falx_v.Bpfmaps.Types.{
  IpAddr, BlockEntry, RateBucket, XdpStats, MappedXdpStats, FailsafeState, FalxMapConfig,
}

-- Map.Lookup, Map.Update with UpdateAny, Map.Delete, and Map.Iterate run to its end.
pub record BpfMap (W K V : Type 0) : Type 0 where
  pub lookup : W → K → Option V
  pub update : W → K → V → Option W
  pub delete : W → K → Option W
  pub entries : W → Option (List (K × V))

pub record KernelMaps (W : Type 0) : Type 0 where
  pub blocklist_v4 : BpfMap W ℕ BlockEntry
  pub blocklist_v6 : BpfMap W IpAddr BlockEntry
  pub rate_limit_map : BpfMap W ℕ RateBucket
  pub failsafe_state : BpfMap W ℕ FailsafeState
  pub config_map : BpfMap W ℕ FalxMapConfig
  pub xsk_map : BpfMap W ℕ ℕ
  pub xdp_stats : W → Option (List XdpStats)
  pub mapped_stats : W → Option (List MappedXdpStats)

module _ {W K V : Type 0} where
  -- A key that was written is found with its value. Another key is as it was, or has been evicted,
  -- which a map of the LRU type may do to make room.
  pub record UpdateLaws (m : BpfMap W K V) : Type 0 where
    pub lookup-update :
        (w w' : W) (k : K) (v : V) → m.update w k v ≡ some w' → m.lookup w' k ≡ some v
    pub lookup-update_ne :
        (w w' : W) (k j : K) (v : V)
        → m.update w k v ≡ some w'
        → j ≢ k
        → (m.lookup w' j ≡ m.lookup w j) ⊎ (m.lookup w' j ≡ none)

  pub record DeleteLaws (m : BpfMap W K V) : Type 0 where
    pub lookup-delete : (w w' : W) (k : K) → m.delete w k ≡ some w' → m.lookup w' k ≡ none
    pub lookup-delete_ne :
        (w w' : W) (k j : K) → m.delete w k ≡ some w' → j ≢ k → m.lookup w' j ≡ m.lookup w j

  -- What an iteration yields is in the map.
  pub record EntriesLaws (m : BpfMap W K V) : Type 0 where
    pub lookup-entries :
        (w : W) (es : List (K × V))
        → m.entries w ≡ some es
        → All (λ p. m.lookup w p.0 ≡ some p.1) es
