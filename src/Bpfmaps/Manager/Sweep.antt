-- ===== src/Bpfmaps/Manager/Sweep.antt =====
-- The sweep of expired entries, control-plane/pkg/bpfmaps/manager.go and expiry.go.
pub mod Views
use falx_v.Base.{ℕ, ◌+◌, Bool, true, false, List, [], ◌∷◌, Option, none, some, if◌then◌else◌}
use falx_v.Base.Time.{unix}
use falx_v.Bpfmaps.Types.{BlockEntry}
use falx_v.Bpfmaps.Kernel.{BpfMap, KernelMaps}
use falx_v.Bpfmaps.Audit.{MapError, iterate_failed}
use falx_v.Bpfmaps.Manager.{Manager, has_expired}

module _ {W Key : Type 0} (m : BpfMap W Key BlockEntry) where
  -- The keys whose entries have run out, in the order of the iteration.
  unfoldable pub to_delete : ℕ → List (Key × BlockEntry) → List Key
  to_delete now_sec [] = []
  to_delete now_sec ((k, e) ∷ es) =
      let rest = to_delete now_sec es in if has_expired e now_sec then k ∷ rest else rest

  -- A deletion that fails is passed over.
  unfoldable pub delete_all : W → ℕ → List Key → W × ℕ
  delete_all w removed [] = (w, removed)
  delete_all w removed (k ∷ ks) = elim (m.delete w k) [
    | none ↦ delete_all w removed ks
    | some w' ↦ delete_all w' (removed + 1) ks
  ]

  unfoldable pub sweep_blocklist : W → ℕ → ℕ → W × ℕ × Option MapError
  sweep_blocklist w now_sec removed = elim (m.entries w) [
    | none ↦ (w, removed, some iterate_failed)
    | some es ↦
        let (w', removed') = delete_all w removed (to_delete now_sec es) in (w', removed', none)
  ]

-- The daemon's sweep over both maps; an error of either is only logged.
unfoldable pub sweep : {W : Type 0} → KernelMaps W → Manager W → ℕ → Manager W × ℕ
unfolding sweep_blocklist
sweep K m now =
    let (w, removed, _) = sweep_blocklist K.blocklist_v4 m.world (unix now) 0 in
    let (w', removed', _) = sweep_blocklist K.blocklist_v6 w (unix now) removed in
    (record m { world = w' }, removed')
