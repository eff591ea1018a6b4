-- ===== src/Control/Amnesty.antt =====
-- The sweep of stale entries, control-plane/control/failsafe.go. The two kernel maps are parameters,
-- each on a state of its own; an iteration yields entries and whether it ended in an error.
pub mod Kept
use falx_v.Base.{
  ℕ, ◌+◌, ◌-◌, ◌*◌, ◌%◌, ◌^◌, ◌≡◌, ◌≢◌, Bool, true, false, not, ◌&&◌, List, [], ◌∷◌, Option, none,
  some, All, ltb, leb, ◌==◌, if◌then◌else◌,
}
use falx_v.Base.Time.{unix}

pub record SweepMap (W V : Type 0) : Type 0 where
  pub lookup : W → ℕ → Option V
  pub delete : W → ℕ → Option W
  pub items : W → List (ℕ × V) × Bool

-- A deletion leaves the other keys, and an iteration yields what is in the map.
pub record SweepLaws {W V : Type 0} (m : SweepMap W V) : Type 0 where
  pub lookup-delete_ne :
      (w w' : W) (k j : ℕ) → m.delete w k ≡ some w' → j ≢ k → m.lookup w' j ≡ m.lookup w j
  pub lookup-items : (w : W) → All (λ p. m.lookup w p.0 ≡ some p.1) (m.items w).0

pub record SweepBlockEntry : Type 0 where
  pub expire_at : ℕ
  pub action : ℕ
  pub rule_id : ℕ
  pub threat_score : ℕ
  pub reason : ℕ

pub record SweepCoolingEntry : Type 0 where
  pub repeat_count : ℕ
  pub last_ban_at_ns : ℕ

abbrev pub max_cooling_ban_ns : ℕ
max_cooling_ban_ns = 655_360 * 1_000_000_000

pub record SweepStats : Type 0 where
  pub blocklist_purged : ℕ
  pub cooling_purged : ℕ
  pub sweep_errors : ℕ
  pub total_sweeps : ℕ
  pub last_sweep_at : ℕ
  pub last_sweep_elapsed : ℕ

unfoldable pub is_stale_block : ℕ → SweepBlockEntry → Bool
is_stale_block now_s val = not (val.expire_at == 0) && leb val.expire_at now_s

unfoldable pub is_stale_cooling : ℕ → SweepCoolingEntry → Bool
is_stale_cooling now_ns val =
    ltb 0 val.last_ban_at_ns
    && ltb val.last_ban_at_ns now_ns
    && ltb max_cooling_ban_ns (now_ns - val.last_ban_at_ns)

-- The first pass: the keys of the stale entries.
unfoldable pub stale_keys : {V : Type 0} → (V → Bool) → List (ℕ × V) → List ℕ
stale_keys stale [] = []
stale_keys stale ((k, v) ∷ es) =
    let rest = stale_keys stale es in if stale v then k ∷ rest else rest

module _ {W V : Type 0} (m : SweepMap W V) where
  -- The second pass, with the counts of purged entries and of errors.
  unfoldable pub delete_stale : W → ℕ → ℕ → List ℕ → W × ℕ × ℕ
  delete_stale w purged errs [] = (w, purged, errs)
  delete_stale w purged errs (k ∷ ks) = elim (m.delete w k) [
    | some w' ↦ delete_stale w' (purged + 1) errs ks
    | none ↦ delete_stale w purged (errs + 1) ks
  ]

  unfoldable pub sweep_map : W → (V → Bool) → W × ℕ × ℕ
  sweep_map w stale =
      let (items, failed) = m.items w in
      delete_stale w 0 (if failed then 1 else 0) (stale_keys stale items)

unfoldable pub sweep_blocklist : {W : Type 0} → SweepMap W SweepBlockEntry → W → ℕ → W × ℕ × ℕ
sweep_blocklist m w now_s = sweep_map m w (is_stale_block now_s)

unfoldable pub sweep_cooling : {W : Type 0} → SweepMap W SweepCoolingEntry → W → ℕ → W × ℕ × ℕ
sweep_cooling m w now_ns = sweep_map m w (is_stale_cooling now_ns)

pub record AmnestySweeper (W U : Type 0) : Type 0 where
  pub blocklist_v4 : W
  pub cooling_tracker : U
  pub stats : SweepStats

abbrev counted : ℕ → ℕ
counted n = n % 2 ^ 64

-- One pass: `now_ns` is the monotonic clock, and `elapsed` the time that the pass took.
unfoldable pub sweep :
    {W U : Type 0}
    → SweepMap W SweepBlockEntry
    → SweepMap U SweepCoolingEntry
    → AmnestySweeper W U
    → ℕ
    → ℕ
    → ℕ
    → AmnestySweeper W U
sweep m c s start now_ns elapsed =
    let (w, bl_purged, bl_errs) = sweep_blocklist m s.blocklist_v4 (unix start) in
    let (u, cl_purged, cl_errs) = sweep_cooling c s.cooling_tracker now_ns in
    record {
      blocklist_v4 = w;
      cooling_tracker = u;
      stats = record {
        blocklist_purged = counted (s.stats.blocklist_purged + bl_purged);
        cooling_purged = counted (s.stats.cooling_purged + cl_purged);
        sweep_errors = counted (s.stats.sweep_errors + (bl_errs + cl_errs));
        total_sweeps = counted (s.stats.total_sweeps + 1);
        last_sweep_at = start;
        last_sweep_elapsed = elapsed;
      };
    }
