-- ===== src/Bpfmaps/Hardening.antt =====
-- The hardened writer, control-plane/pkg/bpfmaps/hardening.go. One `now` stands for the clock
-- readings of one call. The rollback log is a list with the newest write first. The text of an
-- address, its parser, and the float product that gives the capacity limit are parameters.
pub mod Batch
pub mod Window
pub mod Single
pub mod Rollback
pub mod Restored
use Prim.Native.String.{String, ◌++◌ as append_text}
use Prim.Native.Nat.{bit_xor}
use text.Mathlib.Text.{◌==◌ as same_text}
use falx_v.Base.{
  ℕ, ◌+◌, ◌*◌, ◌%◌, ◌^◌, Bool, true, false, not, ◌&&◌, List, [], ◌∷◌, Option, none, some, ltb, leb,
  ◌==◌, if◌then◌else◌, length,
}
use falx_v.Base.Integers.{ℤ, pos, succ, pred, positive_or, reaches}
use falx_v.Bpfmaps.Types.{IpAddr, BlockEntry}
use falx_v.Bpfmaps.Kernel.{KernelMaps}
use falx_v.Bpfmaps.Audit.{MapError}
use falx_v.Bpfmaps.Manager.{Manager, block_ipv4, unblock_ipv4, is_blocked_ipv4}
use falx_v.Bpfmaps.Manager.More.{BlockDecision}

-- net.IP.String, net.ParseIP, and int64(float64(max) * 0.95).
pub record Texts : Type 0 where
  pub to_string : IpAddr → String
  pub parse_ip : String → Option IpAddr
  pub percent_95 : ℕ → ℕ

pub record HardenedWriter (W : Type 0) : Type 0 where
  pub mgr : Manager W
  pub dedup_cache : List (String × ℕ)
  pub window_count : ℕ
  pub window_reset : ℕ
  pub window_max_ops : ℕ
  pub blocklist_v4_count : ℤ
  pub blocklist_v4_max : ℕ
  pub dedupe_hits : ℕ
  pub window_drops : ℕ
  pub capacity_drop : ℕ
  pub batch_commits : ℕ
  pub batch_rollbacks : ℕ

pub data WriteError : Type 0 where
  window_exceeded capacity_reached : WriteError
  batch_exceeds_window : ℕ → WriteError
  write_failed : MapError → WriteError
  batch_failed : IpAddr → MapError → ℕ → WriteError

abbrev pub window_length : ℕ
window_length = 100_000_000

abbrev pub wrap64 : ℕ → ℕ
wrap64 n = n % 2 ^ 64

-- FNV-1a over the action, rule, score and reason.
unfoldable pub entry_fingerprint : BlockEntry → ℕ
entry_fingerprint e =
    let h₀ : ℕ = 14_695_981_039_346_656_037 in
    let h₁ = wrap64 (bit_xor h₀ e.action * 1_099_511_628_211) in
    let h₂ = wrap64 (bit_xor h₁ e.rule_id * 1_099_511_628_211) in
    let h₃ = wrap64 (bit_xor h₂ e.threat_score * 1_099_511_628_211) in
    wrap64 (bit_xor h₃ e.reason * 1_099_511_628_211)

-- The operations of the cache's map.
unfoldable pub cached : List (String × ℕ) → String → Option ℕ
cached [] key = none
cached ((k, v) ∷ c) key = if same_text k key then some v else cached c key

unfoldable pub uncache : List (String × ℕ) → String → List (String × ℕ)
uncache [] key = []
uncache ((k, v) ∷ c) key =
    let rest = uncache c key in if same_text k key then rest else (k, v) ∷ rest

unfoldable pub cache : List (String × ℕ) → String → ℕ → List (String × ℕ)
cache c key v = (key, v) ∷ uncache c key

abbrev pub is_some_of : Option ℕ → ℕ → Bool
is_some_of none v = false
is_some_of (some u) v = u == v

abbrev pub is_found : Option ℕ → Bool
is_found none = false
is_found (some _) = true

unfoldable pub new_hardened_writer : {W : Type 0} → Manager W → ℤ → ℤ → ℕ → HardenedWriter W
new_hardened_writer mgr max_ops_per_window max_entries now = record {
  mgr = mgr;
  dedup_cache = [];
  window_count = 0;
  window_reset = now;
  window_max_ops = positive_or 1000 max_ops_per_window;
  blocklist_v4_count = pos 0;
  blocklist_v4_max = positive_or 65536 max_entries;
  dedupe_hits = 0;
  window_drops = 0;
  capacity_drop = 0;
  batch_commits = 0;
  batch_rollbacks = 0;
}

module _ {W : Type 0} where
  -- A window that has ended is followed by a new one.
  unfoldable pub refreshed : HardenedWriter W → ℕ → HardenedWriter W
  refreshed h now =
      if ltb h.window_reset now
      then record h { window_count = 0; window_reset = now + window_length }
      else h

  unfoldable pub check_window : HardenedWriter W → ℕ → HardenedWriter W × Bool
  check_window h now =
      let h' = refreshed h now in
      if leb h'.window_max_ops h'.window_count
      then (h', false)
      else (record h' { window_count = h'.window_count + 1 }, true)

  -- What a write that succeeded leaves in the cache and the counter.
  unfoldable pub remember : HardenedWriter W → String → ℕ → HardenedWriter W
  remember h key fingerprint = record h {
    blocklist_v4_count =
        if is_found (cached h.dedup_cache key)
        then h.blocklist_v4_count
        else succ h.blocklist_v4_count;
    dedup_cache = cache h.dedup_cache key fingerprint;
  }

  module _ (K : KernelMaps W) (T : Texts) where
    -- The write through to the manager, once the checks are passed.
    unfoldable pub write_through :
        HardenedWriter W → ℕ → IpAddr → BlockEntry → String → HardenedWriter W × Option WriteError
    write_through h now ip entry actor =
        let (mgr', err) = block_ipv4 K h.mgr now ip entry actor in
        elim err [
          | none ↦
              (remember (record h { mgr = mgr' }) (T.to_string ip) (entry_fingerprint entry), none)
          | some e ↦ (record h { mgr = mgr' }, some (write_failed e))
        ]

    unfoldable pub hardened_block_ipv4 :
        HardenedWriter W → ℕ → IpAddr → BlockEntry → String → HardenedWriter W × Option WriteError
    unfolding write_through check_window
    hardened_block_ipv4 h now ip entry actor =
        let hit = is_some_of (cached h.dedup_cache (T.to_string ip)) (entry_fingerprint entry) in
        let (h', allowed) = check_window h now in
        if hit
        then (record h { dedupe_hits = wrap64 (h.dedupe_hits + 1) }, none)
        else if not allowed
        then (record h' { window_drops = wrap64 (h'.window_drops + 1) }, some window_exceeded)
        else if reaches h'.blocklist_v4_count (T.percent_95 h'.blocklist_v4_max)
        then (record h' { capacity_drop = wrap64 (h'.capacity_drop + 1) }, some capacity_reached)
        else write_through h' now ip entry actor
