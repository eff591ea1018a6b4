-- ===== src/Failsafe/Latch.antt =====
-- The admin override latch, control-plane/internal/failsafe/engine.go: an in-process latch, and
-- the sentinel file of the SOC process, given by the time of its last change.
use falx_v.Base.{ℕ, ◌+◌, ◌*◌, Bool, true, false, Option, none, some, ltb, if◌then◌else◌}
use falx_v.Base.Time.{minute}

pub record AdminOverrideLatch : Type 0 where
  pub active : Bool
  pub until : ℕ

abbrev pub admin_override_cooldown : ℕ
admin_override_cooldown = 5 * minute

unfoldable pub arm : AdminOverrideLatch → ℕ → ℕ → AdminOverrideLatch
arm l now d = record { active = true; until = now + d }

unfoldable pub clear : AdminOverrideLatch → AdminOverrideLatch
clear l = record { active = false; until = 0 }

-- A latch that has run out is switched off.
unfoldable pub is_active : AdminOverrideLatch → ℕ → AdminOverrideLatch × Bool
is_active l now =
    if l.active
    then (if ltb l.until now then (record l { active = false }, false) else (l, true))
    else (l, false)

-- time.Since(modTime) < adminOverrideCooldown; `none` is a file that os.Stat does not find.
unfoldable pub file_active : Option ℕ → ℕ → Bool
file_active none now = false
file_active (some changed) now = ltb now (changed + admin_override_cooldown)
