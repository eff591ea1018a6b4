-- ===== src/Failsafe/Recovery.antt =====
-- The recovery manager, control-plane/internal/failsafe/recovery.go. A time.Duration is a number
-- of nanoseconds; the configured durations are not negative.
pub mod Backoff
use falx_v.Base.Time.{second}
use falx_v.Base.{
  ℕ, zero, suc, ◌+◌, ◌-◌, ◌*◌, ◌/◌, ◌^◌, min, Bool, true, false, leb, ltb, ◌==◌, if◌then◌else◌, not,
  ◌&&◌,
}

pub record RecoveryConfig : Type 0 where
  pub base_cooldown : ℕ
  pub max_cooldown : ℕ
  pub backoff_reset_after : ℕ
  pub half_open_probe_window : ℕ

abbrev pub default_recovery_config : RecoveryConfig
default_recovery_config = record {
  base_cooldown = 30 * second;
  max_cooldown = 3600 * second;
  backoff_reset_after = 300 * second;
  half_open_probe_window = 5 * second;
}

-- int(math.Log2(x)) for x ≥ 1, which depends on the whole part of x only. The fuel is the number
-- of halvings allowed.
unfoldable pub log2 : ℕ → ℕ → ℕ
log2 zero n = 0
log2 (suc f) n = elim (ltb n 2) [ true ↦ 0 | false ↦ suc (log2 f (n / 2)) ]

-- Whole numbers of nanoseconds stand for the float64 values: a product with a power of two is
-- exact, and the quotient only goes through `log2`. A product above the int64 range is above
-- `max_cooldown` here, as its conversion is negative or the largest int64 there.
unfoldable pub cooldown_for : RecoveryConfig → ℕ → ℕ
cooldown_for cfg trip_count =
    if leb trip_count 1
    then cfg.base_cooldown
    else if ltb cfg.max_cooldown cfg.base_cooldown
    then cfg.base_cooldown
    else (let mult = cfg.max_cooldown / cfg.base_cooldown in
        let max_shift = log2 mult mult + 1 in
        let shift = if ltb max_shift (trip_count - 1) then max_shift else trip_count - 1 in
        let d = cfg.base_cooldown * 2 ^ shift in
        if ltb cfg.max_cooldown d then cfg.max_cooldown else d)

-- time.Since(t) >= d, which stands for every t.
unfoldable pub should_attempt_recovery : RecoveryConfig → ℕ → ℕ → ℕ → Bool
should_attempt_recovery cfg opened_at trip_count now =
    leb (opened_at + cooldown_for cfg trip_count) now

unfoldable pub should_reset_backoff : RecoveryConfig → ℕ → ℕ → Bool
should_reset_backoff cfg last_closed_at now =
    not (last_closed_at == 0) && leb (last_closed_at + cfg.backoff_reset_after) now

unfoldable pub half_open_expired : RecoveryConfig → ℕ → ℕ → Bool
half_open_expired cfg half_open_at now = leb (half_open_at + cfg.half_open_probe_window) now
