-- ===== src/Failsafe/Reason.antt =====
-- The algorithm names and reason texts of control-plane/internal/failsafe, as data: a text built
-- by a format is kept as its format and the values printed.
use Prim.Native.String.{String}
use falx_v.Base.{ℕ}

-- The detection algorithms that a reason names.
pub data Algorithm : Type 0 where
  absolute_pps absolute_bps rate_spike drop_ratio parse_error_spike : Algorithm

-- The reason texts of the package, by their formats and the numbers printed.
pub data Reason : Type 0 where
  exceeds : Algorithm → ℕ → ℕ → Reason
  above_baseline : ℕ → String → String → String → Reason
  drop_ratio_exceeds : String → String → ℕ → ℕ → Reason
  parse_errors_exceed : String → String → Reason
  cooldown_expired traffic_normalized : Reason
  recovery_failed : Algorithm → Reason
  soc_manual : String → Reason
  threshold_update : ℕ → ℕ → Reason
