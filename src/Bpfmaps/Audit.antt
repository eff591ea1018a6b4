-- ===== src/Bpfmaps/Audit.antt =====
-- The audit trail, control-plane/pkg/bpfmaps/audit.go: what is written to the log file, oldest
-- first, and what waits in the SOC channel. A failed write of the file is only logged there, and
-- is not modelled; an event whose fields are set by the caller keeps them as arguments.
use Prim.Native.String.{String}
use falx_v.Base.{ℕ, Bool, List, [], ◌∷◌, ◌++◌, Option, ltb, if◌then◌else◌, length}
use falx_v.Failsafe.Reason.{Reason}
use falx_v.Bpfmaps.Types.{IpAddr, BlockEntry}
use falx_v.Bpfmaps.RateLimiter.{MapOpType}

-- The errors of the manager's operations.
pub data MapError : Type 0 where
  rate_limited : MapOpType → MapError
  invalid_ipv4 invalid_ipv6 lookup_failed update_failed delete_failed iterate_failed : MapError

pub data AuditEvent : Type 0 where
  block_ip : IpAddr → BlockEntry → String → Option MapError → AuditEvent
  unblock_ip : IpAddr → String → Option MapError → AuditEvent
  circuit_breaker : Bool → ℕ → Reason → AuditEvent
  config_update : String → Option MapError → AuditEvent

pub record AuditLogger : Type 0 where
  pub file : List (ℕ × AuditEvent)
  pub event_ch : List (ℕ × AuditEvent)

abbrev pub event_ch_cap : ℕ
event_ch_cap = 4096

-- `Log`, at time `now`.
unfoldable pub log : AuditLogger → ℕ → AuditEvent → AuditLogger
log a now ev = record a {
  file = a.file ++ (now, ev) ∷ [];
  event_ch =
      if ltb (length a.event_ch) event_ch_cap then a.event_ch ++ (now, ev) ∷ [] else a.event_ch;
}
