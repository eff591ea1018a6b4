-- ===== src/Tests/Circuit.antt =====
-- Switching the circuit in the map, and its thresholds.
use falx_v.Base.{◌≡◌, refl, true, none}
use falx_v.Failsafe.Reason.{Reason, soc_manual}
use falx_v.Bpfmaps.RateLimiter.{check, allow, new_map_rate_limiter, new_token_bucket}
use falx_v.Bpfmaps.Manager.{
  Manager, read_failsafe_state, set_circuit_open, update_failsafe_thresholds,
}
use falx_v.Tests.World.{World, kernel, circuit_map}
use falx_v.Tests.Data.{at_second, manager}

abbrev manual : Reason
manual = soc_manual "drill"

abbrev opened_manager : Manager World
opened_manager = (set_circuit_open kernel manager (at_second 1) true manual).0

opened_ok : set_circuit_open kernel manager (at_second 1) true manual ≡ (opened_manager, none)
unfolding set_circuit_open read_failsafe_state kernel circuit_map check allow new_map_rate_limiter
opened_ok = refl

-- A limiter that has nothing left.
abbrev spent : Manager World
spent = record manager { rl = record (manager.rl) { failsafe = new_token_bucket 0 (at_second 1) } }

abbrev retuned : Manager World
retuned = (update_failsafe_thresholds kernel manager (at_second 1) 7 8).0

retuned_ok : update_failsafe_thresholds kernel manager (at_second 1) 7 8 ≡ (retuned, none)
unfolding update_failsafe_thresholds read_failsafe_state kernel circuit_map check allow
    new_map_rate_limiter
retuned_ok = refl
