-- ===== src/Tests/Engine.antt =====
-- The engine through a flood, the operator's override, and recovery.
use falx_v.Base.{ℕ, ◌+◌, ◌≤◌, ◌≡◌, ◌≢◌, refl, ◌↔◌, true, false, not, [], ◌∷◌, none, some, arith}
use falx_v.Bpfmaps.Types.{XdpStats, add_mapped, add_stats, safe_add}
use falx_v.Bpfmaps.Types.Stats.{aggregate}
use falx_v.Failsafe.Latch.{is_active, file_active}
use falx_v.Failsafe.Detector.{
  analyze, check_absolute, new_detector, build_sample, check_drop_ratio, check_parse_errors,
}
use falx_v.Bpfmaps.RateLimiter.{check, allow, new_map_rate_limiter}
use falx_v.Bpfmaps.Manager.{read_stats, read_failsafe_state, set_circuit_open, zero_stats}
use falx_v.Bpfmaps.Manager.Circuit.{flag}
use falx_v.Failsafe.Reason.{soc_manual}
use falx_v.Failsafe.Breaker.{trip, new_circuit_breaker, state_closed, state_open, is_closed}
use falx_v.Failsafe.Recovery.{default_recovery_config, cooldown_for}
use falx_v.Failsafe.Engine.{publish_transition, Engine, new_engine, override_force_close, tick}
use falx_v.Failsafe.Engine.Override.{apply_override, force_open, handle_override}
use falx_v.Failsafe.Engine.Agreement.{kernel_flag}
use falx_v.Failsafe.Engine.Runs.{handles, opens, Run, start, acts, intrudes, Run-new_engine-Agrees}
use falx_v.Failsafe.Engine.Ticks.{suppressed, reported, ticks, tick-opens_iff, ticks-closed}
use falx_v.Failsafe.Engine.Holds.{force_close-ticks}
use falx_v.Failsafe.Engine.Probe.{ticks-recover, ticks-relapse}
use falx_v.Tests.World.{World, kernel, circuit_map, circuit_map-UpdateLaws, whole}
use falx_v.Tests.Data.{at_second, circuit_state, world, manager}
use falx_v.Tests.Detector.{config, seen_one}

abbrev fresh : Engine World ℕ
fresh = record (new_engine kernel whole config default_recovery_config manager none) {
  detector = seen_one;
}

-- A closed circuit after two violations.
abbrev tense : Engine World ℕ
tense = record fresh { cb = record new_circuit_breaker { violations = 2 } }

-- The merged counters of the world with `n` packets on each of two CPUs.
abbrev two_cpus : ℕ → XdpStats
two_cpus n = record zero_stats { rx_packets = n + n }

tick-opens_iff_example :
    (tick kernel whole tense (at_second 1)).cb.state ≡ state_open
    ↔ (reported kernel whole tense (two_cpus 100) (at_second 1) ≢ [])
      × (tense.consecutive_violations ≤ tense.cb.violations + 1)
unfolding read_stats kernel aggregate new_engine circuit_map add_mapped add_stats safe_add
    new_circuit_breaker suppressed is_active file_active
tick-opens_iff_example =
    tick-opens_iff kernel whole tense (two_cpus 100) (at_second 1) refl refl refl

ticks-closed_example :
    (ticks kernel whole fresh
      ((at_second 1, world 0 9_000) ∷ (at_second 2, world 0 90_000) ∷ [])).cb.state
    ≡ state_closed
unfolding new_engine kernel circuit_map new_circuit_breaker
ticks-closed_example =
    ticks-closed kernel whole fresh
      ((at_second 1, world 0 9_000) ∷ (at_second 2, world 0 90_000) ∷ []) refl (omega arith)

force_close-ticks_example :
    (ticks kernel whole
      (apply_override kernel whole fresh
        (at_second 1)
        false
        (override_force_close (soc_manual "drill")))
      ((at_second 2, world 0 9_000) ∷ (at_second 200, world 0 90_000) ∷ [])).cb.state
    ≡ state_closed
force_close-ticks_example =
    force_close-ticks kernel whole fresh (at_second 1) false (soc_manual "drill")
      ((at_second 2, world 0 9_000) ∷ (at_second 200, world 0 90_000) ∷ [])
      (omega arith, (omega arith, _))

-- Open since second 0, after one trip.
abbrev flooded : Engine World ℕ
flooded = record fresh {
  cb = record new_circuit_breaker { state = state_open; opened_at = at_second 0; trip_count = 1 };
}

ticks-recover_example :
    (ticks kernel whole flooded
      ((at_second 60, world 1 100) ∷ (at_second 120, world 1 100) ∷ [])).cb.state
    ≡ state_closed
unfolding cooldown_for read_stats kernel aggregate new_engine circuit_map add_mapped add_stats
    safe_add new_circuit_breaker reported analyze check_absolute new_detector build_sample whole
    check_drop_ratio check_parse_errors
ticks-recover_example =
    ticks-recover kernel whole flooded (at_second 60) (at_second 120) (world 1 100) (world 1 100)
      (two_cpus 100) (two_cpus 100) refl (omega arith) refl refl refl (omega arith)

ticks-relapse_example :
    let after =
      ticks kernel whole flooded
        ((at_second 60, world 1 100) ∷ (at_second 61, world 1 900_000) ∷ []) in
    (after.cb.state ≡ state_open)
    × (after.cb.opened_at ≡ at_second 61)
    × (after.cb.trip_count ≡ flooded.cb.trip_count + 1)
unfolding cooldown_for read_stats kernel aggregate new_engine circuit_map add_mapped add_stats
    safe_add new_circuit_breaker reported analyze check_absolute new_detector build_sample whole
    check_drop_ratio check_parse_errors
ticks-relapse_example =
    ticks-relapse kernel whole flooded (at_second 60) (at_second 61) (world 1 100) (world 1 900_000)
      (two_cpus 100) (two_cpus 900_000) refl (omega arith) refl refl (λ e. cc e)

abbrev engine : Engine World ℕ
engine = new_engine kernel whole config default_recovery_config manager none

abbrev ordered : Engine World ℕ
ordered = (force_open engine "drill").0

-- The flag is set by another process before the command is taken.
abbrev intruded : Engine World ℕ
intruded = record ordered { mgr = record manager { world = world 1 100 } }

abbrev obeyed : Engine World ℕ
obeyed = handle_override kernel whole intruded (at_second 1) true

obeyed-Run : Run kernel whole engine obeyed false
unfolding new_engine force_open kernel circuit_map handle_override apply_override set_circuit_open
    check allow trip new_circuit_breaker publish_transition new_map_rate_limiter
obeyed-Run =
    acts (intrudes (acts start (opens "drill") refl) (record manager { world = world 1 100 }))
      (handles (at_second 1) true) refl

Run-new_engine-Agrees_example :
    kernel_flag kernel whole obeyed.mgr.world ≡ some (flag (not (is_closed obeyed.cb.state)))
unfolding kernel circuit_map read_failsafe_state
Run-new_engine-Agrees_example =
    Run-new_engine-Agrees kernel whole circuit_map-UpdateLaws config default_recovery_config manager
      none (circuit_state 0) obeyed refl (omega arith) obeyed-Run
