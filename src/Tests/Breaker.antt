-- ===== src/Tests/Breaker.antt =====
-- The circuit breaker on a run of its operations, and the backoff.
use falx_v.Base.{◌≡◌, List, [], ◌∷◌, arith}
use falx_v.Failsafe.Reason.{absolute_pps, soc_manual}
use falx_v.Failsafe.Breaker.{new_circuit_breaker}
use falx_v.Failsafe.Breaker.Ops.{
  Op, trips, recovers, closes, re_trips, receives, run, openings, run-trip_count,
}
use falx_v.Failsafe.Breaker.Chain.{Tells, short-HasRoom, run-new-Tells}
use falx_v.Tests.Data.{at_second}

-- A flood, a failed probe, and a recovery.
abbrev ops : List Op
ops =
    trips (at_second 1) (soc_manual "drill") 5 9
    ∷ receives
    ∷ recovers (at_second 40) 1 1
    ∷ re_trips (at_second 41) absolute_pps 7 8
    ∷ recovers (at_second 120) 1 1
    ∷ closes (at_second 130) 0 0
    ∷ []

run-trip_count_example :
    (run new_circuit_breaker ops).trip_count
    ≡ openings new_circuit_breaker new_circuit_breaker.trip_count ops
run-trip_count_example = run-trip_count new_circuit_breaker ops

run-new-Tells_example : Tells (run new_circuit_breaker ops)
unfolding new_circuit_breaker
run-new-Tells_example = run-new-Tells ops (short-HasRoom new_circuit_breaker ops (omega arith))
