-- ===== src/Failsafe/Breaker/Ops.antt =====
-- The methods of the circuit breaker as one set of operations, and sequences of them.
use falx_v.Failsafe.Reason.{Algorithm, Reason}
use falx_v.Base.{
  ℕ, ◌+◌, ◌≡◌, refl, ◌⊎◌, Bool, true, false, List, [], ◌∷◌, if◌then◌else◌, not, ◌&&◌, arith,
}
use falx_v.Failsafe.Breaker.{
  CircuitState, state_closed, state_open, state_half_open, CircuitBreaker, is_open, trip,
  attempt_recovery, close, re_trip, incr_violation, reset_violation, reset_trip_count, receive,
}

pub data Op : Type 0 where
  trips : ℕ → Reason → ℕ → ℕ → Op
  recovers closes : ℕ → ℕ → ℕ → Op
  re_trips : ℕ → Algorithm → ℕ → ℕ → Op
  violates : ℕ → Op
  clears_violations clears_trips receives : Op

-- The operation's new state, and whether it reports a transition.
unfoldable pub apply : CircuitBreaker → Op → CircuitBreaker × Bool
apply cb (trips now reason pps bps) = trip cb now reason pps bps
apply cb (recovers now pps bps) = attempt_recovery cb now pps bps
apply cb (closes now pps bps) = close cb now pps bps
apply cb (re_trips now reason pps bps) = re_trip cb now reason pps bps
apply cb (violates threshold) = ((incr_violation cb threshold).0, false)
apply cb clears_violations = (reset_violation cb, false)
apply cb clears_trips = (reset_trip_count cb, false)
apply cb receives = (receive cb, false)

unfoldable pub run : CircuitBreaker → List Op → CircuitBreaker
run cb [] = cb
run cb (op ∷ ops) = run (apply cb op).0 ops

-- The edges of the state diagram. `force` is the operator's close of an open circuit.
infix 40 ◌⟶◌
pub data ◌⟶◌ : CircuitState → CircuitState → Type 0 where
  flood : state_closed ⟶ state_open
  probe : state_open ⟶ state_half_open
  settle : state_half_open ⟶ state_closed
  relapse : state_half_open ⟶ state_open
  force : state_open ⟶ state_closed

ruleset edges = (flood, probe, settle, relapse, force)

-- An operation that reports a transition follows an edge of the diagram, and one that does not
-- leaves the state as it was.
pub apply-edge :
    (cb : CircuitBreaker) (op : Op)
    → (((apply cb op).1 ≡ true) × (cb.state ⟶ (apply cb op).0.state))
      ⊎ (((apply cb op).1 ≡ false) × ((apply cb op).0.state ≡ cb.state))
unfolding apply trip attempt_recovery close re_trip incr_violation reset_violation reset_trip_count
    receive
apply-edge cb (trips now reason pps bps) = grind (arith, edges)
apply-edge cb op = grind (arith, edges)

abbrev is_clear : Op → Bool
is_clear clears_trips = true
is_clear _ = false

-- The openings of the circuit that the operations make, counted on from `n`; the count starts
-- again at a reset.
pub openings : CircuitBreaker → ℕ → List Op → ℕ
openings cb n [] = n
openings cb n (op ∷ ops) =
    openings (apply cb op).0
      (if is_clear op
        then 0
        else if is_open (apply cb op).0.state && not (is_open cb.state)
        then n + 1
        else n)
      ops

apply-trip_count :
    (cb : CircuitBreaker) (op : Op)
    → (apply cb op).0.trip_count ≡ (
        if is_clear op
        then 0
        else if is_open (apply cb op).0.state && not (is_open cb.state)
        then cb.trip_count + 1
        else cb.trip_count)
unfolding apply trip attempt_recovery close re_trip incr_violation reset_violation reset_trip_count
    receive
apply-trip_count cb op = ground arith

-- The trip counter is the number of times that the circuit went into the open state since the
-- counter was last reset, on top of its value at the start.
pub run-trip_count :
    (cb : CircuitBreaker) (ops : List Op) → (run cb ops).trip_count ≡ openings cb cb.trip_count ops
unfolding run openings
run-trip_count cb [] = refl
run-trip_count cb (op ∷ ops) = rw (← apply-trip_count cb op) (run-trip_count (apply cb op).0 ops)
