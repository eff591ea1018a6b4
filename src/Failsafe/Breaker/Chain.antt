-- ===== src/Failsafe/Breaker/Chain.antt =====
-- The transitions that wait in the channel of the circuit breaker.
use falx_v.Base.{◌+◌, ◌≤◌, ◌<◌, ◌≡◌, refl, ◌∙◌, List, [], ◌∷◌, ◌++◌, length, length-append, arith}
use falx_v.Failsafe.Breaker.{
  CircuitState, StateTransition, CircuitBreaker, transitions_cap, new_circuit_breaker, trip,
  attempt_recovery, close, re_trip, incr_violation, reset_violation, reset_trip_count, receive,
}
use falx_v.Failsafe.Breaker.Ops.{
  Op, trips, recovers, closes, re_trips, violates, clears_violations, clears_trips, receives, apply,
  run, ◌⟶◌, flood, probe, settle, relapse, force,
}

ruleset edges = (flood, probe, settle, relapse, force)

-- The transitions lead along edges of the diagram from the first state to the last.
abbrev pub Leads : CircuitState → List StateTransition → CircuitState → Type 0
Leads a [] b = a ≡ b
Leads a (t ∷ ts) b = (a ≡ t.from_state) × (t.from_state ⟶ t.to_state) × Leads t.to_state ts b

Leads-append :
    (a b : CircuitState) (ts : List StateTransition) (t : StateTransition)
    → Leads a ts b
    → b ≡ t.from_state
    → t.from_state ⟶ t.to_state
    → Leads a (ts ++ t ∷ []) t.to_state
Leads-append a b [] t h e m = (h ∙ e, m, refl)
Leads-append a b (u ∷ us) t h e m = (h.0, h.1, Leads-append u.to_state b us t h.2 e m)

-- The channel holds a path of the diagram that ends in the breaker's own state.
abbrev pub Tells : CircuitBreaker → Type 0
Tells cb = (a : CircuitState) × Leads a cb.transitions cb.state

receive-Tells :
    (cb : CircuitBreaker) (ts : List StateTransition)
    → cb.transitions ≡ ts
    → Tells cb
    → Tells (receive cb)
unfolding receive
receive-Tells cb [] e (a, l) = (a, ground arith)
receive-Tells cb (t ∷ ts) e (a, l) = (t.to_state, ground arith)

apply-Tells :
    (cb : CircuitBreaker) (op : Op)
    → length cb.transitions < transitions_cap
    → Tells cb
    → Tells (apply cb op).0
unfolding apply trip attempt_recovery close re_trip incr_violation reset_violation reset_trip_count
    receive
apply-Tells cb (trips now reason pps bps) h (a, l) = (a, grind (arith, edges, Leads-append))
apply-Tells cb (recovers now pps bps) h (a, l) = (a, grind (arith, edges, Leads-append))
apply-Tells cb (closes now pps bps) h (a, l) = (a, grind (arith, edges, Leads-append))
apply-Tells cb (re_trips now reason pps bps) h (a, l) = (a, grind (arith, edges, Leads-append))
apply-Tells cb (violates n) h t = t
apply-Tells cb clears_violations h t = t
apply-Tells cb clears_trips h t = t
apply-Tells cb receives h t = receive-Tells cb cb.transitions refl t

-- The channel has room whenever an operation comes.
abbrev pub HasRoom : CircuitBreaker → List Op → Type 0
HasRoom cb [] = Unit
HasRoom cb (op ∷ ops) = (length cb.transitions < transitions_cap) × HasRoom (apply cb op).0 ops

length-apply :
    (cb : CircuitBreaker) (op : Op) → length (apply cb op).0.transitions ≤ length cb.transitions + 1
unfolding apply trip attempt_recovery close re_trip incr_violation reset_violation reset_trip_count
    receive
length-apply cb op = grind (arith, length-append)

-- The channel has room for as many operations as places are left in it.
pub short-HasRoom :
    (cb : CircuitBreaker) (ops : List Op)
    → length cb.transitions + length ops ≤ transitions_cap
    → HasRoom cb ops
short-HasRoom cb [] h = tt
short-HasRoom cb (op ∷ ops) h =
    (omega arith, short-HasRoom (apply cb op).0 ops (omega (arith, length-apply cb op)))

run-Tells : (cb : CircuitBreaker) (ops : List Op) → HasRoom cb ops → Tells cb → Tells (run cb ops)
unfolding run
run-Tells cb [] room t = t
run-Tells cb (op ∷ ops) (h, room) t = run-Tells (apply cb op).0 ops room (apply-Tells cb op h t)

-- As long as the reader keeps up, so that the channel has room whenever an operation of a new breaker
-- comes, the reader finds a path of the state diagram in it, each transition starting where the one
-- before it ended, and the last one ending in the state that the breaker is in.
pub run-new-Tells :
    (ops : List Op) → HasRoom new_circuit_breaker ops → Tells (run new_circuit_breaker ops)
unfolding new_circuit_breaker
run-new-Tells ops room = run-Tells _ ops room (_, refl)
