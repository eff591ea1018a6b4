-- ===== src/Failsafe/Breaker.antt =====
-- The circuit breaker, control-plane/internal/failsafe/state.go. A method of *CircuitBreaker
-- returns the new record; the mutex makes each method one step. A time.Time is a number of
-- nanoseconds since Go's zero time, and `now` is what time.Now() gives in the call.
pub mod Ops
pub mod Chain
use Prim.Native.String.{String}
use falx_v.Failsafe.Reason.{
  Algorithm, Reason, cooldown_expired, traffic_normalized, recovery_failed,
}
use falx_v.Base.{
  ℕ, ◌+◌, ◌-◌, Bool, true, false, List, [], ◌∷◌, ◌++◌, leb, ltb, if◌then◌else◌, length,
}

pub data CircuitState : Type 0 where
  state_closed state_open state_half_open : CircuitState

pub CircuitState-discrete : Discrete CircuitState
CircuitState-discrete = hlevel

unfoldable pub state_string : CircuitState → String
state_string state_closed = "CLOSED"
state_string state_open = "OPEN"
state_string state_half_open = "HALF_OPEN"

abbrev pub is_closed : CircuitState → Bool
is_closed state_closed = true
is_closed _ = false

abbrev pub is_open : CircuitState → Bool
is_open state_open = true
is_open _ = false

abbrev pub is_half_open : CircuitState → Bool
is_half_open state_half_open = true
is_half_open _ = false

pub record StateTransition : Type 0 where
  pub from_state : CircuitState
  pub to_state : CircuitState
  pub at : ℕ
  pub reason : Reason
  pub current_pps : ℕ
  pub current_bps : ℕ
  pub trip_count : ℕ

-- `transitions` is the content of the buffered channel, oldest first.
pub record CircuitBreaker : Type 0 where
  pub state : CircuitState
  pub opened_at : ℕ
  pub half_open_at : ℕ
  pub last_closed_at : ℕ
  pub trip_count : ℕ
  pub violations : ℕ
  pub transitions : List StateTransition

-- The buffer of the channel.
abbrev pub transitions_cap : ℕ
transitions_cap = 256

unfoldable pub new_circuit_breaker : CircuitBreaker
new_circuit_breaker = record {
  state = state_closed;
  opened_at = 0;
  half_open_at = 0;
  last_closed_at = 0;
  trip_count = 0;
  violations = 0;
  transitions = [];
}

-- A send that finds the channel full is dropped.
unfoldable pub emit : CircuitBreaker → StateTransition → CircuitBreaker
emit cb t =
    if ltb (length cb.transitions) transitions_cap
    then record cb { transitions = cb.transitions ++ t ∷ [] }
    else cb

-- The change that Trip and ReTrip make.
opened : CircuitBreaker → ℕ → CircuitBreaker
opened cb now = record cb {
  state = state_open;
  opened_at = now;
  trip_count = cb.trip_count + 1;
  violations = 0;
}

trip_in : CircuitState → CircuitBreaker → ℕ → Reason → ℕ → ℕ → CircuitBreaker × Bool
trip_in state_open cb now reason pps bps = (cb, false)
trip_in prev cb now reason pps bps =
    let cb' = opened cb now in
    (
      emit cb' (record {
        from_state = prev;
        to_state = state_open;
        at = now;
        reason = reason;
        current_pps = pps;
        current_bps = bps;
        trip_count = cb'.trip_count;
      }),
      true,
    )

unfoldable pub trip : CircuitBreaker → ℕ → Reason → ℕ → ℕ → CircuitBreaker × Bool
unfolding trip_in opened emit
trip cb now reason pps bps = trip_in cb.state cb now reason pps bps

attempt_recovery_in : CircuitState → CircuitBreaker → ℕ → ℕ → ℕ → CircuitBreaker × Bool
attempt_recovery_in state_open cb now pps bps =
    let cb' = record cb { state = state_half_open; half_open_at = now } in
    (
      emit cb' (record {
        from_state = state_open;
        to_state = state_half_open;
        at = now;
        reason = cooldown_expired;
        current_pps = pps;
        current_bps = bps;
        trip_count = cb'.trip_count;
      }),
      true,
    )
attempt_recovery_in _ cb now pps bps = (cb, false)

unfoldable pub attempt_recovery : CircuitBreaker → ℕ → ℕ → ℕ → CircuitBreaker × Bool
unfolding attempt_recovery_in emit
attempt_recovery cb now pps bps = attempt_recovery_in cb.state cb now pps bps

close_in : CircuitState → CircuitBreaker → ℕ → ℕ → ℕ → CircuitBreaker × Bool
close_in state_closed cb now pps bps = (cb, false)
close_in prev cb now pps bps =
    let cb' = record cb { state = state_closed; last_closed_at = now } in
    (
      emit cb' (record {
        from_state = prev;
        to_state = state_closed;
        at = now;
        reason = traffic_normalized;
        current_pps = pps;
        current_bps = bps;
        trip_count = cb'.trip_count;
      }),
      true,
    )

unfoldable pub close : CircuitBreaker → ℕ → ℕ → ℕ → CircuitBreaker × Bool
unfolding close_in emit
close cb now pps bps = close_in cb.state cb now pps bps

re_trip_in : CircuitState → CircuitBreaker → ℕ → Algorithm → ℕ → ℕ → CircuitBreaker × Bool
re_trip_in state_half_open cb now reason pps bps =
    let cb' = opened cb now in
    (
      emit cb' (record {
        from_state = state_half_open;
        to_state = state_open;
        at = now;
        reason = recovery_failed reason;
        current_pps = pps;
        current_bps = bps;
        trip_count = cb'.trip_count;
      }),
      true,
    )
re_trip_in _ cb now reason pps bps = (cb, false)

unfoldable pub re_trip : CircuitBreaker → ℕ → Algorithm → ℕ → ℕ → CircuitBreaker × Bool
unfolding re_trip_in opened emit
re_trip cb now reason pps bps = re_trip_in cb.state cb now reason pps bps

unfoldable pub incr_violation : CircuitBreaker → ℕ → CircuitBreaker × Bool
incr_violation cb threshold =
    let cb' = record cb { violations = cb.violations + 1 } in (cb', leb threshold cb'.violations)

unfoldable pub reset_violation : CircuitBreaker → CircuitBreaker
reset_violation cb = record cb { violations = 0 }

unfoldable pub reset_trip_count : CircuitBreaker → CircuitBreaker
reset_trip_count cb = record cb { trip_count = 0 }

-- What the reader of `Transitions()` takes from the channel.
unfoldable pub receive : CircuitBreaker → CircuitBreaker
receive cb = elim cb.transitions [ [] ↦ cb | t ∷ rest ↦ record cb { transitions = rest } ]

pub record CircuitSnapshot : Type 0 where
  pub state : String
  pub trip_count : ℕ
  pub open_duration : ℕ
  pub opened_at : ℕ
  pub violations : ℕ

-- time.Since, for a time that has passed.
unfoldable pub open_duration : CircuitBreaker → ℕ → ℕ
open_duration cb now = if is_closed cb.state then 0 else now - cb.opened_at

unfoldable pub snapshot : CircuitBreaker → ℕ → CircuitSnapshot
unfolding open_duration
snapshot cb now = record {
  state = state_string cb.state;
  trip_count = cb.trip_count;
  open_duration = open_duration cb now;
  opened_at = cb.opened_at;
  violations = cb.violations;
}
