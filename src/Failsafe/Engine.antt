-- ===== src/Failsafe/Engine.antt =====
-- The failsafe engine, control-plane/internal/failsafe/engine.go. `now` is what time.Now() gives
-- in a call, which takes no time. Whether the writes of the sentinel file succeed is an argument.
-- The panic recovery of safeTick and safeApplyOverride has nothing to catch here.
pub mod Override
pub mod Agreement
pub mod Runs
pub mod Ticks
pub mod Holds
pub mod Probe
use falx_v.Base.{
  ℕ, ◌+◌, ◌-◌, ◌*◌, ◌%◌, ◌^◌, Bool, true, false, not, ◌&&◌, ◌||◌, List, [], ◌∷◌, ◌++◌, Option, none,
  some, ltb, ◌==◌, if◌then◌else◌, length,
}
use falx_v.Base.Time.{unix_epoch, second}
use falx_v.Base.Floats.{Floats}
use falx_v.Bpfmaps.Types.{XdpStats, FailsafeState}
use falx_v.Bpfmaps.Kernel.{KernelMaps}
use falx_v.Bpfmaps.Audit.{MapError}
use falx_v.Bpfmaps.Manager.{
  Manager, read_stats, read_failsafe_state, set_circuit_open, update_failsafe_thresholds,
}
use falx_v.Failsafe.Reason.{Reason, traffic_normalized, soc_manual, threshold_update}
use falx_v.Failsafe.Breaker.{
  CircuitState, state_closed, state_open, state_half_open, CircuitBreaker, new_circuit_breaker,
  trip, attempt_recovery, close, re_trip, incr_violation, reset_violation, reset_trip_count,
}
use falx_v.Failsafe.Recovery.{
  RecoveryConfig, should_attempt_recovery, should_reset_backoff, half_open_expired,
}
use falx_v.Failsafe.Detector.{
  DetectionResult, DetectorConfig, Detector, new_detector, update_thresholds, build_sample, analyze,
}
use falx_v.Failsafe.Latch.{
  AdminOverrideLatch, admin_override_cooldown, arm, clear, is_active, file_active,
}

pub data OverrideCmd : Type 0 where
  override_force_open override_force_close : Reason → OverrideCmd
  override_threshold_update : Reason → ℕ → ℕ → OverrideCmd

-- What publishTransition sends to the bus.
pub data BusEvent : Type 0 where
  circuit_open : ℕ → Reason → BusEvent
  circuit_closed : ℕ → BusEvent

-- `bus` is the events published, or `none` where no bus is wired. `override_ch` is the content of
-- the buffered channel, oldest first.
pub record Engine (W R : Type 0) : Type 0 where
  pub recovery : RecoveryConfig
  pub consecutive_violations : ℕ
  pub mgr : Manager W
  pub cb : CircuitBreaker
  pub detector : Detector R
  pub bus : Option (List BusEvent)
  pub total_trips : ℕ
  pub total_closes : ℕ
  pub bpf_write_failures : ℕ
  pub override_ch : List OverrideCmd
  pub admin_latch : AdminOverrideLatch
  pub override_file : Option ℕ
  pub last_closed_at : ℕ
  pub half_open_at : ℕ

abbrev pub override_cap : ℕ
override_cap = 8

abbrev pub u64 : ℕ → ℕ
u64 n = n % 2 ^ 64

-- time.Unix(0, int64(ns)).
unfoldable pub unix_time : ℕ → ℕ
unix_time ns =
    if ltb ns (2 ^ 63) then unix_epoch * second + ns else unix_epoch * second + ns - 2 ^ 64

append_event : BusEvent → Option (List BusEvent) → Option (List BusEvent)
append_event ev none = none
append_event ev (some evs) = some (evs ++ ev ∷ [])

module _ {W R : Type 0} where
  unfoldable pub publish_transition : Engine W R → CircuitState → Reason → ℕ → Engine W R
  unfolding append_event
  publish_transition e state_open reason pps = record e {
    bus = append_event (circuit_open pps reason) e.bus;
  }
  publish_transition e state_closed reason pps = record e {
    bus = append_event (circuit_closed pps) e.bus;
  }
  publish_transition e state_half_open reason pps = e

  -- A failed write of the circuit's map is counted.
  count_failure : Engine W R → Manager W × Option MapError → Engine W R
  count_failure e (m, none) = record e { mgr = m }
  count_failure e (m, some _) = record e {
    mgr = m;
    bpf_write_failures = u64 (e.bpf_write_failures + 1);
  }

module _ {W R : Type 0} (K : KernelMaps W) (F : Floats R) where
  unfoldable pub write_circuit : Engine W R → ℕ → Bool → Reason → Engine W R
  unfolding count_failure
  write_circuit e now b reason = count_failure e (set_circuit_open K e.mgr now b reason)

  unfoldable pub new_engine : DetectorConfig R → RecoveryConfig → Manager W → Option ℕ → Engine W R
  unfolding read_failsafe_state
  new_engine det rec mgr file =
      let e : Engine W R = record {
        recovery = rec;
        consecutive_violations = det.consecutive_violations;
        mgr = mgr;
        cb = new_circuit_breaker;
        detector = new_detector F det;
        bus = none;
        total_trips = 0;
        total_closes = 0;
        bpf_write_failures = 0;
        override_ch = [];
        admin_latch = record { active = false; until = 0 };
        override_file = file;
        last_closed_at = 0;
        half_open_at = 0;
      } in
      elim (read_failsafe_state K mgr) [
        | none ↦ e
        | some state ↦
            if state.circuit_open == 1
            then record e {
              cb = record new_circuit_breaker {
                state = state_open;
                opened_at = unix_time state.open_since_ns;
              };
            }
            else e
      ]

  unfoldable pub open_circuit : Engine W R → ℕ → DetectionResult R → Engine W R
  unfolding write_circuit
  open_circuit e now r =
      let (cb', tripped) = trip e.cb now r.reason r.current_pps r.current_bps in
      let e' = record e { cb = cb'; total_trips = u64 (e.total_trips + 1) } in
      if tripped
      then write_circuit (publish_transition e' state_open r.reason r.current_pps) now true r.reason
      else e

  unfoldable pub close_circuit : Engine W R → ℕ → ℕ → ℕ → Engine W R
  unfolding write_circuit
  close_circuit e now pps bps =
      let (cb', closed) = close e.cb now pps bps in
      let e' = record e {
        cb = cb';
        last_closed_at = now;
        total_closes = u64 (e.total_closes + 1);
      } in
      if closed
      then write_circuit (publish_transition e' state_closed traffic_normalized pps) now false
          traffic_normalized
      else e

  -- The counter of trips starts again after a long stable time.
  reset_backoff : Engine W R → ℕ → Engine W R
  reset_backoff e now =
      if should_reset_backoff e.recovery e.last_closed_at now && ltb 0 e.cb.trip_count
      then record e { cb = reset_trip_count e.cb }
      else e

  -- What a tick of the closed circuit does with the detector's results; the first one counts.
  judge : Engine W R → ℕ → List (DetectionResult R) → Engine W R
  judge e now [] = record e { cb = reset_violation e.cb }
  judge e now (r ∷ rs) =
      let (cb', reached) = incr_violation e.cb e.consecutive_violations in
      let e' = record e { cb = cb' } in if reached then open_circuit e' now r else e'

  unfoldable pub tick_closed : Engine W R → XdpStats → ℕ → Engine W R
  unfolding reset_backoff judge
  tick_closed e stats now =
      let (latch, latched) = is_active e.admin_latch now in
      let (det, results) = analyze F e.detector stats now in
      let e' = record e { admin_latch = latch; detector = det } in
      if latched || file_active e.override_file now
      then record e' { cb = reset_violation e'.cb }
      else judge (reset_backoff e' now) now results

  unfoldable pub tick_open : Engine W R → XdpStats → ℕ → Engine W R
  tick_open e stats now =
      let sample = build_sample F e.detector stats now in
      let (cb', probing) = attempt_recovery e.cb now sample.delta_pps sample.delta_bps in
      if should_attempt_recovery e.recovery e.cb.opened_at e.cb.trip_count now && probing
      then record e { cb = cb'; half_open_at = now }
      else e

  -- A result of the detector trips the circuit again; without one, the circuit is closed when the
  -- probe window has gone by.
  probe : Engine W R → XdpStats → ℕ → List (DetectionResult R) → Engine W R
  probe e stats now [] =
      let sample = build_sample F e.detector stats now in
      if half_open_expired e.recovery e.half_open_at now
      then close_circuit e now sample.delta_pps sample.delta_bps
      else e
  probe e stats now (r ∷ rs) = record e {
    cb = (re_trip e.cb now r.algorithm r.current_pps r.current_bps).0;
    total_trips = u64 (e.total_trips + 1);
  }

  unfoldable pub tick_half_open : Engine W R → XdpStats → ℕ → Engine W R
  unfolding probe
  tick_half_open e stats now =
      let (det, results) = analyze F e.detector stats now in
      probe (record e { detector = det }) stats now results

  tick_in : CircuitState → Engine W R → XdpStats → ℕ → Engine W R
  tick_in state_closed e stats now = tick_closed e stats now
  tick_in state_open e stats now = tick_open e stats now
  tick_in state_half_open e stats now = tick_half_open e stats now

  unfoldable pub tick : Engine W R → ℕ → Engine W R
  unfolding tick_in
  tick e now = elim (read_stats K e.mgr) [ none ↦ e | some stats ↦ tick_in e.cb.state e stats now ]
