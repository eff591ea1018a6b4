-- ===== src/Failsafe/Engine/Ticks.antt =====
-- What ticks do: hysteresis, the operator's override, and recovery.
use falx_v.Base.{
  ℕ, ◌+◌, ◌≤◌, ◌<◌, ◌≡◌, ◌≢◌, ◌↔◌, Bool, true, false, ◌||◌, List, [], ◌∷◌, some, length, arith,
}
use falx_v.Base.Floats.{Floats}
use falx_v.Bpfmaps.Types.{XdpStats}
use falx_v.Bpfmaps.Kernel.{KernelMaps}
use falx_v.Bpfmaps.Manager.{read_stats}
use falx_v.Failsafe.Breaker.{
  state_closed, state_open, trip, incr_violation, reset_violation, reset_trip_count,
}
use falx_v.Failsafe.Detector.{DetectionResult, analyze}
use falx_v.Failsafe.Latch.{is_active, file_active}
use falx_v.Failsafe.Engine.{
  Engine, write_circuit, open_circuit, publish_transition, judge, reset_backoff, tick_closed,
  tick_in, tick,
}

module _ {W R : Type 0} where
  -- The override latch, in the process or by the sentinel file, holds the circuit closed.
  unfoldable pub suppressed : Engine W R → ℕ → Bool
  suppressed e now = (is_active e.admin_latch now).1 || file_active e.override_file now

  -- The engine after the world has changed to `w`.
  abbrev pub in_world : Engine W R → W → Engine W R
  in_world e w = record e { mgr = record (e.mgr) { world = w } }

module _ {W R : Type 0} (K : KernelMaps W) (F : Floats R) where
  -- What the detector reports in a tick that reads these counters.
  unfoldable pub reported : Engine W R → XdpStats → ℕ → List (DetectionResult R)
  reported e stats now = (analyze F e.detector stats now).1

  -- Ticks at the given times, with the maps as they are found then.
  unfoldable pub ticks : Engine W R → List (ℕ × W) → Engine W R
  ticks e [] = e
  ticks e ((now, w) ∷ ts) = ticks (tick K F (in_world e w) now) ts

  reset_backoff-keeps :
      (e : Engine W R) (now : ℕ)
      → ((reset_backoff K F e now).cb.state ≡ e.cb.state)
        × ((reset_backoff K F e now).cb.violations ≡ e.cb.violations)
        × ((reset_backoff K F e now).consecutive_violations ≡ e.consecutive_violations)
  unfolding reset_backoff reset_trip_count
  reset_backoff-keeps e now = ground arith

  -- What the closed circuit's tick leaves behind before the results are judged.
  unfoldable watched : Engine W R → XdpStats → ℕ → Engine W R
  watched e stats now =
      reset_backoff K F
        (record e {
          admin_latch = (is_active e.admin_latch now).0;
          detector = (analyze F e.detector stats now).0;
        })
        now

  watched-keeps :
      (e : Engine W R) (stats : XdpStats) (now : ℕ)
      → ((watched e stats now).cb.state ≡ e.cb.state)
        × ((watched e stats now).cb.violations ≡ e.cb.violations)
        × ((watched e stats now).consecutive_violations ≡ e.consecutive_violations)
  unfolding watched
  watched-keeps e stats now = reset_backoff-keeps _ now

  tick-judge :
      (e : Engine W R) (stats : XdpStats) (now : ℕ)
      → read_stats K e.mgr ≡ some stats
      → e.cb.state ≡ state_closed
      → suppressed e now ≡ false
      → tick K F e now ≡ judge K F (watched e stats now) now (reported e stats now)
  unfolding tick tick_in tick_closed suppressed reported watched
  tick-judge e stats now h c s = ground arith

  tick-suppressed :
      (e : Engine W R) (stats : XdpStats) (now : ℕ)
      → e.cb.state ≡ state_closed
      → suppressed e now ≡ true
      → (tick K F e now).cb.state ≡ state_closed
  unfolding tick tick_in tick_closed suppressed reset_violation
  tick-suppressed e stats now c s = ground arith

  judge-opens_iff :
      (e : Engine W R) (now : ℕ) (rs : List (DetectionResult R))
      → e.cb.state ≡ state_closed
      → (judge K F e now rs).cb.state ≡ state_open
        ↔ (rs ≢ []) × (e.consecutive_violations ≤ e.cb.violations + 1)
  unfolding judge incr_violation reset_violation open_circuit trip publish_transition write_circuit
  judge-opens_iff e now [] c = ground arith
  judge-opens_iff e now (r ∷ rs) c = ground arith

  -- On a tick that reads the counters, with no override that holds the circuit closed, a closed
  -- circuit opens exactly when the detector reports a result and this violation is at least the
  -- configured number in a row.
  pub tick-opens_iff :
      (e : Engine W R) (stats : XdpStats) (now : ℕ)
      → read_stats K e.mgr ≡ some stats
      → e.cb.state ≡ state_closed
      → suppressed e now ≡ false
      → (tick K F e now).cb.state ≡ state_open
        ↔ (reported e stats now ≢ []) × (e.consecutive_violations ≤ e.cb.violations + 1)
  tick-opens_iff e stats now h c s =
      let keeps = watched-keeps e stats now in
      let step = tick-judge e stats now h c s in
      let decided = judge-opens_iff (watched e stats now) now (reported e stats now) in grind arith

  -- A tick below the number of violations.
  judge-patient :
      (e : Engine W R) (now : ℕ) (rs : List (DetectionResult R))
      → e.cb.state ≡ state_closed
      → e.cb.violations + 1 < e.consecutive_violations
      → ((judge K F e now rs).cb.state ≡ state_closed)
        × ((judge K F e now rs).cb.violations ≤ e.cb.violations + 1)
        × ((judge K F e now rs).consecutive_violations ≡ e.consecutive_violations)
  unfolding judge incr_violation reset_violation
  judge-patient e now [] c n = ground arith
  judge-patient e now (r ∷ rs) c n = ground arith

  tick-patient :
      (e : Engine W R) (now : ℕ)
      → e.cb.state ≡ state_closed
      → e.cb.violations + 1 < e.consecutive_violations
      → ((tick K F e now).cb.state ≡ state_closed)
        × ((tick K F e now).cb.violations ≤ e.cb.violations + 1)
        × ((tick K F e now).consecutive_violations ≡ e.consecutive_violations)
  unfolding tick tick_in tick_closed judge reset_backoff reset_trip_count incr_violation
      reset_violation
  tick-patient e now c n = ground arith

  -- A closed circuit stays closed over any ticks, whatever the maps hold then, that are fewer than
  -- the violations still needed.
  pub ticks-closed :
      (e : Engine W R) (ts : List (ℕ × W))
      → e.cb.state ≡ state_closed
      → e.cb.violations + length ts < e.consecutive_violations
      → (ticks e ts).cb.state ≡ state_closed
  unfolding ticks
  ticks-closed e [] c n = c
  ticks-closed e ((now, w) ∷ ts) c n =
      let step = tick-patient (in_world e w) now c (omega arith) in
      ticks-closed (tick K F (in_world e w) now) ts (step.0) (omega arith)
