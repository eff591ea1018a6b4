-- ===== src/Failsafe/Engine/Override.antt =====
-- The operator's side of the engine: the override channel, and what the engine's goroutine does
-- with a command. control-plane/internal/failsafe/engine.go.
use Prim.Native.String.{String}
use falx_v.Base.{
  ℕ, Bool, true, false, [], ◌∷◌, ◌++◌, Option, none, some, ltb, if◌then◌else◌, length,
}
use falx_v.Base.Floats.{Floats}
use falx_v.Bpfmaps.Kernel.{KernelMaps}
use falx_v.Bpfmaps.Audit.{MapError}
use falx_v.Bpfmaps.Manager.{update_failsafe_thresholds}
use falx_v.Failsafe.Reason.{soc_manual, threshold_update}
use falx_v.Failsafe.Breaker.{state_closed, state_open, trip, close}
use falx_v.Failsafe.Detector.{update_thresholds}
use falx_v.Failsafe.Latch.{admin_override_cooldown, arm, clear}
use falx_v.Failsafe.Engine.{
  Engine, OverrideCmd, override_force_open, override_force_close, override_threshold_update,
  override_cap, publish_transition, write_circuit,
}

-- The error of a call that finds the channel full, or of the map manager.
pub data EngineError : Type 0 where
  engine_busy : EngineError
  map_error : MapError → EngineError

-- os.WriteFile and os.Remove of the sentinel: a call that fails leaves the file.
touched : Bool → ℕ → Option ℕ → Option ℕ
touched true now file = some now
touched false now file = file

removed : Bool → Option ℕ → Option ℕ
removed true file = none
removed false file = file

module _ {W R : Type 0} where
  -- A send that does not block.
  unfoldable pub send : Engine W R → OverrideCmd → Engine W R × Option EngineError
  send e cmd =
      if ltb (length e.override_ch) override_cap
      then (record e { override_ch = e.override_ch ++ cmd ∷ [] }, none)
      else (e, some engine_busy)

  unfoldable pub force_open : Engine W R → String → Engine W R × Option EngineError
  unfolding send
  force_open e reason = send e (override_force_open (soc_manual reason))

  unfoldable pub force_close : Engine W R → String → Engine W R × Option EngineError
  unfolding send
  force_close e reason = send e (override_force_close (soc_manual reason))

module _ {W R : Type 0} (K : KernelMaps W) (F : Floats R) where
  unfoldable pub apply_override : Engine W R → ℕ → Bool → OverrideCmd → Engine W R
  unfolding touched removed write_circuit
  apply_override e now file_ok (override_force_open reason) =
      let (cb', tripped) = trip e.cb now reason 0 0 in
      let e' = record e {
        admin_latch = clear e.admin_latch;
        override_file = removed file_ok e.override_file;
        cb = cb';
      } in
      write_circuit K F (if tripped then publish_transition e' state_open reason 0 else e') now true
        reason
  apply_override e now file_ok (override_force_close reason) =
      let (cb', closed) = close e.cb now 0 0 in
      let e' = record e {
        admin_latch = arm e.admin_latch now admin_override_cooldown;
        override_file = touched file_ok now e.override_file;
        cb = cb';
      } in
      let e'' =
        write_circuit K F (if closed then publish_transition e' state_closed reason 0 else e') now
          false reason in
      record e'' { last_closed_at = now }
  apply_override e now file_ok (override_threshold_update reason pps bps) = record e {
    detector = update_thresholds F e.detector pps bps;
  }

  -- The engine's goroutine takes the oldest command.
  unfoldable pub handle_override : Engine W R → ℕ → Bool → Engine W R
  handle_override e now file_ok = elim e.override_ch [
    | [] ↦ e
    | cmd ∷ rest ↦ apply_override (record e { override_ch = rest }) now file_ok cmd
  ]

  unfoldable pub kernel_thresholds : Engine W R → ℕ → ℕ → ℕ → Engine W R × Option EngineError
  kernel_thresholds e now pps bps =
      let (mgr', err) = update_failsafe_thresholds K e.mgr now pps bps in
      (record e { mgr = mgr' }, elim err [ none ↦ none | some x ↦ some (map_error x) ])

  -- A call that nothing comes between: where the flag is written between its read and its write of the
  -- state, it undoes that write, which Runs has as an intrusion.
  unfoldable pub update_engine_thresholds : Engine W R → ℕ → ℕ → ℕ → Engine W R × Option EngineError
  unfolding send kernel_thresholds
  update_engine_thresholds e now pps bps =
      let (e', err) = send e (override_threshold_update (threshold_update pps bps) pps bps) in
      elim err [ none ↦ kernel_thresholds e' now pps bps | some x ↦ (e', some x) ]
