-- ===== src/Failsafe/Engine/Runs.antt =====
-- The engine and the rest of the system, as steps in any order.
use Prim.Native.String.{String}
use falx_v.Base.{
  ℕ, ◌≤◌, ◌≡◌, refl, ap, ◌∙◌, Bool, true, false, not, ◌&&◌, if◌then◌else◌, List, [], ◌∷◌, Option,
  some, Option-cases, inl, inr, arith,
}
use falx_v.Base.Floats.{Floats}
use falx_v.Bpfmaps.Types.{FailsafeState}
use falx_v.Bpfmaps.Kernel.{KernelMaps, UpdateLaws}
use falx_v.Bpfmaps.Manager.{Manager, read_failsafe_state}
use falx_v.Bpfmaps.Manager.Circuit.{flag, update_failsafe_thresholds-flag}
use falx_v.Failsafe.Reason.{threshold_update}
use falx_v.Failsafe.Recovery.{RecoveryConfig}
use falx_v.Failsafe.Breaker.{is_closed, new_circuit_breaker}
use falx_v.Failsafe.Detector.{DetectorConfig}
use falx_v.Failsafe.Engine.{
  Engine, OverrideCmd, override_force_open, override_force_close, override_threshold_update,
  publish_transition, new_engine, tick,
}
use falx_v.Failsafe.Engine.Override.{
  send, force_open, force_close, apply_override, handle_override, kernel_thresholds,
  update_engine_thresholds,
}
use falx_v.Failsafe.Engine.Agreement.{
  kernel_flag, Agrees, Kept, trip-state, close-state, written-Agrees, tick-Agrees,
}

-- Whether two Booleans are the same.
abbrev pub same_bool : Bool → Bool → Bool
same_bool a b = if a then b else not b

module _ {W R : Type 0} (K : KernelMaps W) (F : Floats R) where
  -- What the engine and its callers do: a tick of the poll timer, a command taken from the channel,
  -- and a call of the operator. A threshold update is here one that nothing comes between.
  pub data Step (e : Engine W R) : Engine W R → Type 0 where
    ticks : (now : ℕ) → Step e (tick K F e now)
    handles : (now : ℕ) (file_ok : Bool) → Step e (handle_override K F e now file_ok)
    opens : (reason : String) → Step e (force_open e reason).0
    closes : (reason : String) → Step e (force_close e reason).0
    updates : (now pps bps : ℕ) → Step e (update_engine_thresholds K F e now pps bps).0

  -- Whether a step neither opens nor closes the circuit.
  abbrev pub is_kept : Engine W R → Engine W R → Bool
  is_kept e e' = same_bool (is_closed e'.cb.state) (is_closed e.cb.state)

  -- Steps in which no write of the flag is counted as failed, and between them any change of the
  -- maps and of the limiter by others, which may leave the flag or not: the XDP program and other
  -- processes write it, and a threshold update writes back the flag that it had read before. The
  -- Boolean tells whether others wrote the flag since the engine last opened or closed the circuit.
  pub data Run (e : Engine W R) : Engine W R → Bool → Type 0 where
    start : Run e e false
    acts :
        {e' e'' : Engine W R} {changed : Bool}
        → Run e e' changed
        → Step e' e''
        → e''.bpf_write_failures ≡ e'.bpf_write_failures
        → Run e e'' (changed && is_kept e' e'')
    others :
        {e' : Engine W R} {changed : Bool}
        → Run e e' changed
        → (mgr : Manager W) → kernel_flag K F mgr.world ≡ kernel_flag K F e'.mgr.world
        → Run e (record e' { mgr = mgr }) changed
    intrudes :
        {e' : Engine W R} {changed : Bool}
        → Run e e' changed
        → (mgr : Manager W) → Run e (record e' { mgr = mgr }) true

  module _ (laws : UpdateLaws K.failsafe_state) where
    apply_override-Agrees :
        (e : Engine W R) (now : ℕ) (ok : Bool) (cmd : OverrideCmd)
        → Kept K F e (apply_override K F e now ok cmd)
        → (apply_override K F e now ok cmd).bpf_write_failures ≡ e.bpf_write_failures
        → Agrees K F (apply_override K F e now ok cmd)
    unfolding apply_override publish_transition
    apply_override-Agrees e now ok (override_force_open reason) a h =
        written-Agrees K F laws _ now true reason (ground (arith, trip-state e.cb now reason 0 0))
          (ground arith)
    apply_override-Agrees e now ok (override_force_close reason) a h =
        written-Agrees K F laws _ now false reason (ground (arith, close-state e.cb now 0 0))
          (ground arith)
    apply_override-Agrees e now ok (override_threshold_update reason pps bps) a h = a refl

    handle_override-Agrees :
        (e : Engine W R) (now : ℕ) (ok : Bool)
        → Kept K F e (handle_override K F e now ok)
        → (handle_override K F e now ok).bpf_write_failures ≡ e.bpf_write_failures
        → Agrees K F (handle_override K F e now ok)
    unfolding handle_override
    handle_override-Agrees e now ok a h = go e.override_ch refl
      where
        go :
            (cmds : List OverrideCmd)
            → e.override_ch ≡ cmds
            → Agrees K F (handle_override K F e now ok)
        go [] q = rw (q, handle_override) ((rw (q, handle_override) at a) refl)
        go (cmd ∷ rest) q =
            rw (q, handle_override)
              (apply_override-Agrees (record e { override_ch = rest }) now ok cmd
                (rw (q, handle_override) at a) (rw (q, handle_override) at h))

    send-Agrees : (e : Engine W R) (cmd : OverrideCmd) → Agrees K F e → Agrees K F (send e cmd).0
    unfolding send
    send-Agrees e cmd a = ground arith

    thresholds-Agrees :
        (e : Engine W R) (now pps bps : ℕ)
        → Agrees K F e
        → Agrees K F (kernel_thresholds K F e now pps bps).0
    unfolding kernel_thresholds kernel_flag read_failsafe_state
    thresholds-Agrees e now pps bps a =
        elim (Option-cases (K.failsafe_state.lookup e.mgr.world 0)) [
          | inl missing ↦ absurd (ground arith)
          | inr (s, found) ↦
              let (after, read, same) =
                update_failsafe_thresholds-flag K e.mgr now pps bps s laws found in
              ground arith
        ]

    send-cb : (e : Engine W R) (cmd : OverrideCmd) → (send e cmd).0.cb ≡ e.cb
    unfolding send
    send-cb e cmd = ground arith

    update-cb :
        (e : Engine W R) (now pps bps : ℕ)
        → (update_engine_thresholds K F e now pps bps).0.cb ≡ e.cb
    unfolding update_engine_thresholds kernel_thresholds send
    update-cb e now pps bps = ground arith

    -- What a step leaves.
    Step-Agrees :
        {e e' : Engine W R}
        → Step e e'
        → e'.bpf_write_failures ≡ e.bpf_write_failures
        → Kept K F e e'
        → Agrees K F e'
    unfolding force_open force_close update_engine_thresholds
    Step-Agrees {e} (ticks now) h a = tick-Agrees K F laws e now a h
    Step-Agrees {e} (handles now ok) h a = handle_override-Agrees e now ok a h
    Step-Agrees {e} (opens reason) h a =
        send-Agrees e _ (a (ap (λ c. is_closed c.state) (send-cb e _)))
    Step-Agrees {e} (closes reason) h a =
        send-Agrees e _ (a (ap (λ c. is_closed c.state) (send-cb e _)))
    Step-Agrees {e} (updates now pps bps) h a =
        let cmd = override_threshold_update (threshold_update pps bps) pps bps in
        let before = a (ap (λ c. is_closed c.state) (update-cb e now pps bps)) in
        let sent = send-Agrees e cmd before in
        ground (arith, sent, thresholds-Agrees (send e cmd).0 now pps bps sent)

    Run-Agrees :
        {e e' : Engine W R} {changed : Bool}
        → Agrees K F e
        → Run e e' changed
        → changed ≡ false
        → Agrees K F e'
    Run-Agrees a start c = a
    Run-Agrees a (acts {e'} {e''} r st h) c =
        Step-Agrees st h (λ same. Run-Agrees a r (ground (arith, c, same)))
    Run-Agrees a (others r mgr same) c = same ∙ Run-Agrees a r c
    Run-Agrees a (intrudes r mgr) c = absurd (ground arith)

    -- Whatever the ticks, commands and calls, and whatever others change in the maps between them:
    -- from an engine that has read the flag at its start, the XDP program's flag is 1 exactly while
    -- the engine's circuit is open or half-open, as long as no write of the flag is counted as
    -- failed and nobody else has changed the flag since the engine last opened or closed the
    -- circuit, or since the start.
    pub Run-new_engine-Agrees :
        (det : DetectorConfig R) (rec : RecoveryConfig) (mgr : Manager W) (file : Option ℕ)
        (s : FailsafeState) (e : Engine W R)
        → read_failsafe_state K mgr ≡ some s
        → s.circuit_open ≤ 1
        → Run (new_engine K F det rec mgr file) e false
        → kernel_flag K F e.mgr.world ≡ some (flag (not (is_closed e.cb.state)))
    unfolding new_engine kernel_flag new_circuit_breaker
    Run-new_engine-Agrees det rec mgr file s e found le r = Run-Agrees (ground arith) r refl
