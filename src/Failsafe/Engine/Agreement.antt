-- ===== src/Failsafe/Engine/Agreement.antt =====
-- The engine's view of the circuit against the flag that the XDP program reads.
use mathlib.Core.Path.{subst}
use falx_v.Base.{
  sym, ℕ, ◌+◌, ◌≡◌, refl, Bool, true, false, not, List, [], ◌∷◌, Option, none, some, Bool-cases,
  Option-cases, inl, inr, arith,
}
use falx_v.Base.Floats.{Floats}
use falx_v.Bpfmaps.Types.{XdpStats}
use falx_v.Bpfmaps.Kernel.{KernelMaps, UpdateLaws}
use falx_v.Bpfmaps.Manager.{read_failsafe_state, set_circuit_open, read_stats}
use falx_v.Bpfmaps.Manager.Circuit.{flag, set_circuit_open-read}
use falx_v.Failsafe.Reason.{Reason, traffic_normalized}
use falx_v.Failsafe.Breaker.{
  CircuitState, CircuitBreaker, state_closed, state_open, state_half_open, is_closed, trip,
  attempt_recovery, close, re_trip, incr_violation, reset_violation, reset_trip_count,
}
use falx_v.Failsafe.Detector.{DetectionResult, build_sample, analyze}
use falx_v.Failsafe.Recovery.{half_open_expired}
use falx_v.Failsafe.Latch.{is_active}
use falx_v.Failsafe.Engine.{
  Engine, u64, write_circuit, open_circuit, close_circuit, publish_transition, judge, reset_backoff,
  tick_closed, tick_open, probe, tick_half_open, tick_in, tick,
}

pub trip-state :
    (cb : CircuitBreaker) (now : ℕ) (reason : Reason) (pps bps : ℕ)
    → (trip cb now reason pps bps).0.state ≡ state_open
unfolding trip
trip-state cb now reason pps bps = ground arith

pub close-state :
    (cb : CircuitBreaker) (now pps bps : ℕ) → (close cb now pps bps).0.state ≡ state_closed
unfolding close
close-state cb now pps bps = ground arith

module _ {W R : Type 0} (K : KernelMaps W) (F : Floats R) where
  -- The flag in the map, `none` where it cannot be read.
  unfoldable pub kernel_flag : W → Option ℕ
  kernel_flag w = elim (K.failsafe_state.lookup w 0) [ none ↦ none | some s ↦ some s.circuit_open ]

  -- The flag is set exactly while the engine's circuit is not closed.
  abbrev pub Agrees : Engine W R → Type 0
  Agrees e = kernel_flag e.mgr.world ≡ some (flag (not (is_closed e.cb.state)))

  -- The flag was right before a step, if the step does not open or close the circuit.
  abbrev pub Kept : Engine W R → Engine W R → Type 0
  Kept e e' = is_closed e'.cb.state ≡ is_closed e.cb.state → Agrees e

  -- The circuit and the count of failed writes after a write.
  write_circuit-keeps :
      (e : Engine W R) (now : ℕ) (b : Bool) (reason : Reason)
      → (write_circuit K F e now b reason).cb ≡ e.cb
  unfolding write_circuit
  write_circuit-keeps e now b reason = ground arith

  module _ (laws : UpdateLaws K.failsafe_state) where
    -- A write that is not counted as failed sets the flag.
    write_circuit-flag :
        (e : Engine W R) (now : ℕ) (b : Bool) (reason : Reason)
        → (write_circuit K F e now b reason).bpf_write_failures ≡ e.bpf_write_failures
        → kernel_flag (write_circuit K F e now b reason).mgr.world ≡ some (flag b)
    unfolding write_circuit kernel_flag read_failsafe_state
    write_circuit-flag e now b reason h =
        elim (Option-cases (set_circuit_open K e.mgr now b reason).1) [
          | inl ok ↦
              let (before, after, _, e', f, _, _, _, _) =
                set_circuit_open-read K e.mgr (set_circuit_open K e.mgr now b reason).0 now b reason
                  laws (ground arith) in
              ground arith
          | inr (x, bad) ↦ absurd (ground arith)
        ]

    pub written-Agrees :
        (e : Engine W R) (now : ℕ) (b : Bool) (reason : Reason)
        → not (is_closed e.cb.state) ≡ b
        → (write_circuit K F e now b reason).bpf_write_failures ≡ e.bpf_write_failures
        → Agrees (write_circuit K F e now b reason)
    written-Agrees e now b reason s h =
        rw (write_circuit-keeps e now b reason) (rw s (write_circuit-flag e now b reason h))

    open_circuit-Agrees :
        (e : Engine W R) (now : ℕ) (r : DetectionResult R)
        → Kept e (open_circuit K F e now r)
        → (open_circuit K F e now r).bpf_write_failures ≡ e.bpf_write_failures
        → Agrees (open_circuit K F e now r)
    unfolding open_circuit publish_transition
    open_circuit-Agrees e now r a h =
        let t = trip e.cb now r.reason r.current_pps r.current_bps in
        let e' = record e { cb = t.0; total_trips = u64 (e.total_trips + 1) } in
        let p = publish_transition e' state_open r.reason r.current_pps in
        elim (Bool-cases t.1) [
          | inl ok ↦ ground (
            arith,
            written-Agrees p now true r.reason
                (rw (trip-state e.cb now r.reason r.current_pps r.current_bps)),
          )
          | inr kept ↦ ground arith
        ]

    close_circuit-Agrees :
        (e : Engine W R) (now pps bps : ℕ)
        → Kept e (close_circuit K F e now pps bps)
        → (close_circuit K F e now pps bps).bpf_write_failures ≡ e.bpf_write_failures
        → Agrees (close_circuit K F e now pps bps)
    unfolding close_circuit publish_transition
    close_circuit-Agrees e now pps bps a h =
        let t = close e.cb now pps bps in
        let e' = record e {
          cb = t.0;
          last_closed_at = now;
          total_closes = u64 (e.total_closes + 1);
        } in
        let p = publish_transition e' state_closed traffic_normalized pps in
        elim (Bool-cases t.1) [
          | inl ok ↦ ground (
            arith,
            written-Agrees p now false traffic_normalized (rw (close-state e.cb now pps bps)),
          )
          | inr kept ↦ ground arith
        ]

    judge-Agrees :
        (e : Engine W R) (now : ℕ) (rs : List (DetectionResult R))
        → Kept e (judge K F e now rs)
        → (judge K F e now rs).bpf_write_failures ≡ e.bpf_write_failures
        → Agrees (judge K F e now rs)
    unfolding judge reset_violation incr_violation
    judge-Agrees e now [] a h = a refl
    judge-Agrees e now (r ∷ rs) a h =
        let counted = incr_violation e.cb e.consecutive_violations in
        let e' = record e { cb = counted.0 } in
        elim (Bool-cases counted.1) [
          | inl x ↦
              let eq : judge K F e now (r ∷ rs) ≡ open_circuit K F e' now r = ground arith in
              subst (λ z. Kept e z → z.bpf_write_failures ≡ e.bpf_write_failures → Agrees z)
                (sym eq) (open_circuit-Agrees e' now r) a h
          | inr x ↦
              let eq : judge K F e now (r ∷ rs) ≡ e' = ground arith in
              subst (λ z. Kept e z → Agrees z) (sym eq) (λ k. k refl) a
        ]

    tick_closed-Agrees :
        (e : Engine W R) (stats : XdpStats) (now : ℕ)
        → Kept e (tick_closed K F e stats now)
        → (tick_closed K F e stats now).bpf_write_failures ≡ e.bpf_write_failures
        → Agrees (tick_closed K F e stats now)
    unfolding tick_closed reset_backoff reset_trip_count reset_violation
    tick_closed-Agrees e stats now a h =
        let (latch, latched) = is_active e.admin_latch now in
        let (det, results) = analyze F e.detector stats now in
        let e' = record e { admin_latch = latch; detector = det } in
        ground (arith, judge-Agrees (reset_backoff K F e' now) now results)

    tick_open-Agrees :
        (e : Engine W R) (stats : XdpStats) (now : ℕ)
        → Kept e (tick_open K F e stats now)
        → Agrees (tick_open K F e stats now)
    unfolding tick_open attempt_recovery
    tick_open-Agrees e stats now a = ground arith

    probe-Agrees :
        (e : Engine W R) (stats : XdpStats) (now : ℕ) (rs : List (DetectionResult R))
        → e.cb.state ≡ state_half_open
        → Kept e (probe K F e stats now rs)
        → (probe K F e stats now rs).bpf_write_failures ≡ e.bpf_write_failures
        → Agrees (probe K F e stats now rs)
    unfolding probe re_trip
    probe-Agrees e stats now [] s a h =
        let sample = build_sample F e.detector stats now in
        let closed = close_circuit K F e now sample.delta_pps sample.delta_bps in
        elim (Bool-cases (half_open_expired e.recovery e.half_open_at now)) [
          | inl x ↦
              let eq : probe K F e stats now [] ≡ closed = ground arith in
              subst (λ z. Kept e z → z.bpf_write_failures ≡ e.bpf_write_failures → Agrees z)
                (sym eq) (close_circuit-Agrees e now sample.delta_pps sample.delta_bps) a h
          | inr x ↦
              let eq : probe K F e stats now [] ≡ e = ground arith in
              subst (λ z. Kept e z → Agrees z) (sym eq) (λ k. k refl) a
        ]
    probe-Agrees e stats now (r ∷ rs) s a h = ground arith

    pub tick-Agrees :
        (e : Engine W R) (now : ℕ)
        → Kept e (tick K F e now)
        → (tick K F e now).bpf_write_failures ≡ e.bpf_write_failures
        → Agrees (tick K F e now)
    unfolding tick tick_half_open
    tick-Agrees e now a h = elim (Option-cases (read_stats K e.mgr)) [
      | inl failed ↦ rw (failed, tick) ((rw (failed, tick) at a) refl)
      | inr (stats, ok) ↦
          rw (ok, tick) (in_state stats e.cb.state refl (rw (ok, tick) at a) (rw (ok, tick) at h))
    ]
      where
        in_state :
            (stats : XdpStats) (s : CircuitState)
            → e.cb.state ≡ s
            → Kept e (tick_in K F s e stats now)
            → (tick_in K F s e stats now).bpf_write_failures ≡ e.bpf_write_failures
            → Agrees (tick_in K F s e stats now)
        in_state stats state_closed q k f = tick_closed-Agrees e stats now k f
        in_state stats state_open q k f = tick_open-Agrees e stats now k
        in_state stats state_half_open q k f =
            let (det, results) = analyze F e.detector stats now in
            probe-Agrees (record e { detector = det }) stats now results q k f
