-- ===== src/Failsafe/Engine/Probe.antt =====
-- Recovery: the cooldown, the half-open probe, and what ends it.
use falx_v.Base.{ℕ, ◌+◌, ◌≤◌, ◌≡◌, ◌≢◌, true, [], ◌∷◌, some, ap, sym, ◌∙◌, arith}
use falx_v.Base.Floats.{Floats}
use falx_v.Bpfmaps.Types.{XdpStats}
use falx_v.Bpfmaps.Kernel.{KernelMaps}
use falx_v.Bpfmaps.Manager.{read_stats}
use falx_v.Failsafe.Breaker.{
  state_closed, state_open, state_half_open, attempt_recovery, close, re_trip,
}
use falx_v.Failsafe.Recovery.{
  RecoveryConfig, should_attempt_recovery, half_open_expired, cooldown_for,
}
use falx_v.Failsafe.Detector.{analyze}
use falx_v.Failsafe.Engine.{
  Engine, write_circuit, close_circuit, publish_transition, tick_open, probe, tick_half_open,
  tick_in, tick,
}
use falx_v.Failsafe.Engine.Ticks.{reported, in_world, ticks}

module _ {W R : Type 0} (K : KernelMaps W) (F : Floats R) where
  tick-probes :
      (e : Engine W R) (stats : XdpStats) (now : ℕ)
      → read_stats K e.mgr ≡ some stats
      → e.cb.state ≡ state_open
      → should_attempt_recovery e.recovery e.cb.opened_at e.cb.trip_count now ≡ true
      → ((tick K F e now).cb.state ≡ state_half_open)
        × ((tick K F e now).half_open_at ≡ now)
        × ((tick K F e now).recovery ≡ e.recovery)
        × ((tick K F e now).cb.trip_count ≡ e.cb.trip_count)
        × ((tick K F e now).detector ≡ e.detector)
  unfolding tick tick_in tick_open attempt_recovery
  tick-probes e stats now h c r = ground arith

  tick-recovers :
      (e : Engine W R) (stats : XdpStats) (now : ℕ)
      → read_stats K e.mgr ≡ some stats
      → e.cb.state ≡ state_half_open
      → reported K F e stats now ≡ []
      → half_open_expired e.recovery e.half_open_at now ≡ true
      → (tick K F e now).cb.state ≡ state_closed
  unfolding tick tick_in tick_half_open probe reported close_circuit close write_circuit
      publish_transition
  tick-recovers e stats now h c q x = ground arith

  tick-relapses :
      (e : Engine W R) (stats : XdpStats) (now : ℕ)
      → read_stats K e.mgr ≡ some stats
      → e.cb.state ≡ state_half_open
      → reported K F e stats now ≢ []
      → ((tick K F e now).cb.state ≡ state_open)
        × ((tick K F e now).cb.opened_at ≡ now)
        × ((tick K F e now).cb.trip_count ≡ e.cb.trip_count + 1)
  unfolding tick tick_in tick_half_open probe reported re_trip
  tick-relapses e stats now h c q = ground arith

  same_reports :
      (e e' : Engine W R) (stats : XdpStats) (now : ℕ)
      → e'.detector ≡ e.detector
      → reported K F e' stats now ≡ reported K F e stats now
  unfolding reported
  same_reports e e' stats now h = ap (λ d. (analyze F d stats now).1) h

  cooled :
      (cfg : RecoveryConfig) (opened_at trips now : ℕ)
      → opened_at + cooldown_for cfg trips ≤ now
      → should_attempt_recovery cfg opened_at trips now ≡ true
  unfolding should_attempt_recovery
  cooled cfg opened_at trips now n = ground arith

  expired :
      {cfg cfg' : RecoveryConfig} {at at' now : ℕ}
      → at' ≡ at
      → cfg' ≡ cfg
      → at + cfg.half_open_probe_window ≤ now
      → half_open_expired cfg' at' now ≡ true
  unfolding half_open_expired
  expired {cfg} {cfg'} {at} {at'} {now} a c n = rw (a, c) (ground arith)

  -- An open circuit whose cooldown is over when a tick reads the counters is closed by the next
  -- tick that reads them, if the detector reports nothing then and the probe window has gone by. That
  -- one quiet tick is enough: the number of quiet samples that the configuration has is not read.
  pub ticks-recover :
      (e : Engine W R) (t₁ t₂ : ℕ) (w₁ w₂ : W) (s₁ s₂ : XdpStats)
      → e.cb.state ≡ state_open
      → e.cb.opened_at + cooldown_for e.recovery e.cb.trip_count ≤ t₁
      → read_stats K (record (e.mgr) { world = w₁ }) ≡ some s₁
      → read_stats K (record ((tick K F (in_world e w₁) t₁).mgr) { world = w₂ }) ≡ some s₂
      → reported K F e s₂ t₂ ≡ []
      → t₁ + e.recovery.half_open_probe_window ≤ t₂
      → (ticks K F e ((t₁, w₁) ∷ (t₂, w₂) ∷ [])).cb.state ≡ state_closed
  unfolding ticks
  ticks-recover e t₁ t₂ w₁ w₂ s₁ s₂ c cool r₁ r₂ quiet window =
      let probing =
        tick-probes (in_world e w₁) s₁ t₁ r₁ c
          (cooled e.recovery e.cb.opened_at e.cb.trip_count t₁ cool) in
      let next = in_world (tick K F (in_world e w₁) t₁) w₂ in
      tick-recovers next s₂ t₂ r₂ (probing.0) (same_reports e next s₂ t₂ (probing.4) ∙ quiet)
        (expired (probing.1) (probing.2) window)

  -- An open circuit whose cooldown is over when a tick reads the counters is open again after the
  -- next tick that reads them, if the detector reports something then: it is open from that
  -- time on and counts one trip more.
  pub ticks-relapse :
      (e : Engine W R) (t₁ t₂ : ℕ) (w₁ w₂ : W) (s₁ s₂ : XdpStats)
      → e.cb.state ≡ state_open
      → e.cb.opened_at + cooldown_for e.recovery e.cb.trip_count ≤ t₁
      → read_stats K (record (e.mgr) { world = w₁ }) ≡ some s₁
      → read_stats K (record ((tick K F (in_world e w₁) t₁).mgr) { world = w₂ }) ≡ some s₂
      → reported K F e s₂ t₂ ≢ []
      → ((ticks K F e ((t₁, w₁) ∷ (t₂, w₂) ∷ [])).cb.state ≡ state_open)
        × ((ticks K F e ((t₁, w₁) ∷ (t₂, w₂) ∷ [])).cb.opened_at ≡ t₂)
        × ((ticks K F e ((t₁, w₁) ∷ (t₂, w₂) ∷ [])).cb.trip_count ≡ e.cb.trip_count + 1)
  unfolding ticks
  ticks-relapse e t₁ t₂ w₁ w₂ s₁ s₂ c cool r₁ r₂ loud =
      let probing =
        tick-probes (in_world e w₁) s₁ t₁ r₁ c
          (cooled e.recovery e.cb.opened_at e.cb.trip_count t₁ cool) in
      let next = in_world (tick K F (in_world e w₁) t₁) w₂ in
      let same = same_reports e next s₂ t₂ (probing.4) in
      let relapse = tick-relapses next s₂ t₂ r₂ (probing.0) (λ empty. loud (sym same ∙ empty)) in
      (relapse.0, relapse.1, relapse.2 ∙ ap (λ n. n + 1) (probing.3))
