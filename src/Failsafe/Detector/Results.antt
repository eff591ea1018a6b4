-- ===== src/Failsafe/Detector/Results.antt =====
-- What the detector reports.
use falx_v.Base.{
  ℕ, ◌+◌, ◌≤◌, ◌<◌, ◌≡◌, ◌≢◌, refl, ltb, ◌⊎◌, inl, inr, false, List, [], ◌∷◌, some, Option-cases,
  arith,
}
use falx_v.Base.Floats.{Floats}
use falx_v.Bpfmaps.Types.{XdpStats}
use falx_v.Failsafe.Reason.{absolute_pps, absolute_bps}
use falx_v.Failsafe.Detector.{
  Detector, DetectionResult, StatsSample, build_sample, check_absolute, analyze, update_thresholds,
  update_ema, kept,
}

module _ {R : Type 0} (F : Floats R) where
  check_absolute-over :
      (d : Detector R) (s : StatsSample R)
      → (d.cfg.pps_threshold < s.delta_pps) ⊎ (d.cfg.bps_threshold < s.delta_bps)
      → (r : DetectionResult R) × (check_absolute F d s ≡ some r)
        × ((r.algorithm ≡ absolute_pps) ⊎ (r.algorithm ≡ absolute_bps))
        × (r.current_pps ≡ s.delta_pps)
        × (r.current_bps ≡ s.delta_bps)
  unfolding check_absolute
  check_absolute-over d s over = elim (Option-cases (check_absolute F d s)) [
    | inl e ↦ absurd (ground arith)
    | inr (r, e) ↦ (r, e, ground arith, ground arith, ground arith)
  ]

  analyze-kept :
      (d : Detector R) (stats : XdpStats) (now : ℕ)
      → 1 ≤ d.sample_count
      → (more : List (DetectionResult R)) × ((analyze F d stats now).1
          ≡ kept (check_absolute F d (build_sample F d stats now)) more)
  unfolding analyze check_absolute
  analyze-kept d stats now h =
      let later : ltb (d.sample_count + 1) 2 ≡ false = ground arith in rw later (_, refl)

  -- A sample whose rate is above one of the two thresholds is reported first, with the rates that
  -- were measured, unless it is the very first sample.
  pub analyze-absolute :
      (d : Detector R) (stats : XdpStats) (now : ℕ)
      → 1 ≤ d.sample_count
      → (d.cfg.pps_threshold < (build_sample F d stats now).delta_pps)
        ⊎ (d.cfg.bps_threshold < (build_sample F d stats now).delta_bps)
      → (r : DetectionResult R) × (rest : List (DetectionResult R)) × ((analyze F d stats now).1
          ≡ r ∷ rest)
        × ((r.algorithm ≡ absolute_pps) ⊎ (r.algorithm ≡ absolute_bps))
        × (r.current_pps ≡ (build_sample F d stats now).delta_pps)
        × (r.current_bps ≡ (build_sample F d stats now).delta_bps)
  analyze-absolute d stats now h over =
      let (r, e, a, p, b) = check_absolute-over d (build_sample F d stats now) over in
      let (more, k) = analyze-kept d stats now h in (r, more, rw e at k, a, p, b)

  -- A threshold update changes neither the sample that is measured next nor the moving averages
  -- and the stored counters after it.
  pub update_thresholds-analyze :
      (d : Detector R) (stats : XdpStats) (now pps bps : ℕ)
      → let d' = update_thresholds F d pps bps in
        (build_sample F d' stats now ≡ build_sample F d stats now)
        × ((analyze F d' stats now).0.ema_pps ≡ (analyze F d stats now).0.ema_pps)
        × ((analyze F d' stats now).0.ema_bps ≡ (analyze F d stats now).0.ema_bps)
        × ((analyze F d' stats now).0.prev_stats ≡ (analyze F d stats now).0.prev_stats)
        × ((analyze F d' stats now).0.prev_at ≡ (analyze F d stats now).0.prev_at)
  unfolding update_thresholds build_sample analyze update_ema
  update_thresholds-analyze d stats now pps bps =
      (refl, ground arith, ground arith, ground arith, ground arith)

  -- A threshold update takes effect at the next sample, if that is not the first one: a rate
  -- above one of the new thresholds is reported.
  pub update_thresholds-detects :
      (d : Detector R) (stats : XdpStats) (now pps bps : ℕ)
      → 1 ≤ d.sample_count
      → (pps < (build_sample F d stats now).delta_pps)
        ⊎ (bps < (build_sample F d stats now).delta_bps)
      → (analyze F (update_thresholds F d pps bps) stats now).1 ≢ []
  unfolding update_thresholds build_sample
  update_thresholds-detects d stats now pps bps h over e =
      let (r, rest, k, _, _, _) =
        analyze-absolute (update_thresholds F d pps bps) stats now h over in
      cc (e, k)
