-- ===== src/Failsafe/Detector.antt =====
-- The flood detector, control-plane/internal/failsafe/detector.go. `none` stands for a result
-- whose Triggered is false; the unused field cleanCount is left out.
pub mod Results
use falx_v.Base.{
  ℕ, ◌+◌, ◌-◌, ◌*◌, ◌%◌, ◌^◌, Bool, true, false, not, ◌&&◌, List, [], ◌∷◌, ◌++◌, Option, none, some,
  ltb, leb, ◌==◌, if◌then◌else◌,
}
use falx_v.Base.Floats.{Floats}
use falx_v.Bpfmaps.Types.{XdpStats}
use falx_v.Failsafe.Reason.{
  Algorithm, absolute_pps, absolute_bps, rate_spike, drop_ratio, parse_error_spike, Reason, exceeds,
  above_baseline, drop_ratio_exceeds, parse_errors_exceed,
}

pub record DetectionResult (R : Type 0) : Type 0 where
  pub algorithm : Algorithm
  pub reason : Reason
  pub current_pps : ℕ
  pub current_bps : ℕ
  pub confidence : R

pub record StatsSample (R : Type 0) : Type 0 where
  pub at : ℕ
  pub stats : XdpStats
  pub delta_pps : ℕ
  pub delta_bps : ℕ
  pub interval_ms : R

pub record DetectorConfig (R : Type 0) : Type 0 where
  pub pps_threshold : ℕ
  pub bps_threshold : ℕ
  pub spike_multiplier : R
  pub baseline_window : ℕ
  pub drop_ratio_threshold : R
  pub parse_error_rate_threshold : R
  pub consecutive_violations : ℕ
  pub consecutive_clean : ℕ

pub record Detector (R : Type 0) : Type 0 where
  pub cfg : DetectorConfig R
  pub ema_pps : R
  pub ema_bps : R
  pub ema_alpha : R
  pub sample_count : ℕ
  pub prev_stats : Option XdpStats
  pub prev_at : ℕ

-- `if r.Triggered { results = append(results, r) }`, in front of the later results.
abbrev pub kept {ℓ} : {A : Type ℓ} → Option A → List A → List A
kept none rs = rs
kept (some r) rs = r ∷ rs

unfoldable pub total_drops : XdpStats → ℕ
total_drops stats = (stats.dropped + stats.rate_limited + stats.failsafe_drops) % 2 ^ 64

module _ {R : Type 0} (F : Floats R) where
  open F use {of_uint64, to_uint64, duration_seconds, fadd, fsub, fmul, fdiv, fmin, flt, show}

  unfoldable pub new_detector : DetectorConfig R → Detector R
  new_detector cfg = record {
    cfg = cfg;
    ema_pps = of_uint64 0;
    ema_bps = of_uint64 0;
    ema_alpha = fdiv (of_uint64 2) (fadd (of_uint64 cfg.baseline_window) (of_uint64 1));
    sample_count = 0;
    prev_stats = none;
    prev_at = 0;
  }

  unfoldable pub update_thresholds : Detector R → ℕ → ℕ → Detector R
  update_thresholds d pps bps = record d {
    cfg = record (d.cfg) { pps_threshold = pps; bps_threshold = bps };
  }

  -- A sample with no rates.
  bare_sample : XdpStats → ℕ → StatsSample R
  bare_sample stats now = record {
    at = now;
    stats = stats;
    delta_pps = 0;
    delta_bps = 0;
    interval_ms = of_uint64 0;
  }

  sample_since : XdpStats → ℕ → XdpStats → ℕ → StatsSample R
  sample_since prev prev_at stats now =
      let interval_sec = duration_seconds (now - prev_at) in
      let delta_pkts = (stats.rx_packets + 2 ^ 64 - prev.rx_packets) % 2 ^ 64 in
      let delta_bytes = (stats.rx_bytes + 2 ^ 64 - prev.rx_bytes) % 2 ^ 64 in
      if flt (of_uint64 0) interval_sec
      then record (bare_sample stats now) {
        delta_pps = to_uint64 (fdiv (of_uint64 delta_pkts) interval_sec);
        delta_bps = to_uint64 (fdiv (of_uint64 (delta_bytes * 8 % 2 ^ 64)) interval_sec);
        interval_ms = fmul interval_sec (of_uint64 1000);
      }
      else bare_sample stats now

  unfoldable pub build_sample : Detector R → XdpStats → ℕ → StatsSample R
  unfolding bare_sample sample_since
  build_sample d stats now = elim d.prev_stats [
    | none ↦ bare_sample stats now
    | some prev ↦
        if d.prev_at == 0 then bare_sample stats now else sample_since prev d.prev_at stats now
  ]

  unfoldable pub check_absolute : Detector R → StatsSample R → Option (DetectionResult R)
  check_absolute d s =
      if ltb d.cfg.pps_threshold s.delta_pps
      then some (record {
        algorithm = absolute_pps;
        reason = exceeds absolute_pps s.delta_pps d.cfg.pps_threshold;
        current_pps = s.delta_pps;
        current_bps = s.delta_bps;
        confidence =
            fmin (fdiv (of_uint64 s.delta_pps) (of_uint64 d.cfg.pps_threshold)) (of_uint64 1);
      })
      else if ltb d.cfg.bps_threshold s.delta_bps
      then some (record {
        algorithm = absolute_bps;
        reason = exceeds absolute_bps s.delta_bps d.cfg.bps_threshold;
        current_pps = s.delta_pps;
        current_bps = s.delta_bps;
        confidence =
            fmin (fdiv (of_uint64 s.delta_bps) (of_uint64 d.cfg.bps_threshold)) (of_uint64 1);
      })
      else none

  unfoldable pub check_spike : Detector R → StatsSample R → Option (DetectionResult R)
  check_spike d s =
      let ratio = fdiv (of_uint64 s.delta_pps) d.ema_pps in
      let mult = d.cfg.spike_multiplier in
      if flt d.ema_pps (of_uint64 1)
      then none
      else if flt mult ratio
      then some (record {
        algorithm = rate_spike;
        reason = above_baseline s.delta_pps (show 1 ratio) (show 0 d.ema_pps) (show 1 mult);
        current_pps = s.delta_pps;
        current_bps = s.delta_bps;
        confidence = fmin (fdiv (fsub ratio (of_uint64 1)) (fsub mult (of_uint64 1))) (of_uint64 1);
      })
      else none

  unfoldable pub check_drop_ratio : Detector R → XdpStats → Option (DetectionResult R)
  unfolding total_drops
  check_drop_ratio d stats =
      let ratio = fdiv (of_uint64 (total_drops stats)) (of_uint64 stats.rx_packets) in
      let thr = d.cfg.drop_ratio_threshold in
      if stats.rx_packets == 0
      then none
      else if flt thr ratio
      then some (record {
        algorithm = drop_ratio;
        reason =
            drop_ratio_exceeds (show 1 (fmul ratio (of_uint64 100)))
              (show 1 (fmul thr (of_uint64 100))) (total_drops stats) stats.rx_packets;
        current_pps = 0;
        current_bps = 0;
        confidence = fmin (fdiv ratio thr) (of_uint64 1);
      })
      else none

  unfoldable pub check_parse_errors : Detector R → XdpStats → Option (DetectionResult R)
  check_parse_errors d stats =
      let err_rate = fdiv (of_uint64 stats.parse_errors) (of_uint64 stats.rx_packets) in
      let thr = d.cfg.parse_error_rate_threshold in
      if stats.rx_packets == 0
      then none
      else if flt thr err_rate
      then some (record {
        algorithm = parse_error_spike;
        reason =
            parse_errors_exceed (show 2 (fmul err_rate (of_uint64 100)))
              (show 2 (fmul thr (of_uint64 100)));
        current_pps = 0;
        current_bps = 0;
        confidence = fmin (fdiv err_rate thr) (of_uint64 1);
      })
      else none

  unfoldable pub update_ema : Detector R → StatsSample R → Detector R
  update_ema d s =
      let rest = fsub (of_uint64 1) d.ema_alpha in
      if leb d.sample_count 1
      then record d { ema_pps = of_uint64 s.delta_pps; ema_bps = of_uint64 s.delta_bps }
      else record d {
        ema_pps = fadd (fmul d.ema_alpha (of_uint64 s.delta_pps)) (fmul rest d.ema_pps);
        ema_bps = fadd (fmul d.ema_alpha (of_uint64 s.delta_bps)) (fmul rest d.ema_bps);
      }

  -- The results of the four algorithms, in order.
  unfoldable pub detections : Detector R → StatsSample R → XdpStats → List (DetectionResult R)
  detections d sample stats =
      let spike = if leb d.cfg.baseline_window d.sample_count then check_spike d sample else none in
      kept (check_absolute d sample)
        (kept spike (kept (check_drop_ratio d stats) (kept (check_parse_errors d stats) [])))

  unfoldable pub analyze : Detector R → XdpStats → ℕ → Detector R × List (DetectionResult R)
  unfolding detections
  analyze d stats now =
      let sample = build_sample d stats now in
      let d' = record d {
        prev_stats = some stats;
        prev_at = now;
        sample_count = d.sample_count + 1;
      } in
      if ltb d'.sample_count 2
      then (update_ema d' sample, [])
      else (update_ema d' sample, detections d' sample stats)
