-- ===== src/Control/Thresholds.antt =====
-- The threshold synchroniser, control-plane/control/failsafe.go. A signal leads to one call of
-- sync_now; waiting for it is left out.
use falx_v.Base.{ℕ, ◌≡◌, Option, none, some, arith}
use falx_v.Bpfmaps.Types.{FailsafeState}
use falx_v.Bpfmaps.Kernel.{KernelMaps, UpdateLaws}
use falx_v.Bpfmaps.Audit.{MapError}
use falx_v.Bpfmaps.Manager.{Manager, update_failsafe_thresholds, read_failsafe_state}

pub record ThresholdSnapshot : Type 0 where
  pub pps : ℕ
  pub bps : ℕ

pub record ThresholdSynchronizer (W : Type 0) : Type 0 where
  pub snap : ThresholdSnapshot
  pub mgr : Manager W

module _ {W : Type 0} where
  unfoldable pub update_local : ThresholdSynchronizer W → ℕ → ℕ → ThresholdSynchronizer W
  update_local ts pps bps = record ts { snap = record { pps = pps; bps = bps } }

  module _ (K : KernelMaps W) where
    unfoldable pub sync_now :
        ThresholdSynchronizer W → ℕ → ThresholdSynchronizer W × Option MapError
    sync_now ts now =
        let (mgr', err) = update_failsafe_thresholds K ts.mgr now ts.snap.pps ts.snap.bps in
        (record ts { mgr = mgr' }, err)

    unfoldable pub sync_failsafe_thresholds : Manager W → ℕ → ℕ → ℕ → Manager W × Option MapError
    sync_failsafe_thresholds mgr now pps bps = update_failsafe_thresholds K mgr now pps bps

    -- The synchroniser, or the error of its first sync.
    unfoldable pub new_threshold_synchronizer :
        Manager W → ℕ → ℕ → ℕ → ThresholdSynchronizer W × Option MapError
    new_threshold_synchronizer mgr now initial_pps initial_bps =
        sync_now (record { snap = record { pps = initial_pps; bps = initial_bps }; mgr = mgr }) now

    -- A sync that reports success after a local update has put the new thresholds into the kernel,
    -- and has left the flag of the circuit.
    pub sync_now-update_local :
        (ts ts' : ThresholdSynchronizer W) (now pps bps : ℕ) (before : FailsafeState)
        → UpdateLaws K.failsafe_state
        → read_failsafe_state K ts.mgr ≡ some before
        → sync_now (update_local ts pps bps) now ≡ (ts', none)
        → read_failsafe_state K ts'.mgr
          ≡ some (record before { pps_threshold = pps; bps_threshold = bps })
    unfolding sync_now update_local update_failsafe_thresholds read_failsafe_state
    sync_now-update_local ts ts' now pps bps before laws r e = ground (
      arith,
      laws.lookup-update ts.mgr.world ts'.mgr.world 0
          (record before { pps_threshold = pps; bps_threshold = bps }),
    )
