-- ===== src/Bpfmaps/Manager/Circuit.antt =====
-- What the manager's operations do to the circuit state that the XDP program reads.
use falx_v.Base.{
  ℕ, ◌≡◌, refl, Bool, true, false, none, some, Bool-cases, Option-cases, inl, inr, if◌then◌else◌,
  arith,
}
use falx_v.Failsafe.Reason.{Reason}
use falx_v.Bpfmaps.Types.{FailsafeState}
use falx_v.Bpfmaps.RateLimiter.{op_failsafe, check}
use falx_v.Bpfmaps.Kernel.{KernelMaps, UpdateLaws}
use falx_v.Bpfmaps.Audit.{MapError}
use falx_v.Bpfmaps.Manager.{
  Manager, read_failsafe_state, switched, set_circuit_open, update_failsafe_thresholds,
}

abbrev pub flag : Bool → ℕ
flag true = 1
flag false = 0

module _ {W : Type 0} (K : KernelMaps W) where
  -- A switch that reports success has read a state and written its switched version.
  set_circuit_open-eq-none :
      (m m' : Manager W) (now : ℕ) (b : Bool) (reason : Reason)
      → set_circuit_open K m now b reason ≡ (m', none)
      → (before : FailsafeState) × (K.failsafe_state.lookup m.world 0 ≡ some before)
        × (K.failsafe_state.update m.world 0 (switched K before now b) ≡ some m'.world)
  unfolding set_circuit_open
  set_circuit_open-eq-none m m' now b reason h =
      elim (Option-cases (K.failsafe_state.lookup m.world 0)) [
        | inl e ↦ absurd (ground arith)
        | inr (before, e) ↦ (before, e, ground arith)
      ]

  -- After a switch of the circuit that reported success, the flag reads as it was asked for, and
  -- both thresholds read as before the switch; closing also clears the measured rates.
  pub set_circuit_open-read :
      (m m' : Manager W) (now : ℕ) (b : Bool) (reason : Reason)
      → UpdateLaws K.failsafe_state
      → set_circuit_open K m now b reason ≡ (m', none)
      → (before after : FailsafeState) × (read_failsafe_state K m ≡ some before)
        × (read_failsafe_state K m' ≡ some after)
        × (after.circuit_open ≡ flag b)
        × (after.pps_threshold ≡ before.pps_threshold)
        × (after.bps_threshold ≡ before.bps_threshold)
        × (after.current_pps ≡ (if b then before.current_pps else 0))
        × (after.current_bps ≡ (if b then before.current_bps else 0))
  unfolding read_failsafe_state switched
  set_circuit_open-read m m' now b reason laws h =
      let (before, e, up) = set_circuit_open-eq-none m m' now b reason h in
      let after = switched K before now b in
      (
        before,
        after,
        e,
        laws.lookup-update m.world m'.world 0 after up,
        ground arith,
        ground arith,
        ground arith,
        ground arith,
        ground arith,
      )

  -- A switch or a threshold update that reports an error leaves the kernel's maps as they were.
  pub set_circuit_open-eq-some :
      (m : Manager W) (now : ℕ) (b : Bool) (reason : Reason) (e : MapError)
      → (set_circuit_open K m now b reason).1 ≡ some e
      → (set_circuit_open K m now b reason).0.world ≡ m.world
  unfolding set_circuit_open
  set_circuit_open-eq-some m now b reason e h = ground arith

  -- A threshold update keeps the flag of the circuit, whether it reports success or an error.
  pub update_failsafe_thresholds-flag :
      (m : Manager W) (now pps bps : ℕ) (before : FailsafeState)
      → UpdateLaws K.failsafe_state
      → read_failsafe_state K m ≡ some before
      → (after : FailsafeState) × (read_failsafe_state K
            (update_failsafe_thresholds K m now pps bps).0
          ≡ some after)
        × (after.circuit_open ≡ before.circuit_open)
  unfolding update_failsafe_thresholds
  update_failsafe_thresholds-flag m now pps bps before laws h =
      elim (Bool-cases (check m.rl op_failsafe now).1) [
        | inl ok ↦ elim (Option-cases (K.failsafe_state.update m.world 0 after)) [
          | inl e ↦ (before, ground arith, refl)
          | inr (w, e) ↦ (after, ground (arith, laws.lookup-update m.world w 0 after e), refl)
        ]
        | inr refused ↦ (before, ground arith, refl)
      ]
    where
      after : FailsafeState
      after = record before { pps_threshold = pps; bps_threshold = bps }

  -- After a threshold update that reported success, the state reads as before it, with the two
  -- thresholds as they were given.
  pub update_failsafe_thresholds-read :
      (m m' : Manager W) (now pps bps : ℕ)
      → UpdateLaws K.failsafe_state
      → update_failsafe_thresholds K m now pps bps ≡ (m', none)
      → (before : FailsafeState) × (read_failsafe_state K m ≡ some before)
        × (read_failsafe_state K m'
            ≡ some (record before { pps_threshold = pps; bps_threshold = bps }))
  unfolding update_failsafe_thresholds read_failsafe_state
  update_failsafe_thresholds-read m m' now pps bps laws h =
      elim (Option-cases (K.failsafe_state.lookup m.world 0)) [
        | inl e ↦ absurd (ground arith)
        | inr (before, e) ↦ (before, e, laws.lookup-update m.world m'.world 0 _ (ground arith))
      ]
