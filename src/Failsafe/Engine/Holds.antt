-- ===== src/Failsafe/Engine/Holds.antt =====
-- The operator's force-close against the ticks after it.
use falx_v.Base.{ℕ, ◌+◌, ◌≤◌, ◌≡◌, Bool, true, List, [], ◌∷◌, All, arith}
use falx_v.Base.Floats.{Floats}
use falx_v.Bpfmaps.Kernel.{KernelMaps}
use falx_v.Failsafe.Reason.{Reason}
use falx_v.Failsafe.Breaker.{state_closed, close, reset_violation}
use falx_v.Failsafe.Latch.{is_active, arm, admin_override_cooldown}
use falx_v.Failsafe.Engine.{
  Engine, override_force_close, write_circuit, publish_transition, tick_closed, tick_in, tick,
}
use falx_v.Failsafe.Engine.Override.{apply_override}
use falx_v.Failsafe.Engine.Ticks.{in_world, ticks}

module _ {W R : Type 0} (K : KernelMaps W) (F : Floats R) where
  -- The circuit is closed, and the latch holds it so until `t` at least.
  abbrev Held : Engine W R → ℕ → Type 0
  Held e t = (e.cb.state ≡ state_closed) × (e.admin_latch.active ≡ true) × (t ≤ e.admin_latch.until)

  tick-Held : (e : Engine W R) (now t : ℕ) → Held e t → now ≤ t → Held (tick K F e now) t
  unfolding tick tick_in tick_closed is_active reset_violation
  tick-Held e now t h n = ground arith

  ticks-Held :
      (e : Engine W R) (t : ℕ) (ts : List (ℕ × W))
      → Held e t
      → All (λ p. p.0 ≤ t) ts
      → Held (ticks K F e ts) t
  unfolding ticks
  ticks-Held e t [] h a = h
  ticks-Held e t ((now, w) ∷ ts) h (n, a) =
      ticks-Held (tick K F (in_world e w) now) t ts (tick-Held (in_world e w) now t h n) a

  force_close-Held :
      (e : Engine W R) (now : ℕ) (ok : Bool) (reason : Reason)
      → Held
          (apply_override K F e now ok (override_force_close reason))
          (now + admin_override_cooldown)
  unfolding apply_override close arm write_circuit publish_transition
  force_close-Held e now ok reason = ground arith

  -- After an operator's force-close at `now`, whether or not the sentinel file could be written,
  -- the circuit is closed after every list of ticks up to the end of the cooldown, whatever
  -- the maps hold at each of them.
  pub force_close-ticks :
      (e : Engine W R) (now : ℕ) (ok : Bool) (reason : Reason) (ts : List (ℕ × W))
      → All (λ p. p.0 ≤ now + admin_override_cooldown) ts
      → (ticks K F (apply_override K F e now ok (override_force_close reason)) ts).cb.state
        ≡ state_closed
  force_close-ticks e now ok reason ts a =
      (ticks-Held (apply_override K F e now ok (override_force_close reason))
        (now + admin_override_cooldown) ts (force_close-Held e now ok reason) a).0
