-- ===== src/Failsafe/Recovery/Backoff.antt =====
-- The exponential backoff of the cooldown.
use native.Mathlib.Nat.{pow-suc, pow-le-pow_right, mul-le-mul_left, lt-mul-div-succ}
use native.Mathlib.Numerals.{add-one}
use falx_v.Base.{
  ℕ, zero, suc, ◌+◌, ◌-◌, ◌*◌, ◌/◌, ◌^◌, ◌≤◌, ◌<◌, min, ◌≡◌, inl, inr, ltb, if◌then◌else◌,
  Bool-cases, arith,
}
use falx_v.Failsafe.Recovery.{RecoveryConfig, log2, cooldown_for}

lt-pow-log2 : (f n : ℕ) → n ≤ f → n < 2 ^ suc (log2 f n)
unfolding log2
lt-pow-log2 zero n h = omega arith
lt-pow-log2 (suc f) n h = elim (Bool-cases (ltb n 2)) [
  | inl e ↦ rw (e, log2) (ground arith)
  | inr e ↦
      rw (e, log2)
        (let ih = lt-pow-log2 f (n / 2) (ground arith) in
          omega (arith, ih, pow-suc 2 (suc (log2 f (n / 2)))))
]

-- The shift that the code stops at is large enough to pass the largest cooldown.
lt-mul-pow : (base top : ℕ) → 0 < base → top < base * 2 ^ (log2 (top / base) (top / base) + 1)
lt-mul-pow base top h =
    let shift = log2 (top / base) (top / base) in
    let bound : top / base < 2 ^ suc shift = lt-pow-log2 (top / base) (top / base) (omega arith) in
    rw add-one (omega (arith, lt-mul-div-succ top h, mul-le-mul_left base bound))

-- Beyond that shift nothing changes.
capped_shift :
    (base top s n : ℕ)
    → top < base * 2 ^ s
    → (let shift = if ltb s n then s else n in
        let d = base * 2 ^ shift in if ltb top d then top else d)
      ≡ min (base * 2 ^ n) top
capped_shift base top s n h = elim (Bool-cases (ltb s n)) [
  | inl e ↦ rw e (
      ground (
        arith,
        mul-le-mul_left base
            (pow-le-pow_right {n = 2} (omega arith) {i = s} {j = n} (ground arith)),
      ))
  | inr e ↦ rw e (ground arith)
]

-- From the first trip on, the cooldown is the base cooldown doubled once for each trip after the
-- first, up to the largest cooldown.
pub cooldown_for-doubles :
    (cfg : RecoveryConfig) (n : ℕ)
    → 0 < cfg.base_cooldown
    → cfg.base_cooldown ≤ cfg.max_cooldown
    → cooldown_for cfg (n + 1) ≡ min (cfg.base_cooldown * 2 ^ n) cfg.max_cooldown
unfolding cooldown_for
cooldown_for-doubles cfg zero h k = omega arith
cooldown_for-doubles cfg (suc n) h k =
    let e : suc n + 1 - 1 ≡ suc n = omega arith in
    rw e (
      ground (
        arith,
        capped_shift cfg.base_cooldown cfg.max_cooldown _ (suc n)
            (lt-mul-pow cfg.base_cooldown cfg.max_cooldown h),
      ))
