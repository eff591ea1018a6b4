-- ===== src/Auth/Service/Rate.antt =====
-- The limit of login attempts from one address.
use Prim.Native.String.{String}
use text.Mathlib.TextPositions.{eq_refl}
use falx_v.Base.{ℕ, ◌+◌, ◌-◌, ◌≤◌, ◌≡◌, List, [], ◌∷◌, none, some, All, ltb, if◌then◌else◌, arith}
use falx_v.Base.Dict.{Dict, insert}
use falx_v.Auth.Action.{ok, err, too_many_attempts}
use falx_v.Auth.Host.{Host}
use falx_v.Auth.Service.{
  Service, LoginRateLimiter, login_rate_limit, login_rate_window, evicted, attempted, limited_host,
  check_login_rate,
}

module _ {D : Type 0} (H : Host D) (ip : String) where
  -- How many attempts from the address pass, at these times.
  unfoldable pub passed : List ℕ → Service D → ℕ
  passed [] s = 0
  passed (now ∷ times) s =
      let (r, s') = check_login_rate H ip now s in
      (elim r [ ok _ ↦ 1 | err e ↦ 0 ]) + passed times s'

  abbrev pub host : String
  host = limited_host (H.host_of ip) ip

  evicted-kept :
      (m : Dict LoginRateLimiter) (now : ℕ) (rl : LoginRateLimiter)
      → m host ≡ some rl
      → now ≤ rl.reset_at
      → evicted m now host ≡ some rl
  unfolding evicted
  evicted-kept m now rl e h = rw (evicted, e) (ground arith)

  -- One more attempt in the window.
  check_login_rate-counted :
      (now : ℕ) (s : Service D) (rl : LoginRateLimiter)
      → s.login_rl host ≡ some rl
      → now ≤ rl.reset_at
      → ((check_login_rate H ip now s).0
          ≡ (if ltb login_rate_limit (rl.attempts + 1) then err too_many_attempts else ok tt))
        × ((check_login_rate H ip now s).1.login_rl host
            ≡ some (record rl { attempts = rl.attempts + 1 }))
  unfolding check_login_rate attempted insert
  check_login_rate-counted now s rl e h =
      let kept = evicted-kept s.login_rl now rl e h in
      (ground (arith, kept), ground (arith, kept, eq_refl host))

  passed-le :
      (times : List ℕ) (s : Service D) (rl : LoginRateLimiter)
      → s.login_rl host ≡ some rl
      → All (λ now. now ≤ rl.reset_at) times
      → passed times s ≤ login_rate_limit - rl.attempts
  unfolding passed
  passed-le [] s rl e a = omega arith
  passed-le (now ∷ times) s rl e (h, a) =
      let (r, e') = check_login_rate-counted now s rl e h in
      let ih =
        passed-le times (check_login_rate H ip now s).1 (record rl { attempts = rl.attempts + 1 })
          e' a in
      ground (arith, r, ih)

  check_login_rate-first :
      (now : ℕ) (s : Service D)
      → s.login_rl host ≡ none
      → (check_login_rate H ip now s).1.login_rl host
        ≡ some (record { attempts = 1; reset_at = now + login_rate_window })
  unfolding check_login_rate attempted insert evicted
  check_login_rate-first now s e = ground (arith, e, eq_refl host)

  -- Of the attempts from an address that has none counted, at most ten pass in the minute after the
  -- first.
  pub passed-first :
      (now : ℕ) (times : List ℕ) (s : Service D)
      → s.login_rl host ≡ none
      → All (λ t. t ≤ now + login_rate_window) times
      → passed (now ∷ times) s ≤ login_rate_limit
  unfolding passed
  passed-first now times s e a =
      let rest =
        passed-le times (check_login_rate H ip now s).1 _ (check_login_rate-first now s e) a in
      ground (arith, rest)
