-- ===== src/Auth/Service/Concurrent.antt =====
-- Logins that run at the same time. Login holds no lock between the read of the account and the count
-- of a failure, so that it is here two parts, between which any parts of others may come.
pub mod Refused
use Prim.Native.String.{String}
use mathlib.Core.Path.{subst}
use falx_v.Base.{
  ℕ, zero, suc, ◌+◌, ◌-◌, ◌≤◌, ◌≡◌, refl, ◌⊎◌, sym, ap, ◌∙◌, true, false, List, [], ◌∷◌, Option,
  none, some, All, leb, if◌then◌else◌, arith, length, Bool-cases, Option-cases, inl, inr,
}
use falx_v.Auth.Models.{User}
use falx_v.Auth.Action.{
  Outcome, Outcome-cases, ok, err, AuthError, invalid_credentials, account_locked, pure, ◌>>=◌,
  ◌>>◌, bind_ok, bind_err, bind_cong, bind_assoc, Action,
}
use falx_v.Auth.Store.{failed, max_failed_attempts}
use falx_v.Auth.Host.{Host, Random}
use falx_v.Auth.Tokens.{TokenPair}
use falx_v.Auth.Service.{
  Service, LoginRequest, check_login_rate, find_user, matches, check_password, check_totp,
  check_account, open_session, login,
}
use falx_v.Auth.Service.Failures.{
  Account, Guess, request_of, is_refusal, find_user-Account, check_account-locked,
  check_account-passes, check_password-wrong, check_login_rate-err,
}

module _ {D : Type 0} (H : Host D) where
  -- Up to the read of the account and the look at whether it is locked.
  unfoldable pub begin_login :
      LoginRequest → (ip ua : String) → Random → (now : ℕ) → Action (Service D) User
  begin_login req ip ua rnd now = do
    check_login_rate H ip now
    u ← find_user H req.username ip ua rnd now
    check_account H u ip ua rnd now
    pure u

  -- The rest, with the account as it was read.
  unfoldable pub finish_login :
      User
      → LoginRequest
      → (ip ua : String) → Random
      → (now : ℕ) → Action (Service D) (TokenPair × User)
  finish_login u req ip ua rnd now = do
    check_password H u req.password ip ua rnd now
    check_totp H u req.totp_code ip ua rnd now
    pair ← open_session H u ip ua rnd now
    pure (pair, record u { last_login = now })

  pure-bind :
      {A B : Type 0} (a : A) (f : A → Action (Service D) B) (s : Service D)
      → (pure a >>= f) s ≡ f a s
  unfolding pure ◌>>=◌
  pure-bind a f s = refl

  -- A login that nothing comes between is its two parts.
  login-begin_login :
      (req : LoginRequest) (ip ua : String) (rnd : Random) (now : ℕ) (s : Service D)
      → login H req ip ua rnd now s
        ≡ (begin_login req ip ua rnd now >>= λ u. finish_login u req ip ua rnd now) s
  unfolding login begin_login finish_login
  login-begin_login req ip ua rnd now s = sym (
      bind_assoc _ _ _ s
      ∙ bind_cong _ _ _ s (λ a t.
        bind_assoc _ _ _ t
        ∙ bind_cong _ _ _ t
            (λ u t₁. bind_assoc _ _ _ t₁ ∙ bind_cong _ _ _ t₁ (λ b t₂. pure-bind u _ t₂))))

-- A login between its two parts: the account as it was read.
pub record Flight : Type 0 where
  pub guess : Guess
  pub user : User

-- The flights, and how many logins have ended in the error of wrong credentials.
pub record System (D : Type 0) : Type 0 where
  pub service : Service D
  pub flights : List Flight
  pub refused : ℕ

-- A login begins, or the one at a place among the flights goes on to its end.
pub data Event : Type 0 where
  begins : Guess → Event
  ends : ℕ → (now : ℕ) → Event

unfoldable pub pick : ℕ → List Flight → Option (Flight × List Flight)
pick i [] = none
pick zero (x ∷ xs) = some (x, xs)
pick (suc i) (x ∷ xs) = elim (pick i xs) [ none ↦ none | some (y, ys) ↦ some (y, x ∷ ys) ]

module _ {D : Type 0} (H : Host D) (name : String) where
  unfoldable pub counted : {A : Type 0} → Outcome A → ℕ
  counted r = if is_refusal r then 1 else 0

  unfoldable pub begun : Guess → Outcome User → Service D → System D → System D
  begun g (ok u) sv s = record s {
    service = sv;
    flights = record { guess = g; user = u } ∷ s.flights;
  }
  begun g (err e) sv s = record s { service = sv; refused = s.refused + counted {A = User} (err e) }

  unfoldable pub happens : Event → System D → System D
  unfolding counted begun
  happens (begins g) s =
      let (r, sv) = begin_login H (request_of name g) g.ip g.ua g.rnd g.now s.service in
      begun g r sv s
  happens (ends i now) s = elim (pick i s.flights) [
    | none ↦ s
    | some (x, rest) ↦
        let g = x.guess in
        let (r, sv) = finish_login H x.user (request_of name g) g.ip g.ua g.rnd now s.service in
        record { service = sv; flights = rest; refused = s.refused + counted r }
  ]

  unfoldable pub run : List Event → System D → System D
  run [] s = s
  run (e ∷ es) s = run es (happens e s)

  -- At most so many logins are under way at any time.
  abbrev pub HasAtMost : ℕ → List Event → System D → Type 0
  HasAtMost n [] s = length s.flights ≤ n
  HasAtMost n (e ∷ es) s = (length s.flights ≤ n) × HasAtMost n es (happens e s)

  abbrev pub IsWrong : String → Event → Type 0
  IsWrong hash (begins g) = matches H g.password hash ≡ false
  IsWrong hash (ends i now) = Unit
