-- ===== src/Auth/Service/Granted.antt =====
-- What a login that succeeds has checked, and what its token claims.
use Prim.Native.String.{String}
use mathlib.Core.Path.{subst}
use falx_v.Base.{ℕ, ◌≡◌, refl, ap, ◌∙◌, Bool, true, false, List, Option, some, arith, inl, inr}
use falx_v.Base.Time.{unix}
use falx_v.Auth.Models.{User, Session}
use falx_v.Auth.Password.{Password}
use falx_v.Auth.Totp.{verify_totp_code}
use falx_v.Auth.Action.{
  Action, Outcome, ok, err, Outcome-cases, bind-eq-ok, ◌>>=◌, of, pure, raise, raise_if, modify,
  ignore,
}
use falx_v.Auth.Action.Gives.{Gives, pure-Gives, of-Gives, bind-Gives, after-Gives}
use falx_v.Auth.Store.{Store, create_session, get_user_by_username}
use falx_v.Auth.Host.{Host, Random}
use falx_v.Auth.Tokens.{TokenPair, generate_access_token, claims_of, tfa_ok, scope_for}
use falx_v.Auth.Service.{
  Service, LoginRequest, on_store, audit, check_login_rate, find_user, refuse, matches,
  check_password, verify_totp, check_totp, check_account, open_session, login, is_panic,
}

pair_of : TokenPair → Outcome (TokenPair × User) → TokenPair
pair_of p (ok x) = x.0
pair_of p (err e) = p

module _ {D : Type 0} (H : Host D) where
  find_user-eq-ok :
      (username ip ua : String) (rnd : Random) (now : ℕ) (s : Service D) (u : User)
      → (find_user H username ip ua rnd now s).0 ≡ ok u
      → ((get_user_by_username username s.store).0 ≡ ok u)
        × ((find_user H username ip ua rnd now s).1 ≡ s)
  unfolding find_user audit modify ◌>>=◌ raise raise_if pure is_panic
  find_user-eq-ok username ip ua rnd now s u h =
      elim (Outcome-cases (get_user_by_username username s.store).0) [
        | inl (v, e) ↦ ground arith
        | inr (x, e) ↦ absurd (ground arith)
      ]

  check_account-eq-ok :
      (u : User) (ip ua : String) (rnd : Random) (now : ℕ) (s : Service D)
      → (check_account H u ip ua rnd now s).0 ≡ ok tt
      → (u.active ≡ true) × (u.locked ≡ false) × ((check_account H u ip ua rnd now s).1 ≡ s)
  unfolding check_account pure refuse audit modify ◌>>=◌ raise
  check_account-eq-ok u ip ua rnd now s h = ground arith

  check_password-eq-ok :
      (u : User) (p : Password) (ip ua : String) (rnd : Random) (now : ℕ) (s : Service D)
      → (check_password H u p ip ua rnd now s).0 ≡ ok tt
      → (matches H p u.password_hash ≡ true) × ((check_password H u p ip ua rnd now s).1 ≡ s)
  unfolding check_password pure refuse audit modify ◌>>=◌ raise ignore
  check_password-eq-ok u p ip ua rnd now s h = ground arith

  -- What VerifyTOTPCode says of a code at the cache of the service.
  abbrev pub fits : User → List ℕ → (now : ℕ) → Service D → Bool
  fits u code now s = (verify_totp_code H.codec s.totp_cache u.totp_secret code (unix now)).1

  check_totp-eq-ok :
      (u : User) (code : List ℕ) (ip ua : String) (rnd : Random) (now : ℕ) (s : Service D)
      → (check_totp H u code ip ua rnd now s).0 ≡ ok tt
      → u.totp_enabled ≡ true
      → fits u code now s ≡ true
  unfolding check_totp verify_totp pure refuse audit modify ◌>>=◌ raise
  check_totp-eq-ok u code ip ua rnd now s h e = ground arith

  on_store-Gives :
      {A : Type 0} {Q : A → Type 0} (m : Action (Store D) A) → Gives Q m → Gives Q (on_store H m)
  unfolding on_store
  on_store-Gives m g = record { at = λ s a e. g.at s.store a e }

  create_session-Gives :
      (x : Session) (id : String) (now : ℕ)
      → Gives (λ y. y.id ≡ id) (create_session H.exec x id now)
  unfolding create_session
  create_session-Gives x id now =
      after-Gives _ _
        (λ a. after-Gives _ _ (λ b. pure-Gives {Q = λ (y : Session). y.id ≡ id} _ refl))

  abbrev pub IsSignedFor : User → (id : String) → (now : ℕ) → TokenPair → Type 0
  IsSignedFor u id now pair =
      H.sign (claims_of u id (tfa_ok u) (scope_for u) now) ≡ some pair.access_token

  generate-Gives :
      (u : User) (id : String) (refresh : Option Password) (now : ℕ)
      → Gives {S = Service D}
          (IsSignedFor u id now)
          (of (generate_access_token H u id (tfa_ok u) (scope_for u) refresh now))
  unfolding generate_access_token
  generate-Gives u id refresh now = of-Gives _ (λ pair e. ground (arith, e))

  -- The token is signed over the claims of the user.
  open_session-Gives :
      (u : User) (ip ua : String) (rnd : Random) (now : ℕ)
      → Gives (IsSignedFor u rnd.id now) (open_session H u ip ua rnd now)
  unfolding open_session
  open_session-Gives u ip ua rnd now = after-Gives _ _ (λ a. after-Gives _ _ (λ tokens.
      bind-Gives {R = λ x. x.id ≡ rnd.id} _ _ (on_store-Gives _ (create_session-Gives _ rnd.id now))
        (λ x e. bind-Gives {R = IsSignedFor u x.id now} _ _ (generate-Gives u x.id _ now) (λ pair g.
          after-Gives _ _ (λ b.
            after-Gives _ _ (λ c. pure-Gives pair (subst (λ k. IsSignedFor u k now pair) e g)))))))

  -- A login that succeeds was of an active account that is not locked, with its password, and with a
  -- code that fits if the account has a second factor. Its token is signed over claims that name the
  -- user and say that the second factor is done only if the code fitted or the role needs none, and
  -- whose scope is the full one in the same cases.
  pub login-eq-ok :
      (req : LoginRequest) (ip ua : String) (rnd : Random) (now : ℕ) (s : Service D)
      (pair : TokenPair) (view : User)
      → (login H req ip ua rnd now s).0 ≡ ok (pair, view)
      → (u : User) × ((get_user_by_username req.username s.store).0 ≡ ok u)
        × (u.active ≡ true)
        × (u.locked ≡ false)
        × (matches H req.password u.password_hash ≡ true)
        × (u.totp_enabled ≡ true → fits u req.totp_code now s ≡ true)
        × IsSignedFor u rnd.id now pair
  unfolding login check_login_rate pure pair_of
  login-eq-ok req ip ua rnd now s pair view h =
      let (a, e₀, h₀) = bind-eq-ok _ _ s (pair, view) h in
      let (u, e₁, h₁) = bind-eq-ok _ _ _ (pair, view) h₀ in
      let (b, e₂, h₂) = bind-eq-ok _ _ _ (pair, view) h₁ in
      let (c, e₃, h₃) = bind-eq-ok _ _ _ (pair, view) h₂ in
      let (d, e₄, h₄) = bind-eq-ok _ _ _ (pair, view) h₃ in
      let (p, e₅, h₅) = bind-eq-ok _ _ _ (pair, view) h₄ in
      let (found, s₁) = find_user-eq-ok req.username ip ua rnd now _ u e₁ in
      let (active, unlocked, s₂) = check_account-eq-ok u ip ua rnd now _ e₂ in
      let (known, s₃) = check_password-eq-ok u req.password ip ua rnd now _ e₃ in
      let signed = (open_session-Gives u ip ua rnd now).at _ p e₅ in
      (
        u,
        found,
        active,
        unlocked,
        known,
        λ e.
            subst (λ z. fits u req.totp_code now z ≡ true) (s₃ ∙ (s₂ ∙ s₁))
              (check_totp-eq-ok u req.totp_code ip ua rnd now _ e₄ e),
        subst (IsSignedFor u rnd.id now) (ap (pair_of p) h₅) signed,
      )
