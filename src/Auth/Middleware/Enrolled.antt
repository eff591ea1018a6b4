-- ===== src/Auth/Middleware/Enrolled.antt =====
-- The token of a login that has not enrolled the second factor that its role needs.
use Prim.Native.String.{String}
use mathlib.Core.Path.{subst}
use falx_v.Base.{
  ℕ, ◌≡◌, refl, sym, ◌∙◌, Bool, true, false, not, ◌&&◌, ◌||◌, List, [], ◌∷◌, All, Option, some,
  arith, Bool-cases, inl, inr,
}
use falx_v.Auth.Models.{User, TokenClaims, requires_2fa}
use falx_v.Base.Dict.{among}
use falx_v.Auth.Action.{ok}
use falx_v.Auth.Host.{Host, Random}
use falx_v.Auth.Tokens.{TokenPair, claims_of, tfa_ok, scope_for, verify_access_token}
use falx_v.Auth.Store.{get_user_by_username}
use falx_v.Auth.Service.{Service, LoginRequest, login}
use falx_v.Auth.Service.Granted.{login-eq-ok}
use falx_v.Auth.Middleware.{
  Texts, Request, Reply, refused, served, Handler, extract_bearer_token, Guard, anyone, enrolling,
  authed, permitted, ranked, socket, guarded, Route, routes,
}
use falx_v.Auth.Middleware.Passed.{asks_token, meets, guarded-served}

-- The guards that ask for the second factor.
abbrev pub is_strict : Guard → Bool
is_strict anyone = false
is_strict enrolling = false
is_strict _ = true

abbrev pub is_served : {A : Type 0} → Reply A → Bool
is_served (served a) = true
is_served (refused status code) = false

-- The routes for logging in, for enrolling, for showing the own account, for logging out, and those
-- that ask for no token.
abbrev pub open_paths : List String
open_paths =
    "/api/v1/auth/login" ∷ "/api/v1/auth/refresh" ∷ "/api/v1/auth/logout"
    ∷ "/api/v1/auth/logout-all" ∷ "/api/v1/auth/me" ∷ "/api/v1/auth/totp/begin"
    ∷ "/api/v1/auth/totp/confirm" ∷ "/healthz" ∷ "/readyz" ∷ "/" ∷ []

-- Every other route is guarded by a check of the second factor.
every : (Route → Bool) → List Route → Bool
every f [] = true
every f (x ∷ xs) = f x && every f xs

every-All :
    (f : Route → Bool) (P : Route → Type 0) (xs : List Route)
    → ((x : Route) → f x ≡ true → P x)
    → every f xs ≡ true
    → All P xs
unfolding every
every-All f P [] k h = tt
every-All f P (x ∷ xs) k h = (k x (ground arith), every-All f P xs k (ground arith))

abbrev is_checked : Route → Bool
is_checked rt = is_strict rt.guard || among open_paths rt.path

routes-checked : every is_checked routes ≡ true
unfolding every among
routes-checked = refl

strict-meets :
    (g : Guard) (c : TokenClaims) → is_strict g ≡ true → meets g c ≡ true → c.tfa_verified ≡ true
unfolding meets
strict-meets anyone c k m = absurd (ground arith)
strict-meets enrolling c k m = absurd (ground arith)
strict-meets authed c k m = ground arith
strict-meets (permitted perm) c k m = ground arith
strict-meets (ranked min_role) c k m = ground arith
strict-meets socket c k m = m

asks-strict : (g : Guard) → is_strict g ≡ true → asks_token g ≡ true
asks-strict anyone k = absurd (ground arith)
asks-strict enrolling k = refl
asks-strict authed k = refl
asks-strict (permitted perm) k = refl
asks-strict (ranked min_role) k = refl
asks-strict socket k = refl

is_served-served : {A : Type 0} (x : Reply A) → is_served x ≡ true → (a : A) × (x ≡ served a)
is_served-served (served a) e = (a, refl)
is_served-served (refused status code) e = absurd (ground arith)

verify-parse :
    {D : Type 0} (H : Host D) (token : String) (now : ℕ) (c : TokenClaims)
    → verify_access_token H token now ≡ ok c
    → H.parse token now ≡ some c
unfolding verify_access_token
verify-parse H token now c e = ground arith

module _ {D A : Type 0} (H : Host D) (T : Texts) where
  strict-refused :
      (g : Guard) (r : Request) (now : ℕ) (next : Handler D A) (context : Option TokenClaims)
      (s : Service D)
      → ((c : TokenClaims)
          → H.parse (extract_bearer_token T r) now ≡ some c
          → c.tfa_verified ≡ false)
      → is_strict g ≡ true
      → is_served (guarded H T g r now next context s).0 ≡ false
  strict-refused g r now next context s unverified k =
      elim (Bool-cases (is_served (guarded H T g r now next context s).0)) [
        | inr e ↦ e
        | inl e ↦
            let (a, h) = is_served-served (guarded H T g r now next context s).0 e in
            let (c, v, session, found, m, h') =
              guarded-served H T g r now next context s a (asks-strict g k) h in
            absurd (
              ground (
                arith,
                strict-meets g c k m,
                unverified c (verify-parse H (extract_bearer_token T r) now c v),
              ))
      ]

  -- A login of a user whose role needs the second factor and who has not enrolled it gives a token
  -- with which, at any time and in any state, only the routes for logging in, enrolling, showing the own
  -- account and logging out and those without a check serve a request. It is assumed that parsing a token gives
  -- the mark of the second factor over which the token was signed.
  pub login-guarded :
      (req : LoginRequest) (ip ua : String) (rnd : Random) (now : ℕ) (s : Service D)
      (pair : TokenPair) (view u : User) (r : Request) (later : ℕ) (next : Handler D A)
      (context : Option TokenClaims) (s' : Service D)
      → ((c c' : TokenClaims) (t : String) (at : ℕ)
          → H.sign c ≡ some t
          → H.parse t at ≡ some c'
          → c'.tfa_verified ≡ c.tfa_verified)
      → (login H req ip ua rnd now s).0 ≡ ok (pair, view)
      → (get_user_by_username req.username s.store).0 ≡ ok u
      → requires_2fa u.role ≡ true
      → u.totp_enabled ≡ false
      → extract_bearer_token T r ≡ pair.access_token
      → All
          (λ rt.
            (not (is_served (guarded H T rt.guard r later next context s').0)
              || among open_paths rt.path)
            ≡ true)
          routes
  unfolding claims_of tfa_ok
  login-guarded req ip ua rnd now s pair view u r later next context s' law done found needs off e =
      let (u', found', active, unlocked, known, code, signed) =
        login-eq-ok H req ip ua rnd now s pair view done in
      let is : u' ≡ u = ground (arith, found, found') in
      let unverified : (c : TokenClaims)
          → H.parse (extract_bearer_token T r) later ≡ some c
          → c.tfa_verified ≡ false =
        λ c p.
          law (claims_of u' rnd.id (tfa_ok u') (scope_for u') now) c pair.access_token later signed
            (subst (λ t. H.parse t later ≡ some c) e p)
          ∙ subst (λ x. tfa_ok x ≡ false) (sym is) (ground (arith, needs, off)) in
      every-All is_checked
        (λ rt.
          (not (is_served (guarded H T rt.guard r later next context s').0)
            || among open_paths rt.path)
          ≡ true)
        routes
        (λ rt k. elim (Bool-cases (is_strict rt.guard)) [
          | inl strict ↦
              ground (arith, strict-refused rt.guard r later next context s' unverified strict)
          | inr loose ↦ ground (arith, k, loose)
        ])
        routes-checked
