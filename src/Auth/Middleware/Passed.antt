-- ===== src/Auth/Middleware/Passed.antt =====
-- What a request has that passes the guards of its route.
use Prim.Native.String.{String}
use mathlib.Core.Path.{subst}
use falx_v.Base.{ℕ, ◌≡◌, refl, Bool, true, false, not, ◌&&◌, ltb, arith, inl, inr, Option, some}
use falx_v.Auth.Models.{level, has_permission, scope_session, TokenClaims, Session}
use falx_v.Auth.Action.{ok, Outcome-cases, bind-eq-ok, of, pure}
use falx_v.Auth.Host.{Host}
use falx_v.Auth.Tokens.{verify_access_token}
use falx_v.Auth.Store.{get_session}
use falx_v.Auth.Service.{Service, on_store, validate_request}
use falx_v.Auth.Middleware.{
  Texts, Request, served, Handler, extract_bearer_token, same_scope, require, require_tfa_verified,
  require_scope, require_permission, require_role, with_claims, require_auth, Guard, anyone,
  enrolling, authed, permitted, ranked, socket, guarded,
}

-- What a guard asks of the claims.
unfoldable pub meets : Guard → TokenClaims → Bool
meets anyone c = true
meets enrolling c = true
meets authed c = c.tfa_verified && same_scope c.scope scope_session
meets (permitted perm) c =
    c.tfa_verified && (same_scope c.scope scope_session && has_permission c.role perm)
meets (ranked min_role) c =
    c.tfa_verified
    && (same_scope c.scope scope_session && not (ltb (level c.role) (level min_role)))
meets socket c = c.tfa_verified

abbrev pub asks_token : Guard → Bool
asks_token anyone = false
asks_token _ = true

module _ {D : Type 0} (H : Host D) where
  validate_request-eq-ok :
      (token : String) (now : ℕ) (s : Service D) (claims : TokenClaims)
      → (validate_request H token now s).0 ≡ ok claims
      → (verify_access_token H token now ≡ ok claims)
        × (session : Session) × ((get_session claims.session_id now s.store).0 ≡ ok session)
  unfolding validate_request of on_store pure
  validate_request-eq-ok token now s claims h =
      let (c, e, h₁) = bind-eq-ok _ _ s claims h in
      let (session, found, h₂) = bind-eq-ok _ _ s claims h₁ in
      let (b, ignored, h₃) = bind-eq-ok _ _ _ claims h₂ in
      let is : c ≡ claims = ground (arith, h₃) in
      subst
        (λ x.
          (verify_access_token H token now ≡ ok x)
          × (session : Session) × ((get_session x.session_id now s.store).0 ≡ ok session))
        is (e, session, found)

module _ {D A : Type 0} (H : Host D) (T : Texts) where
  require-served :
      (f : TokenClaims → Bool) (code : String) (next : Handler D A) (c : TokenClaims)
      (s : Service D) (a : A)
      → (require f code next (some c) s).0 ≡ served a
      → (f c ≡ true) × ((next (some c) s).0 ≡ served a)
  unfolding require
  require-served f code next c s a h = ground arith

  require_auth-served :
      (r : Request) (now : ℕ) (next : Handler D A) (context : Option TokenClaims) (s : Service D)
      (a : A)
      → (require_auth H T r now next context s).0 ≡ served a
      → (c : TokenClaims) × ((validate_request H (extract_bearer_token T r) now s).0 ≡ ok c)
        × ((next (some c) (validate_request H (extract_bearer_token T r) now s).1).0 ≡ served a)
  unfolding require_auth with_claims
  require_auth-served r now next context s a h =
      elim (Outcome-cases (validate_request H (extract_bearer_token T r) now s).0) [
        | inl (c, e) ↦ (c, e, ground (arith, e))
        | inr (x, e) ↦ absurd (ground (arith, e))
      ]

  -- The checks of a guard after the one of the token.
  abbrev checked : Guard → Handler D A → Handler D A
  checked anyone next = next
  checked enrolling next = next
  checked authed next = require_tfa_verified (require_scope scope_session next)
  checked (permitted perm) next =
      require_tfa_verified (require_scope scope_session (require_permission perm next))
  checked (ranked min_role) next =
      require_tfa_verified (require_scope scope_session (require_role min_role next))
  checked socket next = require_tfa_verified next

  checked-served :
      (g : Guard) (next : Handler D A) (c : TokenClaims) (s : Service D) (a : A)
      → (checked g next (some c) s).0 ≡ served a
      → (meets g c ≡ true) × ((next (some c) s).0 ≡ served a)
  unfolding meets
  checked-served anyone next c s a h = (refl, h)
  checked-served enrolling next c s a h = (refl, h)
  checked-served authed next c s a h =
      let (t, h₁) = require-served _ _ _ c s a h in
      let (sc, h₂) = require-served _ _ next c s a h₁ in (ground (arith, t, sc), h₂)
  checked-served (permitted perm) next c s a h =
      let (t, h₁) = require-served _ _ _ c s a h in
      let (sc, h₂) = require-served _ _ _ c s a h₁ in
      let (p, h₃) = require-served _ _ next c s a h₂ in (ground (arith, t, sc, p), h₃)
  checked-served (ranked min_role) next c s a h =
      let (t, h₁) = require-served _ _ _ c s a h in
      let (sc, h₂) = require-served _ _ _ c s a h₁ in
      let (p, h₃) = require-served _ _ next c s a h₂ in (ground (arith, t, sc, p), h₃)
  checked-served socket next c s a h = require-served _ _ next c s a h

  guarded-checked :
      (g : Guard) (r : Request) (now : ℕ) (next : Handler D A)
      → asks_token g ≡ true
      → guarded H T g r now next ≡ require_auth H T r now (checked g next)
  unfolding guarded
  guarded-checked anyone r now next k = absurd (ground arith)
  guarded-checked enrolling r now next k = refl
  guarded-checked authed r now next k = refl
  guarded-checked (permitted perm) r now next k = refl
  guarded-checked (ranked min_role) r now next k = refl
  guarded-checked socket r now next k = refl

  -- A request that gets through the guard of a route with a check brings a token that verifies, whose
  -- session is kept, not revoked, not expired and not idle, and whose claims are as the guard asks; the
  -- handler gets these claims.
  pub guarded-served :
      (g : Guard) (r : Request) (now : ℕ) (next : Handler D A) (context : Option TokenClaims)
      (s : Service D) (a : A)
      → asks_token g ≡ true
      → (guarded H T g r now next context s).0 ≡ served a
      → (c : TokenClaims) × (verify_access_token H (extract_bearer_token T r) now ≡ ok c)
        × (session : Session) × ((get_session c.session_id now s.store).0 ≡ ok session)
        × (meets g c ≡ true)
        × ((next (some c) (validate_request H (extract_bearer_token T r) now s).1).0 ≡ served a)
  guarded-served g r now next context s a k h =
      let h₀ = subst (λ f. (f context s).0 ≡ served a) (guarded-checked g r now next k) h in
      let (c, e, h₁) = require_auth-served r now (checked g next) context s a h₀ in
      let (v, session, found) = validate_request-eq-ok H (extract_bearer_token T r) now s c e in
      let (m, h₂) = checked-served g next c _ a h₁ in (c, v, session, found, m, h₂)
