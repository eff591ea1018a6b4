-- ===== src/Auth/Middleware.antt =====
-- The checks before the HTTP handlers, control-plane/pkg/auth/middleware.go, and the guards of the
-- routes of soc-backend/internal/server/server.go. A handler is a parameter, which gets the claims of
-- the request's context. The splitting and folding of texts are Go's strings package. Left out are the
-- headers of the answers and the texts of the messages.
pub mod Passed
pub mod Enrolled
use Prim.Native.String.{String}
use falx_v.Base.{ℕ, Bool, true, false, not, List, [], ◌∷◌, Option, none, some, ltb, if◌then◌else◌}
use falx_v.Auth.Models.{
  Role, super_admin, level, Permission, dashboard_view, telemetry_read, ip_block, ip_block_temp,
  failsafe_view, failsafe_control, policy_read, policy_create, policy_delete, user_list,
  user_create, audit_read, has_permission, Scope, other_scope, scope_session, scope_pre_auth,
  TokenClaims,
}
use falx_v.Base.Dict.{same}
use falx_v.Auth.Action.{AuthError, session_inactive, session_revoked, Outcome, ok, err}
use falx_v.Auth.Host.{Host}
use falx_v.Auth.Service.{Service, validate_request}

-- strings.SplitN at the first space, and strings.EqualFold.
pub record Texts : Type 0 where
  pub split : String → List String
  pub equal_fold : String → String → Bool

-- The parts of a request that carry its token.
pub record Request : Type 0 where
  pub authorization : String
  pub cookie : Option String
  pub query_token : String

pub data Reply (A : Type 0) : Type 0 where
  refused : (status : ℕ) → (code : String) → Reply A
  served : A → Reply A

abbrev pub Handler : Type 0 → Type 0 → Type 0
Handler D A = Option TokenClaims → Service D → Reply A × Service D

unfoldable pub bearer_of : Texts → List String → String
bearer_of T [] = ""
bearer_of T (_ ∷ []) = ""
bearer_of T (scheme ∷ token ∷ []) = if T.equal_fold scheme "bearer" then token else ""
bearer_of T (_ ∷ _ ∷ _ ∷ _) = ""

unfoldable pub extract_bearer_token : Texts → Request → String
extract_bearer_token T r =
    if same r.authorization ""
    then elim r.cookie [ some value ↦ value | none ↦ r.query_token ]
    else bearer_of T (T.split r.authorization)

unfoldable pub error_code : AuthError → String
error_code session_inactive = "session_expired"
error_code session_revoked = "session_revoked"
error_code _ = "invalid_token"

unfoldable pub same_scope : Scope → Scope → Bool
same_scope scope_pre_auth scope_pre_auth = true
same_scope scope_session scope_session = true
same_scope (other_scope s) (other_scope t) = same s t
same_scope _ _ = false

module _ {D A : Type 0} where
  -- A check of the claims in the context.
  unfoldable pub require : (TokenClaims → Bool) → (code : String) → Handler D A → Handler D A
  require f code next none s = (refused 401 "missing_claims", s)
  require f code next (some claims) s =
      if f claims then next (some claims) s else (refused 403 code, s)

  abbrev pub require_tfa_verified : Handler D A → Handler D A
  require_tfa_verified = require (λ claims. claims.tfa_verified) "tfa_setup_required"

  abbrev pub require_scope : Scope → Handler D A → Handler D A
  require_scope scope = require (λ claims. same_scope claims.scope scope) "insufficient_scope"

  abbrev pub require_permission : Permission → Handler D A → Handler D A
  require_permission perm =
      require (λ claims. has_permission claims.role perm) "insufficient_permission"

  abbrev pub require_role : Role → Handler D A → Handler D A
  require_role min_role =
      require (λ claims. not (ltb (level claims.role) (level min_role))) "insufficient_role"

  -- What follows the check of the token.
  unfoldable pub with_claims : Handler D A → Outcome TokenClaims → Service D → Reply A × Service D
  with_claims next (ok claims) s = next (some claims) s
  with_claims next (err e) s = (refused 401 (error_code e), s)

  unfoldable pub require_auth : Host D → Texts → Request → (now : ℕ) → Handler D A → Handler D A
  require_auth H T r now next claims s =
      let token = extract_bearer_token T r in
      if same token ""
      then (refused 401 "missing_token", s)
      else let (result, s') = validate_request H token now s in with_claims next result s'

-- How a route is guarded.
pub data Guard : Type 0 where
  anyone : Guard
  enrolling : Guard
  authed : Guard
  permitted : Permission → Guard
  ranked : Role → Guard
  socket : Guard

module _ {D A : Type 0} (H : Host D) (T : Texts) where
  -- The checks of the subrouters and of the single routes, the outer ones first.
  unfoldable pub guarded : Guard → Request → (now : ℕ) → Handler D A → Handler D A
  guarded anyone r now next = next
  guarded enrolling r now next = require_auth H T r now next
  guarded authed r now next =
      require_auth H T r now (require_tfa_verified (require_scope scope_session next))
  guarded (permitted perm) r now next =
      require_auth H T r now
        (require_tfa_verified (require_scope scope_session (require_permission perm next)))
  guarded (ranked min_role) r now next =
      require_auth H T r now
        (require_tfa_verified (require_scope scope_session (require_role min_role next)))
  guarded socket r now next = require_auth H T r now (require_tfa_verified next)

pub record Route : Type 0 where
  pub verb : String
  pub path : String
  pub guard : Guard

abbrev pub route : (verb path : String) → Guard → Route
route verb path guard = record { verb = verb; path = path; guard = guard }

-- The routes of the router, in their order; "any" stands for every verb.
abbrev pub routes : List Route
routes =
    route "POST" "/api/v1/auth/login" anyone
    ∷ route "POST" "/api/v1/auth/refresh" anyone
    ∷ route "POST" "/api/v1/auth/logout" enrolling
    ∷ route "POST" "/api/v1/auth/logout-all" enrolling
    ∷ route "GET" "/api/v1/auth/me" enrolling
    ∷ route "POST" "/api/v1/auth/totp/begin" enrolling
    ∷ route "POST" "/api/v1/auth/totp/confirm" enrolling
    ∷ route "PUT" "/api/v1/auth/me/password" authed
    ∷ route "GET" "/api/v1/auth/roles" authed
    ∷ route "GET" "/api/v1/dashboard" (permitted dashboard_view)
    ∷ route "GET" "/api/v1/dashboard/stats" (permitted dashboard_view)
    ∷ route "GET" "/api/v1/dashboard/threats" (permitted dashboard_view)
    ∷ route "GET" "/api/v1/dashboard/timeline" (permitted dashboard_view)
    ∷ route "GET" "/api/v1/notifications" (permitted dashboard_view)
    ∷ route "PUT" "/api/v1/notifications/{id}/read" (permitted dashboard_view)
    ∷ route "GET" "/api/v1/notifications/unread-count" (permitted dashboard_view)
    ∷ route "GET" "/api/v1/system/health" (permitted dashboard_view)
    ∷ route "GET" "/api/v1/security/blocklist" (permitted telemetry_read)
    ∷ route "POST" "/api/v1/security/block" (permitted ip_block_temp)
    ∷ route "DELETE" "/api/v1/security/block/{ip}" (permitted ip_block)
    ∷ route "POST" "/api/v1/security/redirect" (permitted ip_block)
    ∷ route "GET" "/api/v1/security/rate-buckets" (permitted telemetry_read)
    ∷ route "GET" "/api/v1/security/honeypot/sessions" (permitted telemetry_read)
    ∷ route "GET" "/api/v1/security/stats" (permitted telemetry_read)
    ∷ route "GET" "/api/v1/failsafe" (permitted failsafe_view)
    ∷ route "POST" "/api/v1/failsafe/open" (permitted failsafe_control)
    ∷ route "POST" "/api/v1/failsafe/close" (permitted failsafe_control)
    ∷ route "PUT" "/api/v1/failsafe/thresholds" (permitted failsafe_control)
    ∷ route "GET" "/api/v1/policy/rules" (permitted policy_read)
    ∷ route "POST" "/api/v1/policy/rules" (permitted policy_create)
    ∷ route "GET" "/api/v1/policy/rules/{id}" (permitted policy_read)
    ∷ route "PUT" "/api/v1/policy/rules/{id}" (permitted policy_create)
    ∷ route "DELETE" "/api/v1/policy/rules/{id}" (permitted policy_delete)
    ∷ route "POST" "/api/v1/policy/rules/{id}/enable" (permitted policy_create)
    ∷ route "POST" "/api/v1/policy/rules/{id}/disable" (permitted policy_create)
    ∷ route "POST" "/api/v1/policy/reload" (permitted policy_create)
    ∷ route "GET" "/api/v1/policy/stats" (permitted policy_read)
    ∷ route "GET" "/api/v1/users" (permitted user_list)
    ∷ route "POST" "/api/v1/users" (permitted user_create)
    ∷ route "GET" "/api/v1/users/{id}" (permitted user_list)
    ∷ route "PUT" "/api/v1/users/{id}/lock" (permitted user_create)
    ∷ route "PUT" "/api/v1/users/{id}/unlock" (permitted user_create)
    ∷ route "DELETE" "/api/v1/users/{id}/totp" (ranked super_admin)
    ∷ route "GET" "/api/v1/audit" (permitted audit_read)
    ∷ route "GET" "/api/v1/system/config" (ranked super_admin)
    ∷ route "PUT" "/api/v1/system/config" (ranked super_admin)
    ∷ route "GET" "/api/v1/system/metrics-summary" (permitted user_list)
    ∷ route "any" "/ws" socket
    ∷ route "GET" "/healthz" anyone
    ∷ route "GET" "/readyz" anyone
    ∷ route "any" "/" anyone
    ∷ []
