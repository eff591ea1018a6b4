-- ===== src/Tests/Guards.antt =====
-- Requests at the guards of the routes.
use Prim.Native.String.{String}
use mathlib.Core.Path.{subst}
use falx_v.Base.{
  ◌≡◌, refl, ◌||◌, not, true, false, [], ◌∷◌, Option, none, some, All, if◌then◌else◌, arith, ℕ,
  Bool,
}
use falx_v.Auth.Models.{
  User, Session, TokenClaims, admin, requires_2fa, ip_block_temp, scope_session, role_permissions,
  has_permission, contains, code_of, is_expired, is_inactive,
}
use falx_v.Base.Dict.{among, same, empty, insert, adjust}
use falx_v.Auth.Action.{ok, ◌>>=◌, pure, of, ignore, modify, raise_if}
use falx_v.Auth.Host.{Host}
use falx_v.Auth.Tokens.{
  TokenPair, claims_of, verify_access_token, generate_access_token, generate_refresh_token,
  hash_password, tfa_ok, scope_for,
}
use falx_v.Auth.Password.{is_hashable}
use falx_v.Auth.Totp.{equal}
use falx_v.Auth.Store.{
  get_session, checked, touch_session, run, get_user_by_username, reset_failed_login, change_user,
  create_session, update_user, write_audit_event,
}
use falx_v.Auth.Service.{
  Service, LoginRequest, login, validate_request, on_store, check_login_rate, attempted, evicted,
  limited_host, find_user, check_account, check_password, check_totp, open_session, matches, audit,
}
use falx_v.Auth.Middleware.{
  Texts, Request, Handler, served, permitted, guarded, extract_bearer_token, require, require_auth,
  with_claims, same_scope, routes,
}
use falx_v.Auth.Middleware.Passed.{meets, guarded-served}
use falx_v.Auth.Middleware.Enrolled.{is_served, open_paths, login-guarded}
use falx_v.Base.Time.{unix}
use falx_v.Tests.Data.{at_second}
use falx_v.Tests.Auth.{host_of_tests, service, drawn, alice, password_of, right_bytes}

abbrev texts : Texts
texts = record { split = λ t. "Bearer" ∷ t ∷ []; equal_fold = λ a b. true }

-- A request with the token as its cookie.
abbrev with_cookie : String → Request
with_cookie token = record { authorization = ""; cookie = some token; query_token = "" }

abbrev answer : Handler ℕ ℕ
answer claims s = (served 7, s)

guarded-served_example :
    (c : TokenClaims) × (verify_access_token host_of_tests
        (extract_bearer_token texts (with_cookie "s1"))
        (at_second 30)
      ≡ ok c)
    × (session : Session) × ((get_session c.session_id (at_second 30) service.store).0 ≡ ok session)
    × (meets (permitted ip_block_temp) c ≡ true)
    × ((answer
          (some c)
          (validate_request host_of_tests
            (extract_bearer_token texts (with_cookie "s1"))
            (at_second 30)
            service).1).0
        ≡ served 7)
unfolding guarded require_auth extract_bearer_token with_claims validate_request ◌>>=◌ of
    verify_access_token claims_of on_store get_session insert checked is_expired is_inactive ignore
    touch_session run pure require same_scope has_permission contains code_of role_permissions
guarded-served_example =
    guarded-served host_of_tests texts (permitted ip_block_temp) (with_cookie "s1") (at_second 30)
      answer none service 7 refl refl

-- An administrator without the second factor.
abbrev carol : User
carol = record alice { role = admin; totp_enabled = false }

abbrev marking : Host ℕ
marking = record host_of_tests {
  sign = λ c. some (if c.tfa_verified then "full" else "part");
  parse = λ t now. some (claims_of carol "s2" (same t "full") scope_session now);
}

abbrev carols : Service ℕ
carols = record service { store = record (service.store) { users = insert "u1" carol empty } }

abbrev carols_request : LoginRequest
carols_request = record { username = "alice"; password = password_of right_bytes; totp_code = [] }

abbrev carols_login : TokenPair × User
carols_login = (
  record {
    access_token = "part";
    refresh_token = some (password_of right_bytes);
    expires_at = at_second 910;
  },
  record carol { last_login = at_second 10 },
)

carol_ok :
    (login marking carols_request "10.0.0.9" "" drawn (at_second 10) carols).0 ≡ ok carols_login
unfolding login insert ◌>>=◌ check_login_rate attempted evicted find_user get_user_by_username pure
    check_account check_password matches equal check_totp ignore modify of raise_if adjust
    requires_2fa role_permissions is_hashable audit claims_of generate_access_token
    generate_refresh_token hash_password limited_host on_store open_session scope_for tfa_ok
    change_user create_session reset_failed_login run update_user write_audit_event unix
carol_ok = refl

abbrev IsMark : Bool → Option String → Type 0
IsMark b none = Unit
IsMark b (some t) = same t "full" ≡ b

mark-same :
    (b : Bool) (t : String) → some (if b then "full" else "part") ≡ some t → same t "full" ≡ b
mark-same true t e = subst (IsMark true) e refl
mark-same false t e = subst (IsMark false) e refl

marking-law :
    (c c' : TokenClaims) (t : String) (at : ℕ)
    → marking.sign c ≡ some t
    → marking.parse t at ≡ some c'
    → c'.tfa_verified ≡ c.tfa_verified
unfolding claims_of
marking-law c c' t at e p = ground (arith, mark-same c.tfa_verified t e)

login-guarded_example :
    All
      (λ rt.
        (not (
            is_served
              (guarded marking texts rt.guard
                (with_cookie "part")
                (at_second 20)
                answer
                none
                carols).0)
          || among open_paths rt.path)
        ≡ true)
      routes
unfolding insert requires_2fa extract_bearer_token get_user_by_username
login-guarded_example =
    login-guarded marking texts carols_request "10.0.0.9" "" drawn (at_second 10) carols
      carols_login.0 carols_login.1 carol (with_cookie "part") (at_second 20) answer none carols
      marking-law carol_ok refl refl refl refl
