-- ===== src/Auth/Service.antt =====
-- The service over the store, control-plane/pkg/auth/service.go. The random texts of a call are an
-- argument; a row of the audit log has the id of that argument. The dummy hash for unknown
-- users, which has no effect but time, is left out.
pub mod Methods
pub mod Revocation
pub mod Kept
pub mod Ended
pub mod Granted
pub mod Failures
pub mod Concurrent
pub mod Snapshot
pub mod Rate
use Prim.Native.String.{String}
use falx_v.Base.{
  ℕ, ◌+◌, ◌-◌, ◌*◌, ◌/◌, Bool, true, false, not, ◌&&◌, ◌||◌, List, [], ◌∷◌, Option, none, some, ltb,
  ◌==◌, if◌then◌else◌, length, map,
}
use falx_v.Base.Time.{unix, second, minute}
use falx_v.Auth.Models.{
  Role, requires_2fa, role_permissions, User, Session, Scope, scope_session, scope_pre_auth,
  TokenClaims, AuditEvent,
}
use falx_v.Auth.Password.{Password, is_hashable}
use falx_v.Auth.Totp.{Codec, Cache, verify_totp_code}
use falx_v.Base.Dict.{Dict, same, insert}
use falx_v.Auth.Action.{
  AuthError, invalid_credentials, account_locked, totp_required, too_many_attempts, entropy,
  signing, invalid_token, hash_length, nil_pointer, Outcome, ok, err, Action, pure, raise, gets, of,
  ◌>>=◌, ◌>>◌, modify, raise_if, ignore,
}
use falx_v.Auth.Database.{Exec}
use falx_v.Auth.Store.{
  Store, get_user_by_username, get_session, create_session, touch_session, update_user,
  record_failed_login, reset_failed_login, write_audit_event,
}
use falx_v.Auth.Host.{Host, Random}
use falx_v.Auth.Tokens.{
  TokenPair, access_token_ttl, refresh_token_ttl, hash_password, tfa_ok, scope_for, claims_of,
  generate_access_token, verify_access_token, generate_refresh_token,
}

pub record LoginRateLimiter : Type 0 where
  pub attempts : ℕ
  pub reset_at : ℕ

pub record PendingTotp : Type 0 where
  pub secret : String
  pub plain_codes : List Password
  pub expires_at : ℕ

pub record Service (D : Type 0) : Type 0 where
  pub store : Store D
  pub login_rl : Dict LoginRateLimiter
  pub pending_totp : Dict PendingTotp
  pub totp_cache : Cache

pub record LoginRequest : Type 0 where
  pub username : String
  pub password : Password
  pub totp_code : List ℕ

abbrev pub login_rate_limit : ℕ
login_rate_limit = 10

abbrev pub login_rate_window : ℕ
login_rate_window = minute

-- The limiters whose window is not over.
unfoldable pub evicted : Dict LoginRateLimiter → (now : ℕ) → Dict LoginRateLimiter
evicted m now k = elim (m k) [
  | none ↦ none
  | some rl ↦ if ltb rl.reset_at now then none else some rl
]

-- The limiter after one more attempt, and whether the attempt may go on.
unfoldable pub attempted : Option LoginRateLimiter → (now : ℕ) → LoginRateLimiter × Bool
attempted none now = (record { attempts = 1; reset_at = now + login_rate_window }, true)
attempted (some rl) now =
    if ltb rl.reset_at now
    then (record { attempts = 1; reset_at = now + login_rate_window }, true)
    else (record rl { attempts = rl.attempts + 1 }, not (ltb login_rate_limit (rl.attempts + 1)))

-- The address without its port, or the whole text.
unfoldable pub limited_host : String → String → String
limited_host host ip_addr = if same host "" then ip_addr else host

unfoldable pub is_panic : AuthError → Bool
is_panic nil_pointer = true
is_panic _ = false

module _ {D : Type 0} (H : Host D) where
  -- A method of the store.
  unfoldable pub on_store : {A : Type 0} → Action (Store D) A → Action (Service D) A
  on_store m s = let (r, st) = m s.store in (r, record s { store = st })

  unfoldable pub audit : AuditEvent → Random → (now : ℕ) → Action (Service D) (Unit {0})
  audit ev rnd now =
      modify (λ s. record s { store = write_audit_event H.exec ev rnd.audit_id now s.store })

  abbrev pub login_event : (user_id username ip ua : String) → Bool → (reason : String) → AuditEvent
  login_event user_id username ip ua success reason = record {
    user_id = user_id;
    username = username;
    action = "login";
    resource = "";
    ip_address = ip;
    user_agent = ua;
    success = success;
    fail_reason = reason;
  }

  unfoldable pub check_login_rate : String → (now : ℕ) → Action (Service D) (Unit {0})
  check_login_rate ip_addr now s =
      let ip = limited_host (H.host_of ip_addr) ip_addr in
      let rl = evicted s.login_rl now in
      let (rl', allowed) = attempted (rl ip) now in
      (if allowed then ok tt else err too_many_attempts, record s { login_rl = insert ip rl' rl })

  -- The user of the name, or the refusal that does not tell whether there is one.
  unfoldable pub find_user :
      String → (ip ua : String) → Random → (now : ℕ) → Action (Service D) User
  find_user username ip ua rnd now s = elim (get_user_by_username username s.store).0 [
    | ok u ↦ pure u s
    | err e ↦
        (do
          raise_if (is_panic e) e
          audit (login_event "" username ip ua false "user_not_found") rnd now
          raise invalid_credentials)
          s
  ]

  -- A refusal that the audit log records.
  unfoldable pub refuse :
      User
      → (ip ua reason : String) → AuthError
      → Random
      → (now : ℕ) → Action (Service D) (Unit {0})
  refuse u ip ua reason e rnd now = do
    audit (login_event u.id u.username ip ua false reason) rnd now
    raise e

  -- VerifyPassword, where an error is no match.
  unfoldable pub matches : Password → String → Bool
  matches p hash = elim (H.verify_password p hash) [ some true ↦ true | _ ↦ false ]

  unfoldable pub check_password :
      User → Password → (ip ua : String) → Random → (now : ℕ) → Action (Service D) (Unit {0})
  check_password u password ip ua rnd now = if matches password u.password_hash then pure tt else do
    ignore (on_store (record_failed_login H.exec u.id now))
    refuse u ip ua "wrong_password" invalid_credentials rnd now

  -- VerifyTOTPCode against the cache of the process.
  unfoldable pub verify_totp : (secret : String) → List ℕ → (now : ℕ) → Action (Service D) Bool
  verify_totp secret code now s =
      let (cache, fits) = verify_totp_code H.codec s.totp_cache secret code (unix now) in
      (ok fits, record s { totp_cache = cache })

  unfoldable pub check_totp :
      User → List ℕ → (ip ua : String) → Random → (now : ℕ) → Action (Service D) (Unit {0})
  check_totp u code ip ua rnd now =
      if not u.totp_enabled then pure tt else if length code == 0 then raise totp_required else do
        fits ← verify_totp u.totp_secret code now
        if fits then pure tt else refuse u ip ua "invalid_totp" invalid_credentials rnd now

  unfoldable pub check_account :
      User → (ip ua : String) → Random → (now : ℕ) → Action (Service D) (Unit {0})
  check_account u ip ua rnd now =
      if not u.active
      then refuse u ip ua "account_inactive" invalid_credentials rnd now
      else if u.locked
      then refuse u ip ua "account_locked" account_locked rnd now
      else pure tt

  -- The session and the tokens of a user whose credentials fit.
  unfoldable pub open_session :
      User → (ip ua : String) → Random → (now : ℕ) → Action (Service D) TokenPair
  open_session u ip ua rnd now = do
    ignore (on_store (reset_failed_login H.exec u.id now))
    tokens ← of (generate_refresh_token H rnd)
    session ← on_store (
        create_session H.exec
          (record {
            id = "";
            user_id = u.id;
            refresh_token = tokens.1;
            user_agent = ua;
            ip_address = ip;
            created_at = 0;
            last_activity_at = 0;
            expires_at = now + refresh_token_ttl;
            revoked = false;
          })
          rnd.id now)
    pair ← of (generate_access_token H u session.id (tfa_ok u) (scope_for u) (some tokens.0) now)
    ignore (on_store (update_user H.exec (record u { last_login = now }) now))
    audit (login_event u.id u.username ip ua true "") rnd now
    pure pair

  -- One call that nothing comes between; Concurrent has it in two parts.
  unfoldable pub login :
      LoginRequest → (ip ua : String) → Random → (now : ℕ) → Action (Service D) (TokenPair × User)
  login req ip ua rnd now = do
    check_login_rate ip now
    u ← find_user req.username ip ua rnd now
    check_account u ip ua rnd now
    check_password u req.password ip ua rnd now
    check_totp u req.totp_code ip ua rnd now
    pair ← open_session u ip ua rnd now
    pure (pair, record u { last_login = now })

  -- The check of every request.
  unfoldable pub validate_request : String → (now : ℕ) → Action (Service D) TokenClaims
  validate_request token now = do
    claims ← of (verify_access_token H token now)
    on_store (get_session claims.session_id now)
    ignore (on_store (touch_session H.exec claims.session_id now))
    pure claims
