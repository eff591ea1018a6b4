-- ===== src/Auth/Service/Methods.antt =====
-- The other methods of control-plane/pkg/auth/service.go, and the locking of users by
-- control-plane/pkg/auth/handlers.go. The backup codes and the secret of an enrollment are arguments.
use Prim.Native.String.{String}
use falx_v.Base.{
  ℕ, ◌+◌, ◌*◌, Bool, true, false, not, ◌||◌, List, Option, none, some, ltb, if◌then◌else◌,
}
use falx_v.Base.Time.{minute}
use falx_v.Auth.Models.{Role, level, User, Session, AuditEvent, scope_session, can_manage_role}
use falx_v.Auth.Password.{Password, validate_password_strength}
use falx_v.Base.Dict.{same, insert}
use falx_v.Auth.Action.{
  invalid_credentials, insufficient_privileges, no_pending_enrollment, invalid_totp, entropy, weak,
  ok, err, Action, pure, raise, of, ◌>>=◌, ◌>>◌, modify, raise_if, ignore,
}
use falx_v.Auth.Store.{
  create_user, get_user_by_id, get_session, create_session, revoke_session,
  revoke_all_user_sessions, update_password_hash, update_totp_secret, update_backup_codes,
  disable_totp, update_user,
}
use falx_v.Auth.Host.{Host, Random}
use falx_v.Auth.Tokens.{
  TokenPair, hash_password, generate_access_token, generate_refresh_token, tfa_ok, scope_for,
  refresh_token_ttl,
}
use falx_v.Auth.Service.{Service, PendingTotp, on_store, audit, matches, verify_totp}

pub record RegisterRequest : Type 0 where
  pub username : String
  pub email : String
  pub password : Password
  pub display_name : String
  pub role : Role

-- An event without a name, an agent or a reason.
abbrev pub plain_event : (user_id action resource ip : String) → Bool → AuditEvent
plain_event user_id action resource ip success = record {
  user_id = user_id;
  username = "";
  action = action;
  resource = resource;
  ip_address = ip;
  user_agent = "";
  success = success;
  fail_reason = "";
}

-- The user that a request asks for, before the store sets its id and its times.
unfoldable pub requested : RegisterRequest → (hash actor_id : String) → User
requested req hash actor_id = record {
  id = "";
  username = req.username;
  email = req.email;
  password_hash = hash;
  role = req.role;
  active = true;
  locked = false;
  failed_attempts = 0;
  last_login = 0;
  created_at = 0;
  updated_at = 0;
  created_by = actor_id;
  totp_secret = "";
  totp_enabled = false;
  display_name = req.display_name;
}

unfoldable pub require_strong : {S : Type 0} → Password → Action S (Unit {0})
require_strong p = elim (validate_password_strength p) [ none ↦ pure tt | some e ↦ raise (weak e) ]

module _ {D : Type 0} (H : Host D) where
  -- A refresh token that does not fit revokes every session of its user.
  unfoldable pub check_refresh : Session → Password → Action (Service D) (Unit {0})
  check_refresh session raw = if matches H raw session.refresh_token then pure tt else do
    ignore (on_store H (revoke_all_user_sessions H.exec session.user_id))
    raise invalid_credentials

  unfoldable pub refresh_tokens :
      (session_id : String) → Password → Random → (now : ℕ) → Action (Service D) TokenPair
  refresh_tokens session_id raw rnd now = do
    session ← on_store H (get_session session_id now)
    check_refresh session raw
    u ← on_store H (get_user_by_id session.user_id)
    raise_if (not u.active || u.locked) invalid_credentials
    on_store H (revoke_session H.exec session_id)
    tokens ← of (generate_refresh_token H rnd)
    session' ← on_store H (
        create_session H.exec
          (record session { refresh_token = tokens.1; expires_at = now + refresh_token_ttl }) rnd.id
          now)
    of (generate_access_token H u session'.id (tfa_ok u) (scope_for u) (some tokens.0) now)

  unfoldable pub logout :
      (session_id user_id ip : String) → Random → (now : ℕ) → Action (Service D) (Unit {0})
  logout session_id user_id ip rnd now = do
    on_store H (revoke_session H.exec session_id)
    audit H (plain_event user_id "logout" "" ip true) rnd now

  unfoldable pub logout_all :
      (user_id ip : String) → Random → (now : ℕ) → Action (Service D) (Unit {0})
  logout_all user_id ip rnd now s =
      let (r, s') = on_store H (revoke_all_user_sessions H.exec user_id) s in
      let done : Bool = elim r [ ok _ ↦ true | err e ↦ false ] in
      (r, (audit H (plain_event user_id "logout_all" "" ip done) rnd now s').1)

  unfoldable pub register :
      RegisterRequest → (actor_id ip : String) → Random → (now : ℕ) → Action (Service D) User
  register req actor_id ip rnd now = do
    require_strong req.password
    actor ← on_store H (get_user_by_id actor_id)
    raise_if (not (can_manage_role actor req.role)) insufficient_privileges
    hash ← of (hash_password H req.password rnd.salt)
    u ← on_store H (create_user H.exec (requested req hash actor_id) rnd.id now)
    audit H (plain_event actor_id "user_create" u.id ip true) rnd now
    pure u

  unfoldable pub change_password :
      (user_id : String)
      → (old new : Password) → (ip : String) → Random
      → (now : ℕ) → Action (Service D) (Unit {0})
  change_password user_id old new ip rnd now = do
    u ← on_store H (get_user_by_id user_id)
    raise_if (not (matches H old u.password_hash)) invalid_credentials
    require_strong new
    hash ← of (hash_password H new rnd.salt)
    on_store H (update_password_hash H.exec user_id hash now)
    ignore (on_store H (revoke_all_user_sessions H.exec user_id))
    audit H (plain_event user_id "password_change" "" ip true) rnd now

  -- GenerateTOTPSecret and GenerateBackupCodes give the secret and the codes, or fail.
  unfoldable pub begin_totp_setup :
      (user_id : String)
      → Option (String × List Password)
      → (now : ℕ) → Action (Service D) (String × List Password)
  begin_totp_setup user_id generated now = do
    on_store H (get_user_by_id user_id)
    enrolled ← of (elim generated [ none ↦ err entropy | some e ↦ ok e ])
    modify (λ s. record s {
      pending_totp =
          insert user_id
            (record {
              secret = enrolled.0;
              plain_codes = enrolled.1;
              expires_at = now + 10 * minute;
            })
            s.pending_totp;
    })
    pure enrolled

  unfoldable pub drop_pending : String → Service D → Service D
  drop_pending user_id s = record s {
    pending_totp = λ k. if same user_id k then none else s.pending_totp k;
  }

  unfoldable pub find_pending : (user_id : String) → (now : ℕ) → Action (Service D) PendingTotp
  find_pending user_id now s = elim (s.pending_totp user_id) [
    | none ↦ (err no_pending_enrollment, drop_pending user_id s)
    | some entry ↦
        if ltb entry.expires_at now
        then (err no_pending_enrollment, drop_pending user_id s)
        else (ok entry, s)
  ]

  -- Each hash of a backup code with the id of its row; `none` where a salt could not be drawn.
  unfoldable pub confirm_totp_setup :
      (user_id : String)
      → (code : List ℕ) → (hashes : Option (List (String × String))) → (now : ℕ)
      → Action (Service D) (List Password)
  confirm_totp_setup user_id code hashes now = do
    entry ← find_pending user_id now
    fits ← verify_totp H entry.secret code now
    raise_if (not fits) invalid_totp
    rows ← of (elim hashes [ none ↦ err entropy | some rs ↦ ok rs ])
    on_store H (update_totp_secret H.exec user_id entry.secret true now)
    ignore (on_store H (update_backup_codes H.exec user_id rows))
    modify (drop_pending user_id)
    pure entry.plain_codes

  unfoldable pub issue_upgraded_token :
      (user_id session_id : String) → (now : ℕ) → Action (Service D) TokenPair
  issue_upgraded_token user_id session_id now = do
    u ← on_store H (get_user_by_id user_id)
    of (generate_access_token H u session_id true scope_session none now)

  unfoldable pub disable_totp_setup :
      (target actor ip : String) → Random → (now : ℕ) → Action (Service D) (Unit {0})
  disable_totp_setup target actor ip rnd now = do
    on_store H (get_user_by_id target)
    on_store H (disable_totp H.exec target now)
    ignore (on_store H (revoke_all_user_sessions H.exec target))
    audit H (plain_event actor "totp_disable" target ip true) rnd now

  -- The handlers that lock and unlock a user; the actor's role is the one of its token.
  unfoldable pub lock_user :
      (actor : String)
      → Role
      → (target ip : String) → Random
      → (now : ℕ) → Action (Service D) (Unit {0})
  lock_user actor role target ip rnd now = do
    u ← on_store H (get_user_by_id target)
    raise_if (not (ltb (level u.role) (level role))) insufficient_privileges
    ignore (on_store H (update_user H.exec (record u { locked = true }) now))
    ignore (on_store H (revoke_all_user_sessions H.exec u.id))
    audit H (plain_event actor "user_lock" u.id ip true) rnd now

  unfoldable pub unlock_user :
      (actor target ip : String) → Random → (now : ℕ) → Action (Service D) (Unit {0})
  unlock_user actor target ip rnd now = do
    u ← on_store H (get_user_by_id target)
    ignore (on_store H (update_user H.exec (record u { locked = false; failed_attempts = 0 }) now))
    audit H (plain_event actor "user_unlock" u.id ip true) rnd now
