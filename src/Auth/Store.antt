-- ===== src/Auth/Store.antt =====
-- The store of users and sessions, control-plane/pkg/auth/store.go. The database is a parameter: a
-- list of statements is one transaction, which succeeds whole or changes nothing. The maps from
-- names, addresses and ids are functions. A user that a caller gets is a copy. A fresh id is an
-- argument.
pub mod Revoked
use Prim.Native.String.{String}
use mathlib.Core.Option
use falx_v.Base.{
  ℕ, ◌+◌, Bool, true, false, List, [], ◌∷◌, Option, none, some, ltb, leb, ◌==◌, if◌then◌else◌, map,
}
use falx_v.Auth.Models.{Role, super_admin, User, Session, AuditEvent, is_expired, is_inactive}
use falx_v.Base.Dict.{Dict, same, empty, insert, adjust}
use falx_v.Auth.Action.{
  AuthError, user_not_found, user_exists, session_not_found, session_expired, session_revoked,
  session_inactive, database, nil_pointer, Outcome, ok, err, Action, pure, raise, gets, of, ◌>>=◌,
  ◌>>◌, modify, raise_if,
}
use falx_v.Auth.Database.{
  Statement, Exec, insert_user, update_user_row, set_totp, delete_backup_codes, insert_backup_code,
  set_password, insert_session, set_activity, set_revoked, set_all_revoked, insert_audit,
  unlock_all, pin_admin, set_failures, clear_failures,
}

pub record Store (D : Type 0) : Type 0 where
  pub db : D
  pub users : Dict User
  pub by_name : Dict String
  pub by_email : Dict String
  pub sessions : Dict Session
  pub inactivity_timeout : ℕ

abbrev pub max_failed_attempts : ℕ
max_failed_attempts = 5

abbrev pub is_known : {A : Type 0} → Option A → Bool
is_known none = false
is_known (some _) = true

-- Whether a session may be used, and if not, why.
unfoldable pub checked : Session → (timeout now : ℕ) → Outcome Session
checked sess timeout now =
    if sess.revoked
    then err session_revoked
    else if is_expired sess now
    then err session_expired
    else if is_inactive sess timeout now
    then err session_inactive
    else ok sess

unfoldable pub revoke : Session → Session
revoke sess = record sess { revoked = true }

-- A user after one more failure.
unfoldable pub failed : User → (now : ℕ) → User
failed u now = record u {
  failed_attempts = u.failed_attempts + 1;
  locked = if leb max_failed_attempts (u.failed_attempts + 1) then true else u.locked;
  updated_at = now;
}

module _ {D : Type 0} where
  unfoldable pub get_user_by_id : String → Action (Store D) User
  get_user_by_id id s = elim (s.users id) [ none ↦ (err user_not_found, s) | some u ↦ (ok u, s) ]

  unfoldable pub get_user_by_username : String → Action (Store D) User
  get_user_by_username username s = elim (s.by_name username) [
    | none ↦ (err user_not_found, s)
    | some id ↦ elim (s.users id) [ none ↦ (err nil_pointer, s) | some u ↦ (ok u, s) ]
  ]

  unfoldable pub get_session : String → (now : ℕ) → Action (Store D) Session
  get_session id now s = elim (s.sessions id) [
    | none ↦ (err session_not_found, s)
    | some sess ↦ (checked sess s.inactivity_timeout now, s)
  ]

  unfoldable pub change_user : String → (User → User) → Store D → Store D
  change_user id f s = record s { users = adjust id f s.users }

module _ {D : Type 0} (exec : Exec D) where
  -- One transaction.
  unfoldable pub run : List Statement → Action (Store D) (Unit {0})
  run statements s =
      let (db', done) = exec s.db statements in
      (if done then ok tt else err database, record s { db = db' })

  unfoldable pub create_user : User → (id : String) → (now : ℕ) → Action (Store D) User
  create_user u id now = do
    raise_if (is_known (← gets (λ s. s.by_name u.username))) user_exists
    raise_if (is_known (← gets (λ s. s.by_email u.email))) user_exists
    let u' = record u { id = id; created_at = now; updated_at = now }
    run (insert_user u' ∷ [])
    modify (λ s. record s {
      users = insert id u' s.users;
      by_name = insert u.username id s.by_name;
      by_email = insert u.email id s.by_email;
    })
    pure u'

  unfoldable pub update_user : User → (now : ℕ) → Action (Store D) (Unit {0})
  update_user u now = do
    let u' = record u { updated_at = now }
    run (update_user_row u' ∷ [])
    modify (λ s. record s { users = insert u.id u' s.users })

  unfoldable pub update_totp_secret :
      (id secret : String) → Bool → (now : ℕ) → Action (Store D) (Unit {0})
  update_totp_secret id secret enabled now = do
    run (set_totp id secret enabled now ∷ [])
    modify (
        change_user id
          (λ u. record u { totp_secret = secret; totp_enabled = enabled; updated_at = now }))

  -- Each code comes with its fresh id.
  unfoldable pub update_backup_codes : String → List (String × String) → Action (Store D) (Unit {0})
  update_backup_codes id codes =
      run (
        delete_backup_codes id ∷ map (λ (c : String × String). insert_backup_code c.0 id c.1) codes)

  unfoldable pub enable_totp_with_backup_codes :
      (id secret : String) → List (String × String) → (now : ℕ) → Action (Store D) (Unit {0})
  enable_totp_with_backup_codes id secret codes now = do
    run (
        set_totp id secret true now
        ∷ delete_backup_codes id
        ∷ map (λ (c : String × String). insert_backup_code c.0 id c.1) codes)
    modify (
        change_user id
          (λ u. record u { totp_secret = secret; totp_enabled = true; updated_at = now }))

  unfoldable pub disable_totp : (id : String) → (now : ℕ) → Action (Store D) (Unit {0})
  disable_totp id now = do
    run (set_totp id "" false now ∷ delete_backup_codes id ∷ [])
    modify (
        change_user id (λ u. record u { totp_secret = ""; totp_enabled = false; updated_at = now }))

  unfoldable pub update_password_hash : (id hash : String) → (now : ℕ) → Action (Store D) (Unit {0})
  update_password_hash id hash now = do
    run (set_password hash now id ∷ [])
    modify (change_user id (λ u. record u { password_hash = hash }))

  unfoldable pub create_session : Session → (id : String) → (now : ℕ) → Action (Store D) Session
  create_session sess id now = do
    let sess' = record sess { id = id; created_at = now; last_activity_at = now }
    run (insert_session sess' ∷ [])
    modify (λ s. record s { sessions = insert id sess' s.sessions })
    pure sess'

  unfoldable pub touch_session : (id : String) → (now : ℕ) → Action (Store D) (Unit {0})
  touch_session id now s =
      let touched = record s {
        sessions = adjust id (λ x. record x { last_activity_at = now }) s.sessions;
      } in
      if is_known (s.sessions id)
      then run (set_activity now id ∷ []) touched
      else (err session_not_found, s)

  unfoldable pub revoke_session : (id : String) → Action (Store D) (Unit {0})
  revoke_session id = do
    modify (λ s. record s { sessions = adjust id revoke s.sessions })
    run (set_revoked id ∷ [])

  unfoldable pub revoke_all_user_sessions : (user_id : String) → Action (Store D) (Unit {0})
  revoke_all_user_sessions user_id = do
    modify (λ s. record s {
      sessions =
          λ k. Option.map (λ x. if same x.user_id user_id then revoke x else x) (s.sessions k);
    })
    run (set_all_revoked user_id ∷ [])

  unfoldable pub write_audit_event : AuditEvent → (id : String) → (now : ℕ) → Store D → Store D
  write_audit_event ev id now s = (run (insert_audit ev id now ∷ []) s).1

  unfoldable pub record_failed_login : (id : String) → (now : ℕ) → Action (Store D) (Unit {0})
  record_failed_login id now s = elim (s.users id) [
    | none ↦ (err user_not_found, s)
    | some u ↦
        run (set_failures (failed u now).failed_attempts (failed u now).locked now id ∷ [])
          (change_user id (λ x. failed x now) s)
  ]

  unfoldable pub reset_failed_login : (id : String) → (now : ℕ) → Action (Store D) (Unit {0})
  reset_failed_login id now s =
      let reset = change_user id (λ x. record x { failed_attempts = 0; updated_at = now }) s in
      if is_known (s.users id)
      then run (clear_failures now id ∷ []) reset
      else (err user_not_found, s)
