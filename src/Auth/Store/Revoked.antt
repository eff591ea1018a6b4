-- ===== src/Auth/Store/Revoked.antt =====
-- Sessions that are revoked, under the methods of the store.
use Prim.Native.String.{String}
use text.Mathlib.TextPositions.{eq_refl}
use mathlib.Core.Option
use falx_v.Base.{
  ℕ, ◌≡◌, refl, Bool, true, false, List, Option, none, some, if◌then◌else◌, arith, Option-cases,
  Bool-cases, inl, inr,
}
use falx_v.Auth.Models.{User, Session, AuditEvent}
use falx_v.Base.Dict.{Dict, same, insert, adjust}
use falx_v.Auth.Action.{modify, err, session_revoked}
use falx_v.Auth.Action.Keeps.{Keeps, keeps_rules, bind-Keeps, bind-then, modify-Keeps}
use falx_v.Auth.Database.{Exec, Statement}
use falx_v.Auth.Store.{
  Store, run, get_session, get_user_by_id, checked, revoke, change_user, create_user, update_user,
  update_totp_secret, update_backup_codes, disable_totp, update_password_hash, create_session,
  touch_session, revoke_session, revoke_all_user_sessions, write_audit_event, record_failed_login,
  reset_failed_login, is_known,
}

-- The session of the id is there and revoked.
pub record Revoked (id : String) (sessions : Dict Session) : Type 0 where
  pub session : Session
  pub found : sessions id ≡ some session
  pub is_revoked : session.revoked ≡ true

abbrev pub RevokedIn : {D : Type 0} → String → Store D → Type 0
RevokedIn id s = Revoked id s.sessions

-- A revoked session is refused.
pub get_session-Revoked :
    {D : Type 0} (id : String) (now : ℕ) (s : Store D)
    → RevokedIn id s
    → get_session id now s ≡ (err session_revoked, s)
unfolding get_session checked
get_session-Revoked id now s r = rw (get_session, r.found, checked, r.is_revoked) refl

adjust-Revoked :
    (id k : String) (f : Session → Session) (m : Dict Session)
    → ((x : Session) → x.revoked ≡ true → (f x).revoked ≡ true)
    → Revoked id m
    → Revoked id (adjust k f m)
unfolding adjust
adjust-Revoked id k f m keep r = elim (Bool-cases (same k id)) [
  | inl e ↦ record {
    session = f r.session;
    found = rw (e, r.found) refl;
    is_revoked = keep r.session r.is_revoked;
  }
  | inr e ↦ record { session = r.session; found = rw (e, r.found) refl; is_revoked = r.is_revoked }
]

module _ {D : Type 0} (exec : Exec D) (id : String) where
  run-Revoked : (statements : List Statement) → Keeps (RevokedIn id) (run exec statements)
  unfolding run
  run-Revoked statements = record { at = λ s r. r }

  -- A change of the users alone.
  modify-Revoked :
      (f : Store D → Store D)
      → ((s : Store D) → (f s).sessions ≡ s.sessions)
      → Keeps (RevokedIn id) (modify f)
  modify-Revoked f e = modify-Keeps f (λ s r. rw (e s) r)

  -- A session under another id.
  insert-Revoked :
      (k : String) (v : Session)
      → same k id ≡ false
      → Keeps (RevokedIn {D = D} id) (modify (λ s. record s { sessions = insert k v s.sessions }))
  unfolding insert
  insert-Revoked k v fresh =
      modify-Keeps _ (λ s r. record {
        session = r.session;
        found = rw (fresh) r.found;
        is_revoked = r.is_revoked;
      })

  pub create_session-Revoked :
      (sess : Session) (k : String) (now : ℕ)
      → same k id ≡ false
      → Keeps (RevokedIn id) (create_session exec sess k now)
  unfolding create_session
  create_session-Revoked sess k now fresh =
      search (keeps_rules, run-Revoked, insert-Revoked) depth 12

  pub revoke_session-Revoked : (k : String) → Keeps (RevokedIn id) (revoke_session exec k)
  unfolding revoke_session revoke
  revoke_session-Revoked k =
      bind-Keeps _ _ (modify-Keeps _ (λ s r. adjust-Revoked id k revoke s.sessions (λ x h. refl) r))
        (λ u. run-Revoked _)

  pub touch_session-Revoked :
      (k : String) (now : ℕ) → Keeps (RevokedIn id) (touch_session exec k now)
  unfolding touch_session run
  touch_session-Revoked k now = record {
    at = λ s r. elim (Bool-cases (is_known (s.sessions k))) [
      | inl e ↦
          rw (e)
            (adjust-Revoked id k (λ x. record x { last_activity_at = now }) s.sessions (λ x h. h) r)
      | inr e ↦ rw (e) r
    ];
  }

  pub revoke_all-Revoked :
      (user_id : String) → Keeps (RevokedIn id) (revoke_all_user_sessions exec user_id)
  unfolding revoke_all_user_sessions revoke
  revoke_all-Revoked user_id =
      bind-Keeps _ _
        (modify-Keeps _ (λ s r. record {
          session = if same r.session.user_id user_id then revoke r.session else r.session;
          found = rw (r.found) refl;
          is_revoked = ground (arith, r.is_revoked);
        }))
        (λ u. run-Revoked _)

  pub get_session-Keeps : (k : String) (now : ℕ) → Keeps (RevokedIn id) (get_session {D = D} k now)
  unfolding get_session
  get_session-Keeps k now = record {
    at = λ s r. elim (Option-cases (s.sessions k)) [
      | inl e ↦ rw (get_session, e) r
      | inr (x, e) ↦ rw (get_session, e) r
    ];
  }

  pub get_user_by_id-Keeps : (k : String) → Keeps (RevokedIn id) (get_user_by_id {D = D} k)
  unfolding get_user_by_id
  get_user_by_id-Keeps k = record {
    at = λ s r. elim (Option-cases (s.users k)) [
      | inl e ↦ rw (get_user_by_id, e) r
      | inr (x, e) ↦ rw (get_user_by_id, e) r
    ];
  }

  pub create_user-Revoked :
      (u : User) (k : String) (now : ℕ) → Keeps (RevokedIn id) (create_user exec u k now)
  unfolding create_user
  create_user-Revoked u k now = search (keeps_rules, run-Revoked, modify-Revoked) depth 12

  pub update_user-Revoked : (u : User) (now : ℕ) → Keeps (RevokedIn id) (update_user exec u now)
  unfolding update_user
  update_user-Revoked u now = search (keeps_rules, run-Revoked, modify-Revoked) depth 12

  pub update_totp_secret-Revoked :
      (k secret : String) (enabled : Bool) (now : ℕ)
      → Keeps (RevokedIn id) (update_totp_secret exec k secret enabled now)
  unfolding update_totp_secret change_user
  update_totp_secret-Revoked k secret enabled now =
      search (keeps_rules, run-Revoked, modify-Revoked) depth 12

  pub update_backup_codes-Revoked :
      (k : String) (codes : List (String × String))
      → Keeps (RevokedIn id) (update_backup_codes exec k codes)
  unfolding update_backup_codes
  update_backup_codes-Revoked k codes = run-Revoked _

  pub disable_totp-Revoked : (k : String) (now : ℕ) → Keeps (RevokedIn id) (disable_totp exec k now)
  unfolding disable_totp change_user
  disable_totp-Revoked k now = search (keeps_rules, run-Revoked, modify-Revoked) depth 12

  pub update_password_hash-Revoked :
      (k hash : String) (now : ℕ) → Keeps (RevokedIn id) (update_password_hash exec k hash now)
  unfolding update_password_hash change_user
  update_password_hash-Revoked k hash now =
      search (keeps_rules, run-Revoked, modify-Revoked) depth 12

  pub record_failed_login-Revoked :
      (k : String) (now : ℕ) → Keeps (RevokedIn id) (record_failed_login exec k now)
  unfolding record_failed_login change_user run
  record_failed_login-Revoked k now = record {
    at = λ s r. elim (Option-cases (s.users k)) [
      | inl e ↦ rw (record_failed_login, e) r
      | inr (x, e) ↦ rw (record_failed_login, e) r
    ];
  }

  pub reset_failed_login-Revoked :
      (k : String) (now : ℕ) → Keeps (RevokedIn id) (reset_failed_login exec k now)
  unfolding reset_failed_login change_user run
  reset_failed_login-Revoked k now = record {
    at = λ s r. elim (Bool-cases (is_known (s.users k))) [ inl e ↦ rw (e) r | inr e ↦ rw (e) r ];
  }

  pub write_audit_event-Revoked :
      (ev : AuditEvent) (k : String) (now : ℕ) (s : Store D)
      → RevokedIn id s
      → RevokedIn id (write_audit_event exec ev k now s)
  unfolding write_audit_event run
  write_audit_event-Revoked ev k now s r = r

  -- What a revocation does to its session, whether or not the database takes it.
  pub revoke_session-revokes :
      (s : Store D) (x : Session)
      → s.sessions id ≡ some x
      → RevokedIn id (revoke_session exec id s).1
  unfolding revoke_session revoke adjust modify
  revoke_session-revokes s x e =
      bind-then _ _ s
        (record { session = revoke x; found = rw (eq_refl id, e) refl; is_revoked = refl })
        (λ u. run-Revoked _)

-- Every session of the user is revoked.
abbrev pub AllRevoked : {D : Type 0} → String → Store D → Type 0
AllRevoked user_id s =
    (k : String) (x : Session)
    → s.sessions k ≡ some x
    → same x.user_id user_id ≡ true
    → x.revoked ≡ true

module _ {D : Type 0} (exec : Exec D) (user_id : String) where
  revoked_all :
      (o : Option Session) (x : Session)
      → Option.map (λ y. if same y.user_id user_id then revoke y else y) o ≡ some x
      → same x.user_id user_id ≡ true
      → x.revoked ≡ true
  unfolding revoke
  revoked_all none x e u = cc
  revoked_all (some y) x e u = ground arith

  run-AllRevoked : (statements : List Statement) → Keeps (AllRevoked user_id) (run exec statements)
  unfolding run
  run-AllRevoked statements = record { at = λ s r. r }

  pub write_audit_event-AllRevoked :
      (ev : AuditEvent) (k : String) (now : ℕ) (s : Store D)
      → AllRevoked user_id s
      → AllRevoked user_id (write_audit_event exec ev k now s)
  unfolding write_audit_event run
  write_audit_event-AllRevoked ev k now s r = r

  pub revoke_all-AllRevoked :
      (s : Store D) → AllRevoked user_id (revoke_all_user_sessions exec user_id s).1
  unfolding revoke_all_user_sessions modify
  revoke_all-AllRevoked s =
      bind-then {P = AllRevoked user_id} _ _ s (λ k x e u. revoked_all (s.sessions k) x e u)
        (λ v. run-AllRevoked _)
