-- ===== src/Auth/Service/Revocation.antt =====
-- A session that is revoked stays so, whatever methods are called.
use Prim.Native.String.{String}
use falx_v.Base.{ℕ, ◌≡◌, false, List, inl, inr}
use falx_v.Auth.Models.{User, AuditEvent}
use falx_v.Auth.Password.{Password}
use falx_v.Base.Dict.{same}
use falx_v.Auth.Action.{
  Action, AuthError, Outcome-cases, raise, raise_if, invalid_credentials, ◌>>◌,
}
use falx_v.Auth.Action.Keeps.{Keeps, keeps_rules, pure-Keeps, modify-Keeps}
use falx_v.Auth.Store.{Store, get_user_by_username}
use falx_v.Auth.Store.Revoked.{
  RevokedIn, create_session-Revoked, touch_session-Revoked, get_session-Keeps, update_user-Revoked,
  record_failed_login-Revoked, reset_failed_login-Revoked, write_audit_event-Revoked,
}
use falx_v.Auth.Host.{Host, Random}
use falx_v.Auth.Service.{
  Service, LoginRequest, on_store, audit, is_panic, login_event, check_login_rate, find_user,
  refuse, check_password, verify_totp, check_totp, check_account, open_session, login,
  validate_request,
}

abbrev pub RevokedFor : {D : Type 0} → String → Service D → Type 0
RevokedFor id s = RevokedIn id s.store

module _ {D : Type 0} (H : Host D) (id : String) where
  pub on_store-Keeps :
      {A : Type 0} (m : Action (Store D) A)
      → Keeps (RevokedIn id) m
      → Keeps (RevokedFor id) (on_store H m)
  unfolding on_store
  on_store-Keeps m k = record { at = λ s r. k.at s.store r }

  pub audit-Keeps :
      (ev : AuditEvent) (rnd : Random) (now : ℕ) → Keeps (RevokedFor id) (audit H ev rnd now)
  unfolding audit
  audit-Keeps ev rnd now =
      modify-Keeps _ (λ s r. write_audit_event-Revoked H.exec id ev rnd.audit_id now s.store r)

  check_login_rate-Keeps :
      (ip : String) (now : ℕ) → Keeps (RevokedFor id) (check_login_rate H ip now)
  unfolding check_login_rate
  check_login_rate-Keeps ip now = record { at = λ s r. r }

  pub verify_totp-Keeps :
      (secret : String) (code : List ℕ) (now : ℕ)
      → Keeps (RevokedFor id) (verify_totp H secret code now)
  unfolding verify_totp
  verify_totp-Keeps secret code now = record { at = λ s r. r }

  refuse-Keeps :
      (u : User) (ip ua reason : String) (e : AuthError) (rnd : Random) (now : ℕ)
      → Keeps (RevokedFor id) (refuse H u ip ua reason e rnd now)
  unfolding refuse
  refuse-Keeps u ip ua reason e rnd now = search (keeps_rules, audit-Keeps) depth 12

  check_account-Keeps :
      (u : User) (ip ua : String) (rnd : Random) (now : ℕ)
      → Keeps (RevokedFor id) (check_account H u ip ua rnd now)
  unfolding check_account
  check_account-Keeps u ip ua rnd now = search (keeps_rules, refuse-Keeps) depth 12

  check_totp-Keeps :
      (u : User) (code : List ℕ) (ip ua : String) (rnd : Random) (now : ℕ)
      → Keeps (RevokedFor id) (check_totp H u code ip ua rnd now)
  unfolding check_totp
  check_totp-Keeps u code ip ua rnd now =
      search (keeps_rules, refuse-Keeps, verify_totp-Keeps) depth 12

  check_password-Keeps :
      (u : User) (password : Password) (ip ua : String) (rnd : Random) (now : ℕ)
      → Keeps (RevokedFor id) (check_password H u password ip ua rnd now)
  unfolding check_password
  check_password-Keeps u password ip ua rnd now =
      search (keeps_rules, on_store-Keeps, record_failed_login-Revoked, refuse-Keeps) depth 12

  -- What a login of an unknown user does.
  unknown_user-Keeps :
      (e : AuthError) (username ip ua : String) (rnd : Random) (now : ℕ)
      → Keeps (RevokedFor id) (do
        raise_if (is_panic e) e
        audit H (login_event H "" username ip ua false "user_not_found") rnd now
        raise {A = User} invalid_credentials)
  unknown_user-Keeps e username ip ua rnd now = search (keeps_rules, audit-Keeps) depth 12

  find_user-Keeps :
      (username ip ua : String) (rnd : Random) (now : ℕ)
      → Keeps (RevokedFor id) (find_user H username ip ua rnd now)
  unfolding find_user
  find_user-Keeps username ip ua rnd now = record {
    at = λ s r. elim (Outcome-cases (get_user_by_username username s.store).0) [
      | inl (u, e) ↦ rw (find_user, e) ((pure-Keeps {P = RevokedFor id} u).at s r)
      | inr (x, e) ↦ rw (find_user, e) ((unknown_user-Keeps x username ip ua rnd now).at s r)
    ];
  }

  open_session-Keeps :
      (u : User) (ip ua : String) (rnd : Random) (now : ℕ)
      → same rnd.id id ≡ false
      → Keeps (RevokedFor id) (open_session H u ip ua rnd now)
  unfolding open_session
  open_session-Keeps u ip ua rnd now fresh =
      search
        (
          keeps_rules, audit-Keeps, on_store-Keeps, reset_failed_login-Revoked,
          create_session-Revoked, update_user-Revoked,
        )
        depth 20

  pub login-Keeps :
      (req : LoginRequest) (ip ua : String) (rnd : Random) (now : ℕ)
      → same rnd.id id ≡ false
      → Keeps (RevokedFor id) (login H req ip ua rnd now)
  unfolding login
  login-Keeps req ip ua rnd now fresh =
      search
        (
          keeps_rules, check_login_rate-Keeps, find_user-Keeps, check_account-Keeps,
          check_password-Keeps, check_totp-Keeps, open_session-Keeps,
        )
        depth 30

  pub validate_request-Keeps :
      (token : String) (now : ℕ) → Keeps (RevokedFor id) (validate_request H token now)
  unfolding validate_request
  validate_request-Keeps token now =
      search (keeps_rules, on_store-Keeps, get_session-Keeps, touch_session-Revoked) depth 20
