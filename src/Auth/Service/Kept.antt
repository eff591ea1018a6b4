-- ===== src/Auth/Service/Kept.antt =====
-- A session that is revoked stays so under the methods of Methods.
use Prim.Native.String.{String}
use falx_v.Base.{ℕ, ◌≡◌, false, ltb, List, Option, none, some, Option-cases, Bool-cases, inl, inr}
use falx_v.Auth.Models.{Role, Session}
use falx_v.Auth.Password.{Password, validate_password_strength}
use falx_v.Base.Dict.{same}
use falx_v.Auth.Action.{weak, pure, raise, modify}
use falx_v.Auth.Action.Keeps.{Keeps, keeps_rules, modify-Keeps}
use falx_v.Auth.Store.Revoked.{
  create_session-Revoked, revoke_session-Revoked, revoke_all-Revoked, get_session-Keeps,
  get_user_by_id-Keeps, create_user-Revoked, update_user-Revoked, update_totp_secret-Revoked,
  update_backup_codes-Revoked, disable_totp-Revoked, update_password_hash-Revoked,
}
use falx_v.Auth.Host.{Host, Random}
use falx_v.Auth.Service.{Service}
use falx_v.Auth.Service.Methods.{
  RegisterRequest, require_strong, check_refresh, refresh_tokens, logout, logout_all, register,
  change_password, begin_totp_setup, drop_pending, find_pending, confirm_totp_setup,
  disable_totp_setup, lock_user, unlock_user,
}
use falx_v.Auth.Service.Revocation.{RevokedFor, on_store-Keeps, audit-Keeps, verify_totp-Keeps}

module _ {D : Type 0} (H : Host D) (id : String) where
  require_strong-Keeps : (p : Password) → Keeps (RevokedFor {D = D} id) (require_strong p)
  unfolding require_strong
  require_strong-Keeps p =
      elim (validate_password_strength p)
        as (λ r.
          Keeps (RevokedFor {D = D} id) (elim r [ none ↦ pure tt | some e ↦ raise (weak e) ])) [
            | none ↦ search keeps_rules
            | some e ↦ search keeps_rules
          ]

  check_refresh-Keeps :
      (x : Session) (raw : Password) → Keeps (RevokedFor id) (check_refresh H x raw)
  unfolding check_refresh
  check_refresh-Keeps x raw = search (keeps_rules, on_store-Keeps, revoke_all-Revoked) depth 20

  pub refresh_tokens-Keeps :
      (k : String) (raw : Password) (rnd : Random) (now : ℕ)
      → same rnd.id id ≡ false
      → Keeps (RevokedFor id) (refresh_tokens H k raw rnd now)
  unfolding refresh_tokens
  refresh_tokens-Keeps k raw rnd now fresh =
      search
        (
          keeps_rules, on_store-Keeps, get_session-Keeps, check_refresh-Keeps, get_user_by_id-Keeps,
          revoke_session-Revoked, create_session-Revoked,
        )
        depth 30

  pub logout-Keeps :
      (k u ip : String) (rnd : Random) (now : ℕ) → Keeps (RevokedFor id) (logout H k u ip rnd now)
  unfolding logout
  logout-Keeps k u ip rnd now =
      search (keeps_rules, on_store-Keeps, revoke_session-Revoked, audit-Keeps) depth 20

  pub logout_all-Keeps :
      (u ip : String) (rnd : Random) (now : ℕ) → Keeps (RevokedFor id) (logout_all H u ip rnd now)
  unfolding logout_all
  logout_all-Keeps u ip rnd now = record {
    at = λ s r.
        (audit-Keeps H id _ rnd now).at _
          ((on_store-Keeps H id _ (revoke_all-Revoked H.exec id u)).at s r);
  }

  pub register-Keeps :
      (req : RegisterRequest) (actor ip : String) (rnd : Random) (now : ℕ)
      → Keeps (RevokedFor id) (register H req actor ip rnd now)
  unfolding register
  register-Keeps req actor ip rnd now =
      search
        (
          keeps_rules, require_strong-Keeps, on_store-Keeps, get_user_by_id-Keeps,
          create_user-Revoked, audit-Keeps,
        )
        depth 30

  pub change_password-Keeps :
      (u : String) (old new : Password) (ip : String) (rnd : Random) (now : ℕ)
      → Keeps (RevokedFor id) (change_password H u old new ip rnd now)
  unfolding change_password
  change_password-Keeps u old new ip rnd now =
      search
        (
          keeps_rules, require_strong-Keeps, on_store-Keeps, get_user_by_id-Keeps,
          update_password_hash-Revoked, revoke_all-Revoked, audit-Keeps,
        )
        depth 30

  find_pending-Keeps : (u : String) (now : ℕ) → Keeps (RevokedFor {D = D} id) (find_pending H u now)
  unfolding find_pending drop_pending
  find_pending-Keeps u now = record {
    at = λ s r. elim (Option-cases (s.pending_totp u)) [
      | inl e ↦ rw (find_pending, e) r
      | inr (entry, e) ↦ elim (Bool-cases (ltb entry.expires_at now)) [
        | inl b ↦ rw (find_pending, e, b) r
        | inr b ↦ rw (find_pending, e, b) r
      ]
    ];
  }

  -- A change of the service that leaves the store alone.
  modify_pending-Keeps :
      (f : Service D → Service D)
      → ((s : Service D) → (f s).store ≡ s.store)
      → Keeps (RevokedFor id) (modify f)
  modify_pending-Keeps f e = modify-Keeps f (λ s r. rw (e s) r)

  pub begin_totp_setup-Keeps :
      (u : String) (generated : Option (String × List Password)) (now : ℕ)
      → Keeps (RevokedFor id) (begin_totp_setup H u generated now)
  unfolding begin_totp_setup
  begin_totp_setup-Keeps u generated now =
      search (keeps_rules, on_store-Keeps, get_user_by_id-Keeps, modify_pending-Keeps) depth 20

  pub confirm_totp_setup-Keeps :
      (u : String) (code : List ℕ) (hashes : Option (List (String × String))) (now : ℕ)
      → Keeps (RevokedFor id) (confirm_totp_setup H u code hashes now)
  unfolding confirm_totp_setup drop_pending
  confirm_totp_setup-Keeps u code hashes now =
      search
        (
          keeps_rules, find_pending-Keeps, verify_totp-Keeps, on_store-Keeps,
          update_totp_secret-Revoked, update_backup_codes-Revoked, modify_pending-Keeps,
        )
        depth 30

  pub disable_totp_setup-Keeps :
      (target actor ip : String) (rnd : Random) (now : ℕ)
      → Keeps (RevokedFor id) (disable_totp_setup H target actor ip rnd now)
  unfolding disable_totp_setup
  disable_totp_setup-Keeps target actor ip rnd now =
      search
        (
          keeps_rules, on_store-Keeps, get_user_by_id-Keeps, disable_totp-Revoked,
          revoke_all-Revoked, audit-Keeps,
        )
        depth 30

  pub lock_user-Keeps :
      (actor : String) (role : Role) (target ip : String) (rnd : Random) (now : ℕ)
      → Keeps (RevokedFor id) (lock_user H actor role target ip rnd now)
  unfolding lock_user
  lock_user-Keeps actor role target ip rnd now =
      search
        (
          keeps_rules, on_store-Keeps, get_user_by_id-Keeps, update_user-Revoked,
          revoke_all-Revoked, audit-Keeps,
        )
        depth 30

  pub unlock_user-Keeps :
      (actor target ip : String) (rnd : Random) (now : ℕ)
      → Keeps (RevokedFor id) (unlock_user H actor target ip rnd now)
  unfolding unlock_user
  unlock_user-Keeps actor target ip rnd now =
      search (keeps_rules, on_store-Keeps, get_user_by_id-Keeps, update_user-Revoked, audit-Keeps)
        depth 30
