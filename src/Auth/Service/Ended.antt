-- ===== src/Auth/Service/Ended.antt =====
-- Tokens of sessions that ended by a logout or by a change of the password.
use Prim.Native.String.{String}
use falx_v.Base.{ℕ, ◌≡◌, refl, true, false, List, [], ◌∷◌, Option, some, All}
use falx_v.Auth.Models.{Role, Session, AuditEvent, TokenClaims}
use falx_v.Auth.Password.{Password}
use falx_v.Base.Dict.{same}
use falx_v.Auth.Action.{ok, err, session_revoked, ◌>>=◌, ◌>>◌, of, modify, ignore}
use falx_v.Auth.Action.Keeps.{bind-then, Attains, bind-Attains-rest, bind-Attains-first}
use falx_v.Auth.Store.{revoke_all_user_sessions}
use falx_v.Auth.Store.Revoked.{
  revoke_session-revokes, AllRevoked, revoke_all-AllRevoked, write_audit_event-AllRevoked,
  get_session-Revoked,
}
use falx_v.Auth.Host.{Host, Random}
use falx_v.Auth.Tokens.{verify_access_token}
use falx_v.Auth.Service.{Service, LoginRequest, on_store, audit, login, validate_request}
use falx_v.Auth.Service.Methods.{
  RegisterRequest, refresh_tokens, logout, logout_all, register, change_password, begin_totp_setup,
  confirm_totp_setup, disable_totp_setup, lock_user, unlock_user,
}
use falx_v.Auth.Service.Revocation.{RevokedFor, audit-Keeps, login-Keeps, validate_request-Keeps}
use falx_v.Auth.Service.Kept.{
  refresh_tokens-Keeps, logout-Keeps, logout_all-Keeps, register-Keeps, change_password-Keeps,
  begin_totp_setup-Keeps, confirm_totp_setup-Keeps, disable_totp_setup-Keeps, lock_user-Keeps,
  unlock_user-Keeps,
}

-- The calls of the service's methods.
pub data Call : Type 0 where
  call_login : LoginRequest → (ip ua : String) → Call
  call_refresh : (session_id : String) → Password → Call
  call_logout : (session_id user_id ip : String) → Call
  call_logout_all : (user_id ip : String) → Call
  call_register : RegisterRequest → (actor ip : String) → Call
  call_change_password : (user_id : String) → (old new : Password) → (ip : String) → Call
  call_validate : (token : String) → Call
  call_begin : (user_id : String) → Option (String × List Password) → Call
  call_confirm : (user_id : String) → List ℕ → Option (List (String × String)) → Call
  call_disable : (target actor ip : String) → Call
  call_lock : (actor : String) → Role → (target ip : String) → Call
  call_unlock : (actor target ip : String) → Call

module _ {D : Type 0} (H : Host D) where
  -- The service after a call, which drew these random texts at this time.
  unfoldable pub perform : Call → Random → ℕ → Service D → Service D
  perform (call_login req ip ua) rnd now s = (login H req ip ua rnd now s).1
  perform (call_refresh k raw) rnd now s = (refresh_tokens H k raw rnd now s).1
  perform (call_logout k u ip) rnd now s = (logout H k u ip rnd now s).1
  perform (call_logout_all u ip) rnd now s = (logout_all H u ip rnd now s).1
  perform (call_register req actor ip) rnd now s = (register H req actor ip rnd now s).1
  perform (call_change_password u old new ip) rnd now s =
      (change_password H u old new ip rnd now s).1
  perform (call_validate token) rnd now s = (validate_request H token now s).1
  perform (call_begin u generated) rnd now s = (begin_totp_setup H u generated now s).1
  perform (call_confirm u code hashes) rnd now s = (confirm_totp_setup H u code hashes now s).1
  perform (call_disable target actor ip) rnd now s =
      (disable_totp_setup H target actor ip rnd now s).1
  perform (call_lock actor role target ip) rnd now s =
      (lock_user H actor role target ip rnd now s).1
  perform (call_unlock actor target ip) rnd now s = (unlock_user H actor target ip rnd now s).1

  unfoldable pub performs : List (Call × Random × ℕ) → Service D → Service D
  performs [] s = s
  performs ((c, rnd, now) ∷ cs) s = performs cs (perform c rnd now s)

  -- No call draws the id.
  abbrev pub IsFresh : String → Call × Random × ℕ → Type 0
  IsFresh id c = same c.1.id id ≡ false

  perform-Keeps :
      (id : String) (c : Call) (rnd : Random) (now : ℕ) (s : Service D)
      → same rnd.id id ≡ false
      → RevokedFor id s
      → RevokedFor id (perform c rnd now s)
  unfolding perform
  perform-Keeps id (call_login req ip ua) rnd now s f r =
      (login-Keeps H id req ip ua rnd now f).at s r
  perform-Keeps id (call_refresh k raw) rnd now s f r =
      (refresh_tokens-Keeps H id k raw rnd now f).at s r
  perform-Keeps id (call_logout k u ip) rnd now s f r = (logout-Keeps H id k u ip rnd now).at s r
  perform-Keeps id (call_logout_all u ip) rnd now s f r =
      (logout_all-Keeps H id u ip rnd now).at s r
  perform-Keeps id (call_register req actor ip) rnd now s f r =
      (register-Keeps H id req actor ip rnd now).at s r
  perform-Keeps id (call_change_password u old new ip) rnd now s f r =
      (change_password-Keeps H id u old new ip rnd now).at s r
  perform-Keeps id (call_validate token) rnd now s f r =
      (validate_request-Keeps H id token now).at s r
  perform-Keeps id (call_begin u generated) rnd now s f r =
      (begin_totp_setup-Keeps H id u generated now).at s r
  perform-Keeps id (call_confirm u code hashes) rnd now s f r =
      (confirm_totp_setup-Keeps H id u code hashes now).at s r
  perform-Keeps id (call_disable target actor ip) rnd now s f r =
      (disable_totp_setup-Keeps H id target actor ip rnd now).at s r
  perform-Keeps id (call_lock actor role target ip) rnd now s f r =
      (lock_user-Keeps H id actor role target ip rnd now).at s r
  perform-Keeps id (call_unlock actor target ip) rnd now s f r =
      (unlock_user-Keeps H id actor target ip rnd now).at s r

  performs-Keeps :
      (id : String) (cs : List (Call × Random × ℕ)) (s : Service D)
      → All (IsFresh id) cs
      → RevokedFor id s
      → RevokedFor id (performs cs s)
  unfolding performs
  performs-Keeps id [] s a r = r
  performs-Keeps id ((c, rnd, now) ∷ cs) s (f, a) r =
      performs-Keeps id cs (perform c rnd now s) a (perform-Keeps id c rnd now s f r)

  -- A token of a revoked session is refused.
  validate_request-Revoked :
      (token : String) (claims : TokenClaims) (now : ℕ) (s : Service D)
      → verify_access_token H token now ≡ ok claims
      → RevokedFor claims.session_id s
      → (validate_request H token now s).0 ≡ err session_revoked
  unfolding validate_request on_store of ◌>>=◌
  validate_request-Revoked token claims now s e r =
      rw (e, get_session-Revoked claims.session_id now s.store r) refl

  performs-validate_request :
      (token : String) (claims : TokenClaims) (cs : List (Call × Random × ℕ)) (now : ℕ)
      (s : Service D)
      → RevokedFor claims.session_id s
      → All (IsFresh claims.session_id) cs
      → verify_access_token H token now ≡ ok claims
      → (validate_request H token now (performs cs s)).0 ≡ err session_revoked
  performs-validate_request token claims cs now s r a e =
      validate_request-Revoked token claims now (performs cs s) e
        (performs-Keeps claims.session_id cs s a r)

  -- After a logout of a session, whether or not the database took it, every token of the session is
  -- refused, whatever methods are called in between, if none of them draws its id again.
  pub logout-validate_request :
      (token : String) (claims : TokenClaims) (x : Session) (user_id ip : String) (rnd : Random)
      (then_ : ℕ) (cs : List (Call × Random × ℕ)) (now : ℕ) (s : Service D)
      → s.store.sessions claims.session_id ≡ some x
      → All (IsFresh claims.session_id) cs
      → verify_access_token H token now ≡ ok claims
      → (validate_request H token now
          (performs cs (logout H claims.session_id user_id ip rnd then_ s).1)).0
        ≡ err session_revoked
  unfolding logout on_store
  logout-validate_request token claims x user_id ip rnd then_ cs now s f a e =
      performs-validate_request token claims cs now
        (logout H claims.session_id user_id ip rnd then_ s).1
        (bind-then _ _ s (revoke_session-revokes H.exec claims.session_id s.store x f)
          (λ u. audit-Keeps H claims.session_id _ rnd then_))
        a e

  abbrev AllRevokedFor : String → Service D → Type 0
  AllRevokedFor user_id s = AllRevoked user_id s.store

  revoke_all-Attains :
      (user_id : String) (ev : AuditEvent) (rnd : Random) (now : ℕ)
      → Attains
          (AllRevokedFor user_id)
          (do ignore (on_store H (revoke_all_user_sessions H.exec user_id)); audit H ev rnd now)
  unfolding ignore on_store audit modify
  revoke_all-Attains user_id ev rnd now =
      bind-Attains-first _ _ (λ s. revoke_all-AllRevoked H.exec user_id s.store)
        (λ a. record {
          at = λ s r. write_audit_event-AllRevoked H.exec user_id ev rnd.audit_id now s.store r;
        })

  change_password-Attains :
      (user_id : String) (old new : Password) (ip : String) (rnd : Random) (now : ℕ)
      → Attains (AllRevokedFor user_id) (change_password H user_id old new ip rnd now)
  unfolding change_password
  change_password-Attains user_id old new ip rnd now =
      search (bind-Attains-rest, revoke_all-Attains) depth 20

  -- After a change of the password that succeeded, every token of every session of the user is refused,
  -- whatever methods are called in between, if none of them draws the session's id again.
  pub change_password-validate_request :
      (token : String) (claims : TokenClaims) (x : Session) (user_id : String) (old new : Password)
      (ip : String) (rnd : Random) (then_ : ℕ) (cs : List (Call × Random × ℕ)) (now : ℕ)
      (s : Service D)
      → (change_password H user_id old new ip rnd then_ s).0 ≡ ok tt
      → (change_password H user_id old new ip rnd then_ s).1.store.sessions claims.session_id
        ≡ some x
      → same x.user_id user_id ≡ true
      → All (IsFresh claims.session_id) cs
      → verify_access_token H token now ≡ ok claims
      → (validate_request H token now
          (performs cs (change_password H user_id old new ip rnd then_ s).1)).0
        ≡ err session_revoked
  change_password-validate_request token claims x user_id old new ip rnd then_ cs now s done f u a
        e =
      performs-validate_request token claims cs now
        (change_password H user_id old new ip rnd then_ s).1
        (record {
          session = x;
          found = f;
          is_revoked =
              (change_password-Attains user_id old new ip rnd then_).at s tt done claims.session_id
                x f u;
        })
        a e
