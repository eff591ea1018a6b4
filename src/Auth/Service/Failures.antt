-- ===== src/Auth/Service/Failures.antt =====
-- What the parts of a login do to an account, and what a wrong password counts.
use Prim.Native.String.{String}
use text.Mathlib.TextPositions.{eq_refl}
use falx_v.Base.{ℕ, ◌≡◌, refl, ap, ◌∙◌, Bool, true, false, List, some, arith}
use falx_v.Auth.Models.{User}
use falx_v.Auth.Password.{Password}
use falx_v.Base.Dict.{adjust}
use falx_v.Auth.Action.{
  Outcome, ok, err, AuthError, invalid_credentials, account_locked, too_many_attempts, pure, raise,
  modify, ignore, ◌>>=◌, ◌>>◌, bind_ok, Action,
}
use falx_v.Auth.Store.{
  get_user_by_username, run, change_user, failed, record_failed_login, write_audit_event,
}
use falx_v.Auth.Host.{Host, Random}
use falx_v.Auth.Tokens.{TokenPair}
use falx_v.Auth.Service.{
  Service, LoginRequest, on_store, audit, check_login_rate, find_user, refuse, matches,
  check_password, check_totp, check_account, open_session, login,
}

-- The account that the store has under a name.
pub record Account {D : Type 0} (username : String) (u : User) (s : Service D) : Type 0 where
  pub named : s.store.by_name username ≡ some u.id
  pub stored : s.store.users u.id ≡ some u

-- One login for a name: what the request has beside the name.
pub record Guess : Type 0 where
  pub password : Password
  pub totp_code : List ℕ
  pub ip : String
  pub ua : String
  pub rnd : Random
  pub now : ℕ

abbrev pub request_of : String → Guess → LoginRequest
request_of name g = record { username = name; password = g.password; totp_code = g.totp_code }

abbrev pub is_refusal : {A : Type 0} → Outcome A → Bool
is_refusal (err invalid_credentials) = true
is_refusal _ = false

module _ {D : Type 0} (H : Host D) where
  pub find_user-Account :
      (username ip ua : String) (rnd : Random) (now : ℕ) (s : Service D) (u : User)
      → Account username u s
      → find_user H username ip ua rnd now s ≡ (ok u, s)
  unfolding find_user get_user_by_username pure
  find_user-Account username ip ua rnd now s u a =
      rw (find_user, get_user_by_username, a.named, a.stored) refl

  -- The login after the rate limit and the lookup.
  abbrev pub checked_login :
      User
      → LoginRequest
      → (ip ua : String) → Random
      → (now : ℕ) → Action (Service D) (TokenPair × User)
  checked_login u req ip ua rnd now = do
    check_account H u ip ua rnd now
    check_password H u req.password ip ua rnd now
    check_totp H u req.totp_code ip ua rnd now
    pair ← open_session H u ip ua rnd now
    pure (pair, record u { last_login = now })

  pub login-Account :
      (req : LoginRequest) (ip ua : String) (rnd : Random) (now : ℕ) (s : Service D) (u : User)
      → Account req.username u s
      → (check_login_rate H ip now s).0 ≡ ok tt
      → login H req ip ua rnd now s
        ≡ checked_login u req ip ua rnd now (check_login_rate H ip now s).1
  unfolding login check_login_rate
  login-Account req ip ua rnd now s u a e =
      let found =
        find_user-Account req.username ip ua rnd now (check_login_rate H ip now s).1 u
          (record { named = a.named; stored = a.stored }) in
      bind_ok _ _ s tt e
      ∙ (bind_ok _ _ (check_login_rate H ip now s).1 u (ap (λ r. r.0) found)
          ∙ ap (λ r. checked_login u req ip ua rnd now r.1) found)

  pub check_account-locked :
      (name : String) (u : User) (ip ua : String) (rnd : Random) (now : ℕ) (s : Service D)
      → u.active ≡ true
      → u.locked ≡ true
      → Account name u s
      → ((check_account H u ip ua rnd now s).0 ≡ err account_locked)
        × Account name u (check_account H u ip ua rnd now s).1
  unfolding check_account refuse audit modify raise ◌>>=◌ write_audit_event run pure
  check_account-locked name u ip ua rnd now s active l a =
      (ground arith, record { named = ground (arith, a.named); stored = ground (arith, a.stored) })

  pub check_account-passes :
      (u : User) (ip ua : String) (rnd : Random) (now : ℕ) (s : Service D)
      → u.active ≡ true
      → u.locked ≡ false
      → check_account H u ip ua rnd now s ≡ (ok tt, s)
  unfolding check_account pure
  check_account-passes u ip ua rnd now s active l = ground arith

  -- A wrong password is counted for the account that is stored, whose id the user that was read has.
  pub check_password-wrong :
      (name : String) (v u : User) (p : Password) (ip ua : String) (rnd : Random) (now : ℕ)
      (s : Service D)
      → matches H p v.password_hash ≡ false
      → s.store.by_name name ≡ some v.id
      → s.store.users v.id ≡ some u
      → ((check_password H v p ip ua rnd now s).0 ≡ err invalid_credentials)
        × ((check_password H v p ip ua rnd now s).1.store.by_name name ≡ some v.id)
        × ((check_password H v p ip ua rnd now s).1.store.users v.id ≡ some (failed u now))
  unfolding check_password pure refuse audit modify raise ignore on_store ◌>>=◌ write_audit_event
      run record_failed_login change_user adjust
  check_password-wrong name v u p ip ua rnd now s m named stored =
      (ground arith, ground (arith, named, stored), ground (arith, stored, eq_refl v.id))

  pub check_login_rate-err :
      (ip : String) (now : ℕ) (s : Service D) (x : AuthError)
      → (check_login_rate H ip now s).0 ≡ err x
      → x ≡ too_many_attempts
  unfolding check_login_rate
  check_login_rate-err ip now s x e = ground arith
