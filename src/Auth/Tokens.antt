-- ===== src/Auth/Tokens.antt =====
-- The tokens of control-plane/pkg/auth/jwt.go, and the hashes of control-plane/pkg/auth/password.go.
use Prim.Native.String.{String}
use falx_v.Base.{ℕ, ◌+◌, ◌*◌, Bool, not, ◌&&◌, ◌||◌, Option, none, some, if◌then◌else◌}
use falx_v.Base.Time.{unix, minute}
use falx_v.Auth.Models.{
  requires_2fa, role_permissions, User, Scope, scope_session, scope_pre_auth, TokenClaims,
}
use falx_v.Auth.Password.{Password, is_hashable}
use falx_v.Base.Dict.{same}
use falx_v.Auth.Action.{entropy, signing, invalid_token, hash_length, Outcome, ok, err}
use falx_v.Auth.Host.{Host, Random}

pub record TokenPair : Type 0 where
  pub access_token : String
  pub refresh_token : Option Password
  pub expires_at : ℕ

abbrev pub access_token_ttl : ℕ
access_token_ttl = 15 * minute

abbrev pub refresh_token_ttl : ℕ
refresh_token_ttl = 7 * 24 * 60 * minute

-- HashPassword.
unfoldable pub hash_password : {D : Type 0} → Host D → Password → Option String → Outcome String
hash_password H password salt =
    if not (is_hashable password)
    then err hash_length
    else elim salt [ none ↦ err entropy | some s ↦ ok (H.argon2id password s) ]

-- The second factor that a token may claim, and its scope.
unfoldable pub tfa_ok : User → Bool
tfa_ok u = u.totp_enabled || not (requires_2fa u.role)

unfoldable pub scope_for : User → Scope
scope_for u = if requires_2fa u.role && not u.totp_enabled then scope_pre_auth else scope_session

unfoldable pub claims_of : User → String → Bool → Scope → (now : ℕ) → TokenClaims
claims_of u session_id tfa scope now = record {
  user_id = u.id;
  username = u.username;
  role = u.role;
  session_id = session_id;
  issued_at = unix now;
  expires_at = unix (now + access_token_ttl);
  token_type = "access";
  tfa_verified = tfa;
  scope = scope;
  permissions = role_permissions u.role;
}

module _ {D : Type 0} (H : Host D) where
  unfoldable pub generate_access_token :
      User → String → Bool → Scope → (refresh : Option Password) → (now : ℕ) → Outcome TokenPair
  generate_access_token u session_id tfa scope refresh now =
      elim (H.sign (claims_of u session_id tfa scope now)) [
        | none ↦ err signing
        | some token ↦ ok (record {
          access_token = token;
          refresh_token = refresh;
          expires_at = now + access_token_ttl;
        })
      ]

  unfoldable pub verify_access_token : String → (now : ℕ) → Outcome TokenClaims
  verify_access_token token now = elim (H.parse token now) [
    | none ↦ err invalid_token
    | some claims ↦ if same claims.token_type "access" then ok claims else err invalid_token
  ]

  unfoldable pub generate_refresh_token : Random → Outcome (Password × String)
  generate_refresh_token rnd = elim rnd.refresh [
    | none ↦ err entropy
    | some raw ↦ elim (hash_password H raw rnd.salt) [
      | ok hashed ↦ ok (raw, hashed)
      | err e ↦ err e
    ]
  ]
