-- ===== src/Auth/Host.antt =====
-- What the service of control-plane/pkg/auth calls, as parameters.
use Prim.Native.String.{String}
use falx_v.Base.{ℕ, Bool, Option}
use falx_v.Auth.Models.{TokenClaims}
use falx_v.Auth.Password.{Password}
use falx_v.Auth.Totp.{Codec}
use falx_v.Auth.Database.{Exec}

-- The database, the codes' codec, Argon2id, the signature of tokens, net.SplitHostPort's host, and
-- jwt.ParseWithClaims, which checks the signature, the issuer and the times.
pub record Host (D : Type 0) : Type 0 where
  pub exec : Exec D
  pub codec : Codec
  pub verify_password : Password → String → Option Bool
  pub argon2id : Password → (salt : String) → String
  pub sign : TokenClaims → Option String
  pub parse : String → (now : ℕ) → Option TokenClaims
  pub host_of : String → String

-- What rand.Read gives a call: `none` where it fails.
pub record Random : Type 0 where
  pub id : String
  pub audit_id : String
  pub salt : Option String
  pub refresh : Option Password
