-- ===== src/Auth/Password.antt =====
-- The policy of passwords, control-plane/pkg/auth/password.go. A password is the list of its bytes
-- for the length, and of its code points for the classes. Argon2id is a parameter of the service.
pub mod Policy
use falx_v.Base.{
  ℕ, Bool, true, false, not, ◌&&◌, ◌||◌, List, [], ◌∷◌, Option, none, some, ltb, leb, if◌then◌else◌,
  length,
}

pub data PasswordError : Type 0 where
  too_short too_long no_upper no_lower no_digit no_special : PasswordError

pub record Password : Type 0 where
  pub bytes : List ℕ
  pub runes : List ℕ

pub record Classes : Type 0 where
  pub has_upper : Bool
  pub has_lower : Bool
  pub has_digit : Bool
  pub has_special : Bool

abbrev pub within : ℕ → ℕ → ℕ → Bool
within low high c = leb low c && leb c high

unfoldable pub classify : Classes → ℕ → Classes
classify k c =
    if within 65 90 c
    then record k { has_upper = true }
    else if within 97 122 c
    then record k { has_lower = true }
    else if within 48 57 c
    then record k { has_digit = true }
    else record k { has_special = true }

unfoldable pub classes : Classes → List ℕ → Classes
classes k [] = k
classes k (c ∷ cs) = classes (classify k c) cs

unfoldable pub judged : Classes → Option PasswordError
judged k =
    if not k.has_upper
    then some no_upper
    else if not k.has_lower
    then some no_lower
    else if not k.has_digit
    then some no_digit
    else if not k.has_special
    then some no_special
    else none

unfoldable pub validate_password_strength : Password → Option PasswordError
validate_password_strength p =
    if ltb (length p.bytes) 12
    then some too_short
    else if ltb 128 (length p.bytes)
    then some too_long
    else judged (
        classes
          (record { has_upper = false; has_lower = false; has_digit = false; has_special = false })
          p.runes)

-- The length policy of HashPassword.
unfoldable pub is_hashable : Password → Bool
is_hashable p = leb 12 (length p.bytes) && leb (length p.bytes) 128
