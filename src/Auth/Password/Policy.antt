-- ===== src/Auth/Password/Policy.antt =====
-- The policy of passwords against an independent description of it.
use falx_v.Base.{ℕ, ◌≤◌, ◌≡◌, ◌↔◌, Bool, true, false, not, ◌||◌, List, [], ◌∷◌, none, length, arith}
use falx_v.Auth.Password.{
  Password, Classes, within, classify, classes, judged, validate_password_strength,
}

-- Some code point passes the test.
unfoldable pub any : (ℕ → Bool) → List ℕ → Bool
any f [] = false
any f (c ∷ cs) = f c || any f cs

abbrev pub is_upper : ℕ → Bool
is_upper = within 65 90

abbrev pub is_lower : ℕ → Bool
is_lower = within 97 122

abbrev pub is_digit : ℕ → Bool
is_digit = within 48 57

abbrev pub is_special : ℕ → Bool
is_special c = not (is_upper c || (is_lower c || is_digit c))

classes-any :
    (k : Classes) (cs : List ℕ)
    → ((classes k cs).has_upper ≡ (k.has_upper || any is_upper cs))
      × ((classes k cs).has_lower ≡ (k.has_lower || any is_lower cs))
      × ((classes k cs).has_digit ≡ (k.has_digit || any is_digit cs))
      × ((classes k cs).has_special ≡ (k.has_special || any is_special cs))
unfolding classes any classify
classes-any k [] = ground arith
classes-any k (c ∷ cs) = ground (arith, classes-any (classify k c) cs)

-- A password is accepted exactly when it has 12 to 128 bytes, and a capital letter, a small letter,
-- a digit, and a character that is none of these.
pub validate_password_strength_iff :
    (p : Password)
    → (validate_password_strength p ≡ none) ↔ (
        (12 ≤ length p.bytes)
        × (length p.bytes ≤ 128)
        × (any is_upper p.runes ≡ true)
        × (any is_lower p.runes ≡ true)
        × (any is_digit p.runes ≡ true)
        × (any is_special p.runes ≡ true))
unfolding validate_password_strength judged
validate_password_strength_iff p = ground (
  arith,
  classes-any
      (record { has_upper = false; has_lower = false; has_digit = false; has_special = false })
      p.runes,
)
