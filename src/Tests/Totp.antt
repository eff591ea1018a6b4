-- ===== src/Tests/Totp.antt =====
-- One-time codes that are used twice.
use falx_v.Base.{ℕ, ◌≡◌, refl, false, List, [], ◌∷◌, none, arith}
use falx_v.Auth.Totp.{
  Cache, verify_totp_code, first_match, code_for, padded, big_endian_bytes, byte_at, hotp,
  offset_of, use_counter, equal,
}
use falx_v.Auth.Totp.Replay.{Call, calls, verify-replay}
use falx_v.Tests.Auth.{codec}

abbrev unused : Cache
unused s c = none

-- The code of the counter 3.
abbrev three : List ℕ
three = 48 ∷ 48 ∷ 48 ∷ 48 ∷ 48 ∷ 51 ∷ []

abbrev four : List ℕ
four = 48 ∷ 48 ∷ 48 ∷ 48 ∷ 48 ∷ 52 ∷ []

abbrev others : List Call
others = record { secret = "BETA"; code = four; at = 119 } ∷ []

verify-replay_example :
    (verify_totp_code codec
      (calls codec (verify_totp_code codec unused "ALPHA" three 60).0 others)
      "ALPHA"
      three
      121).1
    ≡ false
unfolding verify_totp_code first_match code_for padded big_endian_bytes byte_at hotp offset_of
    use_counter equal
verify-replay_example =
    verify-replay codec unused "ALPHA" (1 ∷ []) three 60 121 3 others refl refl refl refl
      (ground arith)
