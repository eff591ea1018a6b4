-- ===== src/Auth/Totp.antt =====
-- One-time codes, control-plane/pkg/auth/totp.go. The decoding of a secret from base32, the HMAC, and
-- the capitals of a text are a parameter. A code is the list of its bytes. The cache of used codes is
-- keyed by the secret and the counter, which the code joins in one text; its entries hold the time of
-- use. Times are Unix seconds of at least 30.
pub mod Replay
use Prim.Native.String.{String}
use text.Mathlib.Text
use falx_v.Base.{
  ℕ, zero, suc, ◌+◌, ◌-◌, ◌*◌, ◌/◌, ◌%◌, ◌^◌, Bool, true, false, not, ◌&&◌, ◌||◌, List, [], ◌∷◌,
  ◌++◌, Option, none, some, ltb, leb, ◌==◌, if◌then◌else◌, length, take, drop,
}

-- base32.DecodeString of strings.ToUpper, and hmac.Sum with SHA-1.
pub record Codec : Type 0 where
  pub decode_secret : String → Option (List ℕ)
  pub hmac_sha1 : (key message : List ℕ) → List ℕ

abbrev pub totp_digits : ℕ
totp_digits = 6

abbrev pub totp_period : ℕ
totp_period = 30

abbrev pub totp_window : ℕ
totp_window = 1

-- A byte of the digest; zero stands for the panic outside of it.
unfoldable pub byte_at : List ℕ → ℕ → ℕ
byte_at [] i = 0
byte_at (b ∷ bs) zero = b
byte_at (b ∷ bs) (suc i) = byte_at bs i

-- The bytes of a number, the highest first.
unfoldable pub big_endian_bytes : ℕ → ℕ → List ℕ
big_endian_bytes zero n = []
big_endian_bytes (suc k) n = big_endian_bytes k (n / 256) ++ (n % 256) ∷ []

-- The offset of the truncation.
unfoldable pub offset_of : List ℕ → ℕ
offset_of h = byte_at h (length h - 1) % 16

unfoldable pub hotp : Codec → List ℕ → ℕ → ℕ → ℕ
hotp C key counter digits =
    let h = C.hmac_sha1 key (big_endian_bytes 8 counter) in
    let i = offset_of h in
    (byte_at h i % 128 * 2 ^ 24
      + byte_at h (i + 1) * 2 ^ 16
      + byte_at h (i + 2) * 2 ^ 8
      + byte_at h (i + 3))
    % 10 ^ digits

-- The decimal digits, with leading zeros.
unfoldable pub padded : ℕ → ℕ → List ℕ
padded zero n = []
padded (suc k) n = padded k (n / 10) ++ (48 + n % 10) ∷ []

-- hmac.Equal.
unfoldable pub equal : List ℕ → List ℕ → Bool
equal [] [] = true
equal [] (y ∷ ys) = false
equal (x ∷ xs) [] = false
equal (x ∷ xs) (y ∷ ys) = x == y && equal xs ys

-- The code of a counter.
unfoldable pub code_for : Codec → List ℕ → ℕ → List ℕ
code_for C key counter = padded totp_digits (hotp C key counter totp_digits)

unfoldable pub generate_totp : Codec → String → ℕ → Option (List ℕ)
generate_totp C secret now = elim (C.decode_secret secret) [
  | none ↦ none
  | some key ↦ some (code_for C key (now / totp_period))
]

abbrev pub Cache : Type 0
Cache = String → ℕ → Option ℕ

-- The entry of a code that is used, and no entry from before the cutoff.
unfoldable pub marked : Cache → String → ℕ → ℕ → Cache
marked cache secret counter now s c =
    let entry = if Text.◌==◌ s secret && c == counter then some now else cache s c in
    elim entry [
      | none ↦ none
      | some ts ↦ if ltb ts (now - (totp_window + 1) * totp_period) then none else some ts
    ]

-- A code that fits a counter: refused if the counter was used.
unfoldable pub use_counter : Cache → String → ℕ → ℕ → Cache × Bool
use_counter cache secret counter now = elim (cache secret counter) [
  | some ts ↦ (cache, false)
  | none ↦ (marked cache secret counter now, true)
]

-- The first counter of the window whose code it is.
unfoldable pub first_match : Codec → List ℕ → List ℕ → ℕ → Option ℕ
first_match C key code now =
    let counter : ℕ → ℕ =
      λ delta. (now + delta * totp_period - totp_window * totp_period) / totp_period in
    if equal code (code_for C key (counter 0))
    then some (counter 0)
    else if equal code (code_for C key (counter 1))
    then some (counter 1)
    else if equal code (code_for C key (counter 2))
    then some (counter 2)
    else none

unfoldable pub verify_totp_code : Codec → Cache → String → List ℕ → ℕ → Cache × Bool
verify_totp_code C cache secret code now =
    if not (length code == totp_digits) then (cache, false) else elim (C.decode_secret secret) [
      | none ↦ (cache, false)
      | some key ↦ elim (first_match C key code now) [
        | none ↦ (cache, false)
        | some counter ↦ use_counter cache secret counter now
      ]
    ]

-- The letters and digits of backup codes, without O, I, 0 and 1.
abbrev pub charset : List ℕ
charset =
    65 ∷ 66 ∷ 67 ∷ 68 ∷ 69 ∷ 70 ∷ 71 ∷ 72 ∷ 74 ∷ 75 ∷ 76 ∷ 77 ∷ 78 ∷ 80 ∷ 81 ∷ 82 ∷ 83 ∷ 84 ∷ 85
    ∷ 86 ∷ 87 ∷ 88 ∷ 89 ∷ 90 ∷ 50 ∷ 51 ∷ 52 ∷ 53 ∷ 54 ∷ 55 ∷ 56 ∷ 57 ∷ []

unfoldable pub letters : List ℕ → List ℕ
letters [] = []
letters (v ∷ vs) = byte_at charset (v % length charset) ∷ letters vs

-- A backup code from eight random bytes: two groups of four with a dash between them.
unfoldable pub backup_code : List ℕ → List ℕ
backup_code random = take 4 (letters random) ++ (45 ∷ drop 4 (letters random))
