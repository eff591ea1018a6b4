-- ===== src/Auth/Totp/Replay.antt =====
-- For how long a code that was used is refused.
use Prim.Native.String.{String}
use text.Mathlib.Text
use text.Mathlib.TextEquality.{eq_iff}
use text.Mathlib.TextPositions.{eq_refl}
use falx_v.Base.{
  ℕ, ◌+◌, ◌≤◌, ◌<◌, ◌≡◌, refl, true, false, ◌&&◌, List, [], ◌∷◌, none, some, All, ◌==◌, length,
  arith, Bool-cases, Option-cases, inl, inr,
}
use falx_v.Auth.Totp.{
  Codec, Cache, totp_digits, marked, use_counter, first_match, verify_totp_code, hotp, offset_of,
  big_endian_bytes,
}

pub record Call : Type 0 where
  pub secret : String
  pub code : List ℕ
  pub at : ℕ

-- The cache after the calls.
unfoldable pub calls : Codec → Cache → List Call → Cache
calls C cache [] = cache
calls C cache (c ∷ cs) = calls C (verify_totp_code C cache c.secret c.code c.at).0 cs

-- A marked cache keeps every entry that is at most a minute old.
marked-keeps :
    (cache : Cache) (secret s : String) (counter c now ts : ℕ)
    → cache secret counter ≡ none
    → cache s c ≡ some ts
    → now ≤ ts + 60
    → marked cache secret counter now s c ≡ some ts
unfolding marked
marked-keeps cache secret s counter c now ts unused e h =
    elim (Bool-cases (Text.◌==◌ s secret && c == counter)) [
      | inl same ↦ absurd (ground (arith, eq_iff s secret))
      | inr other ↦ ground arith
    ]

marked_self :
    (cache : Cache) (secret : String) (counter now : ℕ)
    → marked cache secret counter now secret counter ≡ some now
unfolding marked
marked_self cache secret counter now = ground (arith, eq_refl secret)

use_counter-keeps :
    (cache : Cache) (secret s : String) (counter c now ts : ℕ)
    → cache s c ≡ some ts
    → now ≤ ts + 60
    → (use_counter cache secret counter now).0 s c ≡ some ts
unfolding use_counter
use_counter-keeps cache secret s counter c now ts e h = elim (Option-cases (cache secret counter)) [
  | inl n ↦ rw (use_counter, n) (marked-keeps cache secret s counter c now ts n e h)
  | inr (t, n) ↦ rw (use_counter, n) e
]

verify-keeps :
    (C : Codec) (cache : Cache) (secret s : String) (code : List ℕ) (c now ts : ℕ)
    → cache s c ≡ some ts
    → now ≤ ts + 60
    → (verify_totp_code C cache secret code now).0 s c ≡ some ts
unfolding verify_totp_code
verify-keeps C cache secret s code c now ts e h = elim (Bool-cases (length code == totp_digits)) [
  | inr l ↦ rw (verify_totp_code, l) e
  | inl l ↦ elim (Option-cases (C.decode_secret secret)) [
    | inl d ↦ rw (verify_totp_code, l, d) e
    | inr (key, d) ↦ elim (Option-cases (first_match C key code now)) [
      | inl m ↦ rw (verify_totp_code, l, d, m) e
      | inr (counter, m) ↦
          rw (verify_totp_code, l, d, m) (use_counter-keeps cache secret s counter c now ts e h)
    ]
  ]
]

calls-keeps :
    (C : Codec) (cache : Cache) (s : String) (c ts : ℕ) (cs : List Call)
    → cache s c ≡ some ts
    → All (λ k. k.at ≤ ts + 60) cs
    → calls C cache cs s c ≡ some ts
unfolding calls
calls-keeps C cache s c ts [] e a = e
calls-keeps C cache s c ts (k ∷ cs) e (h, a) =
    calls-keeps C (verify_totp_code C cache k.secret k.code k.at).0 s c ts cs
      (verify-keeps C cache k.secret s k.code c k.at ts e h) a

-- What a call does whose code has six digits, whose secret decodes, and which fits a counter.
verify-counter :
    (C : Codec) (cache : Cache) (secret : String) (key code : List ℕ) (now c : ℕ)
    → length code ≡ totp_digits
    → C.decode_secret secret ≡ some key
    → first_match C key code now ≡ some c
    → verify_totp_code C cache secret code now ≡ use_counter cache secret c now
unfolding verify_totp_code
verify-counter C cache secret key code now c l d m = ground arith

-- What an accepted code has been found to be.
accepted :
    (C : Codec) (cache : Cache) (secret : String) (key code : List ℕ) (now : ℕ)
    → C.decode_secret secret ≡ some key
    → (verify_totp_code C cache secret code now).1 ≡ true
    → (length code ≡ totp_digits)
      × (c : ℕ) × (first_match C key code now ≡ some c)
      × (cache secret c ≡ none)
unfolding verify_totp_code use_counter
accepted C cache secret key code now d ok = elim (Option-cases (first_match C key code now)) [
  | inl m ↦ absurd (ground arith)
  | inr (c, m) ↦ elim (Option-cases (cache secret c)) [
    | inl n ↦ (ground arith, c, m, n)
    | inr (ts, n) ↦ absurd (ground arith)
  ]
]

accepted-entry :
    (C : Codec) (cache : Cache) (secret : String) (key code : List ℕ) (now c : ℕ)
    → C.decode_secret secret ≡ some key
    → (verify_totp_code C cache secret code now).1 ≡ true
    → first_match C key code now ≡ some c
    → (verify_totp_code C cache secret code now).0 secret c ≡ some now
unfolding use_counter
accepted-entry C cache secret key code now c d ok m =
    let (l, c', m', n') = accepted C cache secret key code now d ok in
    let n : cache secret c ≡ none = ground arith in
    rw (verify-counter C cache secret key code now c l d m, use_counter, n)
      (marked_self cache secret c now)

-- A code that was accepted is refused when it comes again and fits the same counter, whatever codes
-- were checked in between, if none of them came more than a minute after it.
pub verify-replay :
    (C : Codec) (cache : Cache) (secret : String) (key code : List ℕ) (t₀ t₁ c : ℕ) (cs : List Call)
    → C.decode_secret secret ≡ some key
    → first_match C key code t₀ ≡ some c
    → first_match C key code t₁ ≡ some c
    → (verify_totp_code C cache secret code t₀).1 ≡ true
    → All (λ k. k.at ≤ t₀ + 60) cs
    → (verify_totp_code C (calls C (verify_totp_code C cache secret code t₀).0 cs) secret code t₁).1
      ≡ false
unfolding use_counter
verify-replay C cache secret key code t₀ t₁ c cs d m₀ m₁ ok all =
    let l = (accepted C cache secret key code t₀ d ok).0 in
    let entry = accepted-entry C cache secret key code t₀ c d ok m₀ in
    let kept = calls-keeps C (verify_totp_code C cache secret code t₀).0 secret c t₀ cs entry all in
    rw
      (
        verify-counter C (calls C (verify_totp_code C cache secret code t₀).0 cs) secret key code t₁
            c l d m₁,
        use_counter,
        kept,
      )
      refl

-- The entry of another secret that is more than a minute old goes when a code is marked.
marked-purges :
    (cache : Cache) (other secret : String) (counter c now ts : ℕ)
    → Text.◌==◌ secret other ≡ false
    → cache secret c ≡ some ts
    → ts + 60 < now
    → marked cache other counter now secret c ≡ none
unfolding marked
marked-purges cache other secret counter c now ts ne e h = ground arith

accepted-purges :
    (C : Codec) (cache : Cache) (other secret : String) (key code : List ℕ) (now c ts : ℕ)
    → C.decode_secret other ≡ some key
    → Text.◌==◌ secret other ≡ false
    → cache secret c ≡ some ts
    → ts + 60 < now
    → (verify_totp_code C cache other code now).1 ≡ true
    → (verify_totp_code C cache other code now).0 secret c ≡ none
unfolding use_counter
accepted-purges C cache other secret key code now c ts d ne e h ok =
    let (l, c', m, n) = accepted C cache other key code now d ok in
    rw (verify-counter C cache other key code now c' l d m, use_counter, n)
      (marked-purges cache other secret c' c now ts ne e h)

-- If another secret's code is accepted more than a minute after a code was, that code is accepted
-- again as long as its counter is in the window.
verify-replayed :
    (C : Codec) (cache : Cache) (secret other : String) (key code key' code' : List ℕ)
    (t₀ t₁ t₂ c : ℕ)
    → C.decode_secret secret ≡ some key
    → C.decode_secret other ≡ some key'
    → Text.◌==◌ secret other ≡ false
    → first_match C key code t₀ ≡ some c
    → first_match C key code t₂ ≡ some c
    → (verify_totp_code C cache secret code t₀).1 ≡ true
    → (verify_totp_code C (verify_totp_code C cache secret code t₀).0 other code' t₁).1 ≡ true
    → t₀ + 60 < t₁
    → (verify_totp_code C
        (verify_totp_code C (verify_totp_code C cache secret code t₀).0 other code' t₁).0
        secret
        code
        t₂).1
      ≡ true
unfolding use_counter
verify-replayed C cache secret other key code key' code' t₀ t₁ t₂ c d d' ne m₀ m₂ ok ok' late =
    let l = (accepted C cache secret key code t₀ d ok).0 in
    let first = (verify_totp_code C cache secret code t₀).0 in
    let entry = accepted-entry C cache secret key code t₀ c d ok m₀ in
    let gone = accepted-purges C first other secret key' code' t₁ c t₀ d' ne entry late ok' in
    rw
      (
        verify-counter C (verify_totp_code C first other code' t₁).0 secret key code t₂ c l d m₂,
        use_counter,
        gone,
      )
      refl

-- Every digest byte that a code takes lies within the 20 bytes of the digest, and the code has at
-- most six digits.
hotp-within :
    (C : Codec) (key : List ℕ) (counter : ℕ)
    → length (C.hmac_sha1 key (big_endian_bytes 8 counter)) ≡ 20
    → (offset_of (C.hmac_sha1 key (big_endian_bytes 8 counter)) + 3
        < length (C.hmac_sha1 key (big_endian_bytes 8 counter)))
      × (hotp C key counter totp_digits < 1_000_000)
unfolding hotp offset_of
hotp-within C key counter h = omega (arith, h)
