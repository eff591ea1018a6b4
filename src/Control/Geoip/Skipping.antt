-- ===== src/Control/Geoip/Skipping.antt =====
-- Skipping a value ends, however deeply the file nests it, and so does the decoding of a record.
use falx_v.Base.Bytes.{IsSome, either-IsSome, get_elem?-lt}
use falx_v.Base.{
  ℕ, zero, suc, ◌+◌, ◌≤◌, ◌<◌, ◌≡◌, refl, ◌⊎◌, inl, inr, Bool, true, false, not, ◌||◌, List, Option,
  none, some, length, arith, Option-cases, Bool-cases, ltb, ltb→lt, ◌==◌, if◌then◌else◌,
}
use falx_v.Control.Geoip.{IsoEntry}
use falx_v.Control.Geoip.Encoding.{
  Ctrl, mmdb_type_map, mmdb_type_array, is_sized, mmdb_ctrl, size_from, long_size, skip_loop,
  skip_element, skip_pair, skip_mmdb_value, fuel_for, is_type, Field, field_at, letters_at,
  search_fields, iso_hit, country_hit, decode_iso_in_map, decode_iso_code, no_iso,
}

-- The step goes forward, or stays.
abbrev pub Forward : ℕ → Option ℕ → Type 0
Forward pos o = (p : ℕ) × (o ≡ some p) × (pos ≤ p)

-- A control that has a type has taken a byte.
abbrev Taken : Ctrl → Type 0
Taken c = (c.0 ≡ none) ⊎ (1 ≤ c.2)

mmdb_ctrl-Taken : (bytes : List ℕ) (pos : ℕ) → Taken (mmdb_ctrl bytes pos)
unfolding mmdb_ctrl size_from long_size
mmdb_ctrl-Taken bytes pos = ground arith

skip_loop-Forward :
    (item : ℕ → Option ℕ) (n i pos : ℕ)
    → ((p : ℕ) → pos ≤ p → p < n → Forward p (item p))
    → Forward pos (skip_loop item n i pos)
unfolding skip_loop
skip_loop-Forward item n zero pos h = (pos, refl, omega arith)
skip_loop-Forward item n (suc i) pos h = elim (Bool-cases (ltb pos n)) [
  | inl e ↦
      let (p, ep, le) = h pos (omega arith) (ltb→lt pos n e) in
      let (q, eq, leq) = skip_loop-Forward item n i p (λ x a b. h x (omega arith) b) in
      (q, rw (e, ep, skip_loop) eq, omega arith)
  | inr e ↦ (pos, rw (e, skip_loop) refl, omega arith)
]

moved : (pos : ℕ) (c : Ctrl) → Taken c → (c.0 ≡ none) ⊎ (pos < pos + c.2)
moved pos c (inl e) = inl e
moved pos c (inr h) = inr (omega arith)

guarded :
    (b : Bool) (x o : Option IsoEntry)
    → (if b then some x else none) ≡ some o
    → (b ≡ true) × (x ≡ o)
guarded true x o e = (refl, ground arith)
guarded false x o e = absurd (ground arith)

module _ (bytes : List ℕ) where
  skip_element-Forward :
      (skip : ℕ → Option ℕ → ℕ → Option ℕ) (pos : ℕ)
      → ((p : ℕ) (t : Option ℕ) (size : ℕ)
          → pos ≤ p
          → (t ≡ none) ⊎ (pos < p)
          → Forward p (skip p t size))
      → Forward pos (skip_element bytes skip pos)
  unfolding skip_element
  skip_element-Forward skip pos h =
      let (t, size, adv) = mmdb_ctrl bytes pos in
      let (p, e, le) : Forward (pos + adv) (skip (pos + adv) t size) =
        h (pos + adv) t size (omega arith)
          (moved pos (mmdb_ctrl bytes pos) (mmdb_ctrl-Taken bytes pos)) in
      (p, e, omega arith)

  skip_pair-Forward :
      (skip : ℕ → Option ℕ → ℕ → Option ℕ) (pos : ℕ)
      → ((p : ℕ) (t : Option ℕ) (size : ℕ)
          → pos ≤ p
          → (t ≡ none) ⊎ (pos < p)
          → Forward p (skip p t size))
      → Forward pos (skip_pair bytes skip pos)
  unfolding skip_pair
  skip_pair-Forward skip pos h =
      let (_, klen, kadv) = mmdb_ctrl bytes pos in
      let (p, e, le) : Forward (pos + (kadv + klen))
          (skip_element bytes skip (pos + (kadv + klen))) =
        skip_element-Forward skip (pos + (kadv + klen))
          (λ p t size a b. h p t size (omega arith) (ground (arith, b))) in
      (p, e, omega arith)

  -- The fuel is for the bytes that are left, and two more.
  skip_mmdb_value-Forward :
      (fuel pos : ℕ) (t : Option ℕ) (size : ℕ)
      → (t ≡ none) ⊎ (length bytes + 1 < fuel + pos)
      → 1 ≤ fuel
      → Forward pos (skip_mmdb_value fuel bytes pos t size)
  unfolding skip_mmdb_value
  skip_mmdb_value-Forward zero pos t size d l = absurd (omega arith)
  skip_mmdb_value-Forward (suc fuel) pos none size d l = (pos, refl, omega arith)
  skip_mmdb_value-Forward (suc fuel) pos (some t) size (inl d) l = absurd (ground arith)
  skip_mmdb_value-Forward (suc fuel) pos (some t) size (inr d) l =
      let skip : ℕ → Option ℕ → ℕ → Option ℕ = skip_mmdb_value fuel bytes in
      let next : (q p : ℕ) (t' : Option ℕ) (size' : ℕ)
          → pos ≤ q
          → q < length bytes
          → q ≤ p
          → (t' ≡ none) ⊎ (q < p)
          → Forward p (skip p t' size') =
        λ q p t' size' a b c x.
          skip_mmdb_value-Forward fuel p t' size' (ground (arith, x)) (omega arith) in
      elim (Bool-cases (is_sized t)) [
        | inl e ↦ (pos + size, rw (e, skip_mmdb_value) refl, omega arith)
        | inr e ↦ elim (Bool-cases (t == mmdb_type_map)) [
          | inl m ↦
              rw (e, m, skip_mmdb_value)
                (skip_loop-Forward (skip_pair bytes skip) (length bytes) size pos
                  (λ q a b. skip_pair-Forward skip q (λ p t' size' c x. next q p t' size' a b c x)))
          | inr m ↦ elim (Bool-cases (t == mmdb_type_array)) [
            | inl y ↦
                rw (e, m, y, skip_mmdb_value)
                  (skip_loop-Forward (skip_element bytes skip) (length bytes) size pos (λ q a b.
                    skip_element-Forward skip q (λ p t' size' c x. next q p t' size' a b c x)))
            | inr y ↦ (pos, rw (e, m, y, skip_mmdb_value) refl, omega arith)
          ]
        ]
      ]

  letters_at-le : (pos : ℕ) → pos + 2 ≤ length bytes → IsSome (letters_at bytes pos)
  unfolding letters_at
  letters_at-le pos h =
      let (a, ea) = get_elem?-lt bytes pos (omega arith) in
      let (b, eb) = get_elem?-lt bytes (pos + 1) (omega arith) in
      ((a, b), rw (ea, eb, letters_at) refl)

  search_fields-IsSome :
      (hit : Field → Option (Option IsoEntry))
      → ((f : Field) (o : Option IsoEntry) → hit f ≡ some o → IsSome o)
      → (i pos : ℕ) → IsSome (search_fields bytes hit i pos)
  unfolding search_fields
  search_fields-IsSome hit h zero pos = (no_iso, refl)
  search_fields-IsSome hit h (suc i) pos = elim (Bool-cases (ltb pos (length bytes))) [
    | inr e ↦ rw (e, search_fields) (no_iso, refl)
    | inl e ↦ elim (Option-cases (field_at bytes pos)) [
      | inl n ↦ rw (e, n, search_fields) (no_iso, refl)
      | inr (f, n) ↦ elim (Option-cases (hit f)) [
        | inr (o, k) ↦ rw (e, n, k, search_fields) (h f o k)
        | inl k ↦
            let (p, s, _) =
              skip_mmdb_value-Forward (fuel_for bytes) f.at f.dtype f.size (inr (omega arith))
                (omega arith) in
            rw (e, n, k, s, search_fields) (search_fields-IsSome hit h i p)
      ]
    ]
  ]

  iso_hit-IsSome : (f : Field) (o : Option IsoEntry) → iso_hit bytes f ≡ some o → IsSome o
  unfolding iso_hit
  iso_hit-IsSome f o e =
      let (t, same) = guarded _ (letters_at bytes f.at) o e in
      let le : f.at + 2 ≤ length bytes = ground arith in rw (← same) (letters_at-le f.at le)

  decode_iso_in_map-IsSome : (pos n : ℕ) → IsSome (decode_iso_in_map bytes pos n)
  unfolding decode_iso_in_map
  decode_iso_in_map-IsSome pos n = search_fields-IsSome (iso_hit bytes) iso_hit-IsSome _ pos

  country_hit-IsSome : (f : Field) (o : Option IsoEntry) → country_hit bytes f ≡ some o → IsSome o
  unfolding country_hit
  country_hit-IsSome f o e =
      let (_, same) = guarded _ (decode_iso_in_map bytes f.at f.size) o e in
      rw (← same) (decode_iso_in_map-IsSome f.at f.size)

  -- Whatever the file holds, the decoding of a record ends and reads inside the file.
  pub decode_iso_code-IsSome : (pos : ℕ) → IsSome (decode_iso_code bytes pos)
  unfolding decode_iso_code
  decode_iso_code-IsSome pos =
      let (dtype, map_size, adv) = mmdb_ctrl bytes pos in
      either-IsSome (not (is_type dtype mmdb_type_map) || adv == 0) no_iso _
        (search_fields-IsSome (country_hit bytes) country_hit-IsSome map_size (pos + adv))
