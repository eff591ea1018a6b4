-- ===== src/Control/Geoip/Encoding.antt =====
-- The data section's encoding, control-plane/control/failsafe.go: control bytes, the records of
-- the countries, and the metadata. A type is none for the code's -1.
use falx_v.Base.Bytes.{big_endian, get_elem?}
use falx_v.Base.{
  ℕ, zero, suc, ◌+◌, ◌/◌, ◌%◌, ◌^◌, Bool, true, false, not, ◌&&◌, ◌||◌, List, [], ◌∷◌, Option, none,
  some, ltb, leb, ◌==◌, if◌then◌else◌, length, take, drop, min,
}
use falx_v.Control.Geoip.{max_mmdb_map_entries, IsoEntry}

abbrev pub mmdb_type_utf8 : ℕ
mmdb_type_utf8 = 2

abbrev pub mmdb_type_map : ℕ
mmdb_type_map = 7

abbrev pub mmdb_type_array : ℕ
mmdb_type_array = 11

-- Pointers, texts, doubles, bytes, the integers and floats: types whose size is a count of bytes.
unfoldable pub is_sized : ℕ → Bool
is_sized t = (ltb 0 t && leb t 10 && not (t == mmdb_type_map)) || t == 15

-- The type, the size, and the number of bytes that they took.
abbrev pub Ctrl : Type 0
Ctrl = Option ℕ × ℕ × ℕ

abbrev pub no_ctrl : Ctrl
no_ctrl = (none, 0, 0)

-- A size of so many bytes more, above its base.
unfoldable pub long_size : List ℕ → ℕ → ℕ → ℕ → ℕ → ℕ → Ctrl
long_size bytes pos dtype adv width base = elim (big_endian bytes pos width 0) [
  | none ↦ no_ctrl
  | some n ↦ (some dtype, n + base, adv + width)
]

unfoldable pub size_from : List ℕ → ℕ → ℕ → ℕ → ℕ → Ctrl
size_from bytes pos dtype adv raw_sz =
    if ltb raw_sz 29
    then (some dtype, raw_sz, adv)
    else if raw_sz == 29
    then long_size bytes pos dtype adv 1 29
    else if raw_sz == 30
    then long_size bytes pos dtype adv 2 285
    else long_size bytes pos dtype adv 3 65_821

unfoldable pub mmdb_ctrl : List ℕ → ℕ → Ctrl
unfolding size_from long_size
mmdb_ctrl bytes pos = elim (get_elem? bytes pos) [
  | none ↦ no_ctrl
  | some b ↦
      if b / 2 ^ 5 == 0
      then elim (get_elem? bytes (pos + 1)) [
        | none ↦ no_ctrl
        | some t ↦ size_from bytes (pos + 2) (t + 7) 2 (b % 2 ^ 5)
      ]
      else size_from bytes (pos + 1) (b / 2 ^ 5) 1 (b % 2 ^ 5)
]

-- The loop over the items of a nested value, while the position is inside the file.
unfoldable pub skip_loop : (ℕ → Option ℕ) → ℕ → ℕ → ℕ → Option ℕ
skip_loop item n zero pos = some pos
skip_loop item n (suc i) pos = elim (ltb pos n) [
  | false ↦ some pos
  | true ↦ elim (item pos) [ none ↦ none | some pos' ↦ skip_loop item n i pos' ]
]

-- One item of an array, and of a map, whose value is skipped by the function given.
unfoldable pub skip_element : List ℕ → (ℕ → Option ℕ → ℕ → Option ℕ) → ℕ → Option ℕ
skip_element bytes skip pos =
    let (vdtype, vsize, vadv) = mmdb_ctrl bytes pos in skip (pos + vadv) vdtype vsize

unfoldable pub skip_pair : List ℕ → (ℕ → Option ℕ → ℕ → Option ℕ) → ℕ → Option ℕ
skip_pair bytes skip pos =
    let (_, klen, kadv) = mmdb_ctrl bytes pos in skip_element bytes skip (pos + (kadv + klen))

-- The position behind a value. The recursion on nested values is on fuel; no fuel is `none`.
unfoldable pub skip_mmdb_value : ℕ → List ℕ → ℕ → Option ℕ → ℕ → Option ℕ
skip_mmdb_value zero bytes pos dtype size = none
skip_mmdb_value (suc fuel) bytes pos none size = some pos
skip_mmdb_value (suc fuel) bytes pos (some t) size =
    let skip = skip_mmdb_value fuel bytes in
    if is_sized t
    then some (pos + size)
    else if t == mmdb_type_map
    then skip_loop (skip_pair bytes skip) (length bytes) size pos
    else if t == mmdb_type_array
    then skip_loop (skip_element bytes skip) (length bytes) size pos
    else some pos

abbrev pub fuel_for : List ℕ → ℕ
fuel_for bytes = suc (suc (length bytes))

unfoldable pub same_bytes : List ℕ → List ℕ → Bool
same_bytes [] [] = true
same_bytes [] (y ∷ ys) = false
same_bytes (x ∷ xs) [] = false
same_bytes (x ∷ xs) (y ∷ ys) = x == y && same_bytes xs ys

-- The bytes of the keys, in ASCII.
abbrev pub country : List ℕ
country = 99 ∷ 111 ∷ 117 ∷ 110 ∷ 116 ∷ 114 ∷ 121 ∷ []

abbrev pub iso_code : List ℕ
iso_code = 105 ∷ 115 ∷ 111 ∷ 95 ∷ 99 ∷ 111 ∷ 100 ∷ 101 ∷ []

abbrev pub is_type : Option ℕ → ℕ → Bool
is_type none t = false
is_type (some s) t = s == t

-- What stands at a map's key: the key, its value's type and size, and the value's position. The
-- key's type must be a text, inside the file.
pub record Field : Type 0 where
  pub key : List ℕ
  pub dtype : Option ℕ
  pub size : ℕ
  pub at : ℕ

unfoldable pub field_at : List ℕ → ℕ → Option Field
field_at bytes pos =
    let (kdtype, klen, kadv) = mmdb_ctrl bytes pos in
    let start = pos + kadv in
    let (vdtype, vsize, vadv) = mmdb_ctrl bytes (start + klen) in
    if not (is_type kdtype mmdb_type_utf8) || ltb (length bytes) (start + klen)
    then none
    else some (record {
      key = take klen (drop start bytes);
      dtype = vdtype;
      size = vsize;
      at = start + klen + vadv;
    })

abbrev pub no_iso : IsoEntry
no_iso = (0, 0)

unfoldable pub letters_at : List ℕ → ℕ → Option IsoEntry
letters_at bytes pos = elim (get_elem? bytes pos) [
  | none ↦ none
  | some a ↦ elim (get_elem? bytes (pos + 1)) [ none ↦ none | some b ↦ some (a, b) ]
]

-- The loop over the fields of a map: `hit` says what a field ends the search with, if it does. A
-- result of `none` is a lack of fuel or a read outside of the file.
unfoldable pub search_fields : List ℕ → (Field → Option (Option IsoEntry)) → ℕ → ℕ → Option IsoEntry
search_fields bytes hit zero pos = some no_iso
search_fields bytes hit (suc i) pos = elim (ltb pos (length bytes)) [
  | false ↦ some no_iso
  | true ↦ elim (field_at bytes pos) [
    | none ↦ some no_iso
    | some f ↦ elim (hit f) [
      | some found ↦ found
      | none ↦ elim (skip_mmdb_value (fuel_for bytes) bytes f.at f.dtype f.size) [
        | none ↦ none
        | some pos' ↦ search_fields bytes hit i pos'
      ]
    ]
  ]
]

-- The code's two letters end the search.
unfoldable pub iso_hit : List ℕ → Field → Option (Option IsoEntry)
iso_hit bytes f =
    if same_bytes f.key iso_code
      && is_type f.dtype mmdb_type_utf8
      && leb 2 f.size
      && leb (f.at + 2) (length bytes)
    then some (letters_at bytes f.at)
    else none

unfoldable pub decode_iso_in_map : List ℕ → ℕ → ℕ → Option IsoEntry
decode_iso_in_map bytes pos entry_count =
    search_fields bytes (iso_hit bytes) (min entry_count max_mmdb_map_entries) pos

-- The country's map ends the search.
unfoldable pub country_hit : List ℕ → Field → Option (Option IsoEntry)
country_hit bytes f =
    if same_bytes f.key country && is_type f.dtype mmdb_type_map
    then some (decode_iso_in_map bytes f.at f.size)
    else none

unfoldable pub decode_iso_code : List ℕ → ℕ → Option IsoEntry
decode_iso_code bytes pos =
    let (dtype, map_size, adv) = mmdb_ctrl bytes pos in
    if not (is_type dtype mmdb_type_map) || adv == 0
    then some no_iso
    else search_fields bytes (country_hit bytes) map_size (pos + adv)
