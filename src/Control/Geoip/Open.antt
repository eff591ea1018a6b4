-- ===== src/Control/Geoip/Open.antt =====
-- Opening a database, control-plane/control/failsafe.go: its metadata, and the checks of the sizes
-- that it claims. The search for the last separator is the library's.
use falx_v.Base.Bytes.{get_elem?}
use falx_v.Base.{
  ℕ, zero, suc, ◌+◌, ◌-◌, ◌*◌, ◌/◌, ◌%◌, ◌^◌, Bool, true, false, not, ◌||◌, List, [], ◌∷◌, Option,
  none, some, ltb, leb, ◌==◌, if◌then◌else◌, length,
}
use falx_v.Control.Geoip.{max_mmdb_nodes, GeoIpReader}
use falx_v.Control.Geoip.Encoding.{mmdb_type_map, is_type, mmdb_ctrl, same_bytes, Field, field_at}
use falx_v.Control.Geoip.Table.{no_table, build_iso_table}

pub record MmdbMeta : Type 0 where
  pub node_count : ℕ
  pub record_size : ℕ
  pub ip_version : ℕ

pub data OpenError : Type 0 where
  file_too_small no_separator no_metadata not_a_map bad_key : OpenError
  no_node_count no_record_size bad_ip_version bad_record_size : OpenError
  too_many_nodes base_behind_file base_overflow : OpenError

pub data Result (A : Type 0) : Type 0 where
  ok : A → Result A
  error : OpenError → Result A

abbrev pub mmdb_meta_sep : List ℕ
mmdb_meta_sep = 0xAB ∷ 0xCD ∷ 0xEF ∷ 77 ∷ 97 ∷ 120 ∷ 77 ∷ 105 ∷ 110 ∷ 100 ∷ 46 ∷ 99 ∷ 111 ∷ 109 ∷ []

-- The keys that are read, in ASCII.
abbrev pub key_node_count : List ℕ
key_node_count = 110 ∷ 111 ∷ 100 ∷ 101 ∷ 95 ∷ 99 ∷ 111 ∷ 117 ∷ 110 ∷ 116 ∷ []

abbrev pub key_record_size : List ℕ
key_record_size = 114 ∷ 101 ∷ 99 ∷ 111 ∷ 114 ∷ 100 ∷ 95 ∷ 115 ∷ 105 ∷ 122 ∷ 101 ∷ []

abbrev pub key_ip_version : List ℕ
key_ip_version = 105 ∷ 112 ∷ 95 ∷ 118 ∷ 101 ∷ 114 ∷ 115 ∷ 105 ∷ 111 ∷ 110 ∷ []

-- As many of the bytes as the file has, in a uint64.
unfoldable pub read_big_endian_n : List ℕ → ℕ → ℕ → ℕ → ℕ
read_big_endian_n bytes pos zero v = v
read_big_endian_n bytes pos (suc n) v = elim (get_elem? bytes pos) [
  | none ↦ v
  | some b ↦ read_big_endian_n bytes (pos + 1) n ((v * 2 ^ 8 + b) % 2 ^ 64)
]

-- uint32 of such a number.
abbrev number_at : List ℕ → Field → ℕ
number_at bytes f = read_big_endian_n bytes f.at f.size 0 % 2 ^ 32

unfoldable pub is_small_int : Option ℕ → Bool
is_small_int t = is_type t 6 || is_type t 5

unfoldable pub take_field : List ℕ → Field → MmdbMeta → MmdbMeta
take_field bytes f meta =
    let n = number_at bytes f in
    if not (is_small_int f.dtype)
    then meta
    else if same_bytes f.key key_node_count
    then record meta { node_count = n }
    else if same_bytes f.key key_record_size
    then record meta { record_size = n }
    else if same_bytes f.key key_ip_version
    then record meta { ip_version = n }
    else meta

-- The loop over the metadata's fields. Every value is passed over by its size.
unfoldable pub meta_fields : List ℕ → ℕ → ℕ → MmdbMeta → Result MmdbMeta
meta_fields bytes zero pos meta = ok meta
meta_fields bytes (suc i) pos meta = elim (ltb pos (length bytes)) [
  | false ↦ ok meta
  | true ↦ elim (field_at bytes pos) [
    | none ↦ error bad_key
    | some f ↦ meta_fields bytes i (f.at + f.size) (take_field bytes f meta)
  ]
]

unfoldable pub checked_meta : Result MmdbMeta → Result MmdbMeta
checked_meta (error e) = error e
checked_meta (ok meta) =
    if meta.node_count == 0
    then error no_node_count
    else if meta.record_size == 0
    then error no_record_size
    else ok meta

unfoldable pub decode_meta_record : List ℕ → ℕ → Result MmdbMeta
decode_meta_record bytes pos =
    let (dtype, map_size, adv) = mmdb_ctrl bytes pos in
    let fields =
      meta_fields bytes map_size (pos + adv)
        (record { node_count = 0; record_size = 0; ip_version = 0 }) in
    if is_type dtype mmdb_type_map then checked_meta fields else error not_a_map

-- The reader before its table.
unfoldable pub sized : List ℕ → MmdbMeta → Result GeoIpReader
sized raw meta =
    let bytes_per_node = (meta.record_size * 2 + 7) / 8 in
    let base = meta.node_count * bytes_per_node + 16 in
    if not (meta.ip_version == 4 || meta.ip_version == 6)
    then error bad_ip_version
    else if not (meta.record_size == 24 || meta.record_size == 28 || meta.record_size == 32)
    then error bad_record_size
    else if ltb max_mmdb_nodes meta.node_count
    then error too_many_nodes
    else if ltb (length raw) base
    then error base_behind_file
    else if ltb (2 ^ 32 - 1) base
    then error base_overflow
    else ok (record {
      raw = raw;
      node_count = meta.node_count;
      record_size = meta.record_size;
      bytes_per_node = bytes_per_node;
      data_base = base;
      iso_table = no_table;
    })

unfoldable pub with_table : Result GeoIpReader → Option (Result GeoIpReader)
with_table (error e) = some (error e)
with_table (ok r) = elim (build_iso_table r) [ none ↦ none | some r' ↦ some (ok r') ]

unfoldable pub parsed : List ℕ → Result MmdbMeta → Result GeoIpReader
parsed raw (error e) = error e
parsed raw (ok meta) = sized raw meta

module _ (last_index : List ℕ → List ℕ → Option ℕ) where
  unfoldable pub parse_meta : List ℕ → Result MmdbMeta
  parse_meta raw = elim (last_index raw mmdb_meta_sep) [
    | none ↦ error no_separator
    | some idx ↦
        let start = idx + length mmdb_meta_sep in
        if leb (length raw) start then error no_metadata else decode_meta_record raw start
  ]

  -- The outer `none` is a lack of fuel or a read outside of the file.
  unfoldable pub open_geoip : List ℕ → Option (Result GeoIpReader)
  open_geoip raw =
      if ltb (length raw) (length mmdb_meta_sep + 1)
      then some (error file_too_small)
      else with_table (parsed raw (parse_meta raw))
