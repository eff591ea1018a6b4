-- ===== src/Tests/Geoip.antt =====
-- A database of one node, whose left half is one country.
use falx_v.Base.Bytes.{IsSome, big_endian, get_elem?}
use falx_v.Base.{ℕ, ◌≡◌, refl, List, [], ◌∷◌, ◌++◌, Option, some, arith}
use falx_v.Control.Geoip.{GeoIpReader, lookup_ipv4, record_at, read_record, traverse, traverse_tree}
use falx_v.Control.Geoip.Encoding.{
  country, iso_code, mmdb_ctrl, field_at, same_bytes, country_hit, decode_iso_code,
  decode_iso_in_map, is_sized, iso_hit, letters_at, long_size, search_fields, size_from,
  skip_element, skip_loop, skip_mmdb_value, skip_pair,
}
use falx_v.Control.Geoip.Table.{
  zeroed, build_iso_table, explore, visit, add_child, fill, has, mark, max_index, put, set_entry,
  table_of,
}
use falx_v.Control.Geoip.Open.{
  ok, mmdb_meta_sep, key_node_count, key_record_size, key_ip_version, with_table, parsed,
  parse_meta, decode_meta_record, checked_meta, meta_fields, take_field, is_small_int,
  read_big_endian_n, sized, open_geoip,
}
use falx_v.Control.Geoip.Lookup.{
  open_geoip-lookup_ipv4, open_geoip-IsSome, lookup_ipv4-decode_iso_code,
}

-- The tree, the separator of the data section, and the record of one country.
abbrev tree_and_data : List ℕ
tree_and_data =
    0
    ∷ 0
    ∷ 17
    ∷ 0
    ∷ 0
    ∷ 1
    ∷ 0
    ∷ 0
    ∷ 0
    ∷ 0
    ∷ 0
    ∷ 0
    ∷ 0
    ∷ 0
    ∷ 0
    ∷ 0
    ∷ 0
    ∷ 0
    ∷ 0
    ∷ 0
    ∷ 0
    ∷ 0
    ∷ 0xE1
    ∷ 0x47
    ∷ (country ++ 0xE1 ∷ 0x48 ∷ (iso_code ++ 0x42 ∷ 85 ∷ 83 ∷ []))

abbrev metadata : List ℕ
metadata =
    0xE3
    ∷ 0x4A
    ∷ (key_node_count
        ++ 0xC1
          ∷ 1
          ∷ 0x4B
          ∷ (key_record_size ++ 0xA1 ∷ 24 ∷ 0x4A ∷ (key_ip_version ++ 0xA1 ∷ 4 ∷ [])))

abbrev database : List ℕ
database = tree_and_data ++ (mmdb_meta_sep ++ metadata)

abbrev reader : GeoIpReader
reader = record {
  raw = database;
  node_count = 1;
  record_size = 24;
  bytes_per_node = 6;
  data_base = 22;
  iso_table = set_entry (zeroed 1) 0 (85, 83);
}

-- Where the separator of the metadata stands.
separator_at : List ℕ → List ℕ → Option ℕ
separator_at raw sep = some 44

opened : open_geoip separator_at database ≡ some (ok reader)
unfolding separator_at with_table parsed parse_meta decode_meta_record checked_meta meta_fields
    take_field is_small_int read_big_endian_n sized open_geoip build_iso_table explore visit
    add_child fill has mark max_index put set_entry table_of mmdb_ctrl field_at same_bytes
    country_hit decode_iso_code decode_iso_in_map is_sized iso_hit letters_at long_size
    search_fields size_from skip_element skip_loop skip_mmdb_value skip_pair get_elem? big_endian
    record_at read_record traverse traverse_tree
opened = refl

open_geoip-IsSome_example : IsSome (open_geoip separator_at database)
open_geoip-IsSome_example = open_geoip-IsSome separator_at database

to_leaf : traverse_tree reader 0x01020304 ≡ some 17
unfolding traverse_tree traverse read_record record_at big_endian get_elem?
to_leaf = refl

code : decode_iso_code database 22 ≡ some (85, 83)
unfolding mmdb_ctrl field_at same_bytes country_hit decode_iso_code decode_iso_in_map is_sized
    iso_hit letters_at long_size search_fields size_from skip_element skip_loop skip_mmdb_value
    skip_pair big_endian get_elem?
code = refl

open_geoip-lookup_ipv4_example : IsSome (lookup_ipv4 reader 0x01020304)
open_geoip-lookup_ipv4_example =
    open_geoip-lookup_ipv4 separator_at database reader 0x01020304 opened

lookup_ipv4-decode_iso_code_example : lookup_ipv4 reader 0x01020304 ≡ some (some (85, 83))
lookup_ipv4-decode_iso_code_example =
    lookup_ipv4-decode_iso_code separator_at database reader 0x01020304 17 85 83 opened to_leaf
      (omega arith) (omega arith) code
