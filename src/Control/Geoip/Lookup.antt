-- ===== src/Control/Geoip/Lookup.antt =====
-- What opening a database leads to: an end in any case, and lookups that give the code of the
-- record that the tree names.
use falx_v.Base.Bytes.{IsSome, either-IsSome}
use falx_v.Base.{
  ℕ, zero, suc, ◌+◌, ◌/◌, ◌%◌, ◌^◌, ◌≤◌, ◌<◌, ◌≡◌, refl, sym, ap, ◌∙◌, ◌⊎◌, inl, inr, true, ◌&&◌,
  List, [], ◌∷◌, Option, none, some, length, arith, Option-cases, ltb, leb, ◌==◌, if◌then◌else◌,
}
use mathlib.Core.Path.{subst}
use falx_v.Control.Geoip.{
  IsoEntry, IsoTable, GeoIpReader, read_record, record_at, traverse, traverse_tree, entry_of,
  lookup_ipv4,
}
use falx_v.Control.Geoip.Encoding.{mmdb_ctrl, decode_iso_code}
use falx_v.Control.Geoip.Table.{
  Search, has, explore, root, rounds_for, index_of, max_index, no_table, zeroed, table_of,
  build_iso_table,
}
use falx_v.Control.Geoip.Open.{
  meta_fields, OpenError, file_too_small, MmdbMeta, Result, ok, error, mmdb_meta_sep, parsed,
  parse_meta, decode_meta_record, checked_meta, with_table, open_geoip,
}
use falx_v.Control.Geoip.Bounds.{IsValid, sized-IsValid, lookup_ipv4-IsSome}
use falx_v.Control.Geoip.Search.{explore-root}
use falx_v.Control.Geoip.Filled.{fill-size, fill-IsSome, fill-entry, max_index-has}
use falx_v.Control.Geoip.Closure.{explore-traverse_tree}

Result-cases :
    {A : Type 0} (o : Result A) → ((e : OpenError) × (o ≡ error e)) ⊎ ((a : A) × (o ≡ ok a))
Result-cases (error e) = inl (e, refl)
Result-cases (ok a) = inr (a, refl)

table_of-IsSome : (r : GeoIpReader) (ls : List ℕ) → IsSome (table_of r ls)
unfolding table_of
table_of-IsSome r [] = (no_table, refl)
table_of-IsSome r (leaf ∷ ls) = fill-IsSome r (leaf ∷ ls) (zeroed (max_index r (leaf ∷ ls) + 1))

build_iso_table-IsSome :
    (r : GeoIpReader)
    → IsValid r
    → 0 < r.node_count
    → (s : Search) × (t : IsoTable) × (explore (rounds_for r.node_count) r root ≡ some s)
      × (table_of r s.leaves ≡ some t)
      × (build_iso_table r ≡ some (record r { iso_table = t }))
unfolding build_iso_table
build_iso_table-IsSome r v pos =
    let (s, e) = explore-root r v pos in
    let (t, f) = table_of-IsSome r s.leaves in (s, t, e, f, rw (e, f, build_iso_table) refl)

checked_meta-positive :
    (o : Result MmdbMeta) (meta : MmdbMeta) → checked_meta o ≡ ok meta → 0 < meta.node_count
unfolding checked_meta
checked_meta-positive (error x) meta e = absurd (ground arith)
checked_meta-positive (ok m) meta e = ground arith

abbrev tabled : GeoIpReader → IsoTable → GeoIpReader
tabled r t = record r { iso_table = t }

tabled-IsValid : (r : GeoIpReader) (t : IsoTable) → IsValid r → IsValid (tabled r t)
tabled-IsValid r t v = record { width = v.width; few = v.few; base = v.base; inside = v.inside }

read_record-tabled :
    (r : GeoIpReader) (t : IsoTable) (node direction : ℕ)
    → read_record (tabled r t) node direction ≡ read_record r node direction
unfolding read_record record_at
read_record-tabled r t node direction = refl

-- The walk does not read the table.
traverse-tabled :
    (r : GeoIpReader) (t : IsoTable) (ip bit node : ℕ)
    → traverse (tabled r t) ip bit node ≡ traverse r ip bit node
unfolding traverse
traverse-tabled r t ip zero node = refl
traverse-tabled r t ip (suc bit) node =
    let direction = (ip / 2 ^ bit) % 2 in
    let same = read_record-tabled r t node direction in
    elim (Option-cases (read_record r node direction)) [
      | inl e ↦ rw (same, e, traverse) refl
      | inr (next, e) ↦
          rw (same, e, traverse)
            (ap (λ o. if leb r.node_count next then some next else o)
              (traverse-tabled r t ip bit next))
    ]

table_of-entry :
    (r : GeoIpReader) (ls : List ℕ) (t : IsoTable) (leaf : ℕ) (iso : IsoEntry)
    → has leaf ls ≡ true
    → table_of r ls ≡ some t
    → decode_iso_code r.raw (r.data_base + index_of r leaf) ≡ some iso
    → r.data_base + index_of r leaf < length r.raw
    → (t.entry (index_of r leaf) ≡ iso) × (index_of r leaf < t.size)
unfolding table_of has
table_of-entry r [] t leaf iso m e d inside = absurd (ground arith)
table_of-entry r (l ∷ ls) t leaf iso m e d inside =
    let size = max_index r (l ∷ ls) + 1 in
    let small : index_of r leaf < size = omega (arith, max_index-has r (l ∷ ls) leaf m) in
    (
      fill-entry r (l ∷ ls) leaf iso (zeroed size) t m d inside small e,
      omega (arith, fill-size r (l ∷ ls) (zeroed size) t e, small),
    )

entry_of-tabled :
    (r : GeoIpReader) (leaf a b : ℕ)
    → r.node_count + 16 ≤ leaf
    → r.iso_table.entry (index_of r leaf) ≡ (a, b)
    → index_of r leaf < r.iso_table.size
    → entry_of r leaf ≡ (if a == 0 && b == 0 then none else some (a, b))
unfolding entry_of
entry_of-tabled r leaf a b le e small = ground arith

tabled-lookup :
    (r : GeoIpReader) (s : Search) (t : IsoTable) (ip leaf a b : ℕ)
    → 0 < r.node_count
    → explore (rounds_for r.node_count) r root ≡ some s
    → table_of r s.leaves ≡ some t
    → traverse_tree (tabled r t) ip ≡ some leaf
    → r.node_count + 16 ≤ leaf
    → r.data_base + index_of r leaf < length r.raw
    → decode_iso_code r.raw (r.data_base + index_of r leaf) ≡ some (a, b)
    → lookup_ipv4 (tabled r t) ip ≡ some (if a == 0 && b == 0 then none else some (a, b))
unfolding lookup_ipv4 traverse_tree
tabled-lookup r s t ip leaf a b pos es et tr le inside d =
    let found =
      explore-traverse_tree r (rounds_for r.node_count) s ip leaf pos es
        (sym (traverse-tabled r t ip 32 0) ∙ tr) le in
    let (x, small) = table_of-entry r s.leaves t leaf (a, b) found et d inside in
    rw (tr, lookup_ipv4) (ap some (entry_of-tabled (tabled r t) leaf a b le x small))

decode-positive :
    (raw : List ℕ) (pos : ℕ) (meta : MmdbMeta)
    → decode_meta_record raw pos ≡ ok meta
    → 0 < meta.node_count
unfolding decode_meta_record
decode-positive raw pos meta e =
    let (dtype, map_size, adv) = mmdb_ctrl raw pos in
    let fields =
      meta_fields raw map_size (pos + adv)
        (record { node_count = 0; record_size = 0; ip_version = 0 }) in
    checked_meta-positive fields meta (ground arith)

module _ (last_index : List ℕ → List ℕ → Option ℕ) where
  parse_meta-positive :
      (raw : List ℕ) (meta : MmdbMeta) → parse_meta last_index raw ≡ ok meta → 0 < meta.node_count
  unfolding parse_meta
  parse_meta-positive raw meta e = elim (Option-cases (last_index raw mmdb_meta_sep)) [
    | inl n ↦ absurd (ground arith)
    | inr (idx, n) ↦ decode-positive raw (idx + length mmdb_meta_sep) meta (ground arith)
  ]

  parsed-IsValid :
      (raw : List ℕ) (o : Result MmdbMeta) (r : GeoIpReader)
      → ((meta : MmdbMeta) → o ≡ ok meta → 0 < meta.node_count)
      → parsed raw o ≡ ok r
      → IsValid r × (0 < r.node_count)
  unfolding parsed
  parsed-IsValid raw (error x) r h e = absurd (ground arith)
  parsed-IsValid raw (ok meta) r h e =
      let (v, n) = sized-IsValid raw meta r e in (v, omega (arith, n, h meta refl))

  with_table-IsSome :
      (o : Result GeoIpReader)
      → ((r : GeoIpReader) → o ≡ ok r → IsValid r × (0 < r.node_count))
      → IsSome (with_table o)
  unfolding with_table
  with_table-IsSome (error x) h = (error x, refl)
  with_table-IsSome (ok r) h =
      let (v, pos) = h r refl in
      let (s, t, _, _, e) = build_iso_table-IsSome r v pos in
      rw (e, with_table) (ok (record r { iso_table = t }), refl)

  opened-IsValid :
      (raw : List ℕ) (r : GeoIpReader)
      → parsed raw (parse_meta last_index raw) ≡ ok r
      → IsValid r × (0 < r.node_count)
  opened-IsValid raw r e =
      parsed-IsValid raw (parse_meta last_index raw) r (λ meta m. parse_meta-positive raw meta m) e

  -- Whatever the bytes of a file are, opening it ends, with a reader or an error, and reads no byte
  -- outside of the file.
  pub open_geoip-IsSome : (raw : List ℕ) → IsSome (open_geoip last_index raw)
  unfolding open_geoip
  open_geoip-IsSome raw =
      either-IsSome (ltb (length raw) (length mmdb_meta_sep + 1)) (error file_too_small) _
        (with_table-IsSome (parsed raw (parse_meta last_index raw)) (λ r e. opened-IsValid raw r e))

  -- The reader before its table was built, for a reader that opening has returned.
  record Opened (raw : List ℕ) (r : GeoIpReader) : Type 0 where
    bare : GeoIpReader
    valid : IsValid bare
    positive : 0 < bare.node_count
    search : Search
    searched : explore (rounds_for bare.node_count) bare root ≡ some search
    table : IsoTable
    filled : table_of bare search.leaves ≡ some table
    whole : r ≡ record bare { iso_table = table }

  open_geoip-Opened :
      (raw : List ℕ) (r : GeoIpReader) → open_geoip last_index raw ≡ some (ok r) → Opened raw r
  unfolding open_geoip with_table
  open_geoip-Opened raw r e = elim (Result-cases (parsed raw (parse_meta last_index raw))) [
    | inl (x, n) ↦ absurd (ground arith)
    | inr (b, n) ↦
        let (v, pos) = opened-IsValid raw b n in
        let (s, t, es, et, eb) = build_iso_table-IsSome b v pos in
        record {
          bare = b;
          valid = v;
          positive = pos;
          search = s;
          searched = es;
          table = t;
          filled = et;
          whole = ground arith;
        }
  ]

  -- A lookup of any address in a database that was opened, whatever the bytes of its file are, ends
  -- and reads no byte outside of the file.
  pub open_geoip-lookup_ipv4 :
      (raw : List ℕ) (r : GeoIpReader) (ip : ℕ)
      → open_geoip last_index raw ≡ some (ok r)
      → IsSome (lookup_ipv4 r ip)
  open_geoip-lookup_ipv4 raw r ip e =
      let o = open_geoip-Opened raw r e in
      lookup_ipv4-IsSome r ip (subst IsValid (sym o.whole) (tabled-IsValid o.bare o.table o.valid))

  -- A lookup gives the code that is decoded from the record to which the tree leads the address, or
  -- nothing where that code is empty, for every record inside the file.
  pub lookup_ipv4-decode_iso_code :
      (raw : List ℕ) (r : GeoIpReader) (ip leaf a b : ℕ)
      → open_geoip last_index raw ≡ some (ok r)
      → traverse_tree r ip ≡ some leaf
      → r.node_count + 16 ≤ leaf
      → r.data_base + index_of r leaf < length r.raw
      → decode_iso_code r.raw (r.data_base + index_of r leaf) ≡ some (a, b)
      → lookup_ipv4 r ip ≡ some (if a == 0 && b == 0 then none else some (a, b))
  lookup_ipv4-decode_iso_code raw r ip leaf a b e t le inside d =
      let o = open_geoip-Opened raw r e in
      subst
        (λ x.
          traverse_tree x ip ≡ some leaf
          → x.node_count + 16 ≤ leaf
          → x.data_base + index_of x leaf < length x.raw
          → decode_iso_code x.raw (x.data_base + index_of x leaf) ≡ some (a, b)
          → lookup_ipv4 x ip ≡ some (if a == 0 && b == 0 then none else some (a, b)))
        (sym o.whole)
        (tabled-lookup o.bare o.search o.table ip leaf a b o.positive o.searched o.filled) t le
        inside d
