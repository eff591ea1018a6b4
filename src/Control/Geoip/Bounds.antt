-- ===== src/Control/Geoip/Bounds.antt =====
-- The reads of a tree whose sizes were checked stay inside the file.
use falx_v.Base.Bytes.{IsSome, get_elem?-lt, big_endian-le, either-IsSome}
use falx_v.Base.{
  ℕ, zero, suc, ◌+◌, ◌*◌, ◌/◌, ◌%◌, ◌^◌, ◌≤◌, ◌≡◌, refl, ◌⊎◌, inl, inr, Bool, true, false, List,
  Option, length, arith, Bool-cases, ltb, leb, ◌==◌, if◌then◌else◌,
}
use falx_v.Control.Geoip.{
  max_mmdb_nodes, GeoIpReader, plus, record_at, read_record, traverse, traverse_tree, entry_of,
  lookup_ipv4,
}
use falx_v.Control.Geoip.Open.{ok, MmdbMeta, sized}

-- The widths of the records, with the bytes of a node.
abbrev pub Width : ℕ → ℕ → Type 0
Width record_size bytes_per_node =
    ((record_size ≡ 24) × (bytes_per_node ≡ 6))
    ⊎ ((record_size ≡ 28) × (bytes_per_node ≡ 7))
    ⊎ ((record_size ≡ 32) × (bytes_per_node ≡ 8))

-- The sizes that opening has checked.
pub record IsValid (r : GeoIpReader) : Type 0 where
  pub width : Width r.record_size r.bytes_per_node
  pub few : r.node_count ≤ max_mmdb_nodes
  pub base : r.data_base ≡ r.node_count * r.bytes_per_node + 16
  pub inside : r.data_base ≤ length r.raw

plus-IsSome : (n : ℕ) (o : Option ℕ) → IsSome o → IsSome (plus n o)
plus-IsSome n o (v, e) = rw e (n + v, refl)

side-le :
    (b : Bool) (base off width total : ℕ)
    → base + off + width ≤ total
    → (if b then base else base + off) + width ≤ total
side-le true base off width total h = omega arith
side-le false base off width total h = omega arith

record_at-le :
    (r : GeoIpReader) (base direction : ℕ)
    → Width r.record_size r.bytes_per_node
    → base + r.bytes_per_node ≤ length r.raw
    → IsSome (record_at r base direction)
unfolding record_at
record_at-le r base direction (inl (e, f)) h =
    rw (e, record_at)
      (big_endian-le r.raw _ 3 0 (side-le (direction == 0) base 3 3 (length r.raw) (omega arith)))
record_at-le r base direction (inr (inl (e, f))) h =
    let (mid, em) = get_elem?-lt r.raw (base + 3) (omega arith) in
    rw (e, em, record_at)
      (plus-IsSome _ _ (
        big_endian-le r.raw (if direction == 0 then base else base + 4) 3 0
          (side-le (direction == 0) base 4 3 (length r.raw) (omega arith))))
record_at-le r base direction (inr (inr (e, f))) h =
    rw (e, record_at)
      (big_endian-le r.raw _ 4 0 (side-le (direction == 0) base 4 4 (length r.raw) (omega arith)))

pub read_record-IsSome :
    (r : GeoIpReader) (node direction : ℕ) → IsValid r → IsSome (read_record r node direction)
unfolding read_record
read_record-IsSome r node direction v =
    elim (Bool-cases (ltb r.data_base (node * r.bytes_per_node + r.bytes_per_node))) [
      | inl e ↦ rw (e, read_record) (r.node_count, refl)
      | inr e ↦
          rw (e, read_record)
            (record_at-le r (node * r.bytes_per_node) direction v.width (ground (arith, v.inside)))
    ]

traverse-IsSome : (r : GeoIpReader) (ip bit node : ℕ) → IsValid r → IsSome (traverse r ip bit node)
unfolding traverse
traverse-IsSome r ip zero node v = (node, refl)
traverse-IsSome r ip (suc bit) node v =
    let (next, e) = read_record-IsSome r node ((ip / 2 ^ bit) % 2) v in
    rw (e, traverse)
      (either-IsSome (leb r.node_count next) next _ (traverse-IsSome r ip bit next v))

pub lookup_ipv4-IsSome : (r : GeoIpReader) (ip : ℕ) → IsValid r → IsSome (lookup_ipv4 r ip)
unfolding lookup_ipv4 traverse_tree
lookup_ipv4-IsSome r ip v =
    let (leaf, e) = traverse-IsSome r ip 32 0 v in rw (e, lookup_ipv4) (entry_of r leaf, refl)

pub sized-IsValid :
    (raw : List ℕ) (meta : MmdbMeta) (r : GeoIpReader)
    → sized raw meta ≡ ok r
    → IsValid r × (r.node_count ≡ meta.node_count)
unfolding sized
sized-IsValid raw meta r h = ground arith
