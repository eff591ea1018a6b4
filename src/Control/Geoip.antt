-- ===== src/Control/Geoip.antt =====
-- The country lookup in a MaxMind database, control-plane/control/failsafe.go. The file is the list
-- of its bytes, and a read outside of it is `none`, where the code would fault or panic. The memory
-- mapping itself is left out.
pub mod Encoding
pub mod Table
pub mod Open
pub mod Bounds
pub mod Skipping
pub mod Search
pub mod Closure
pub mod Filled
pub mod Lookup
use falx_v.Base.Bytes.{get_elem?, big_endian}
use falx_v.Base.{
  ℕ, zero, suc, ◌+◌, ◌-◌, ◌*◌, ◌/◌, ◌%◌, ◌^◌, Bool, true, false, not, ◌&&◌, List, [], ◌∷◌, Option,
  none, some, ltb, leb, ◌==◌, if◌then◌else◌,
}

abbrev pub max_mmdb_nodes : ℕ
max_mmdb_nodes = 2 ^ 28

abbrev pub max_mmdb_map_entries : ℕ
max_mmdb_map_entries = 64

-- Two letters of a country.
abbrev pub IsoEntry : Type 0
IsoEntry = ℕ × ℕ

-- A slice of entries, as its length and its contents.
pub record IsoTable : Type 0 where
  pub size : ℕ
  pub entry : ℕ → IsoEntry

pub record GeoIpReader : Type 0 where
  pub raw : List ℕ
  pub node_count : ℕ
  pub record_size : ℕ
  pub bytes_per_node : ℕ
  pub data_base : ℕ
  pub iso_table : IsoTable

-- Adds to a number that was read.
abbrev pub plus : ℕ → Option ℕ → Option ℕ
plus n none = none
plus n (some m) = some (n + m)

-- The four bits that the fourth byte of a node of 28-bit records gives to its sides.
nibble : ℕ → ℕ → ℕ
nibble zero mid = (mid / 2 ^ 4) * 2 ^ 24
nibble (suc _) mid = (mid % 2 ^ 4) * 2 ^ 24

-- The record of one side of the node at a byte offset.
unfoldable pub record_at : GeoIpReader → ℕ → ℕ → Option ℕ
unfolding nibble
record_at r base direction =
    let side : ℕ → ℕ = λ width. if direction == 0 then base else base + width in
    if r.record_size == 24
    then big_endian r.raw (side 3) 3 0
    else if r.record_size == 28
    then elim (get_elem? r.raw (base + 3)) [
      | none ↦ none
      | some mid ↦ plus (nibble direction mid) (big_endian r.raw (side 4) 3 0)
    ]
    else if r.record_size == 32
    then big_endian r.raw (side 4) 4 0
    else some r.node_count

unfoldable pub read_record : GeoIpReader → ℕ → ℕ → Option ℕ
read_record r node direction =
    let base = node * r.bytes_per_node in
    if ltb r.data_base (base + r.bytes_per_node)
    then some r.node_count
    else record_at r base direction

-- The walk from a node along the bits below the given one.
unfoldable pub traverse : GeoIpReader → ℕ → ℕ → ℕ → Option ℕ
traverse r ip zero node = some node
traverse r ip (suc bit) node = elim (read_record r node ((ip / 2 ^ bit) % 2)) [
  | none ↦ none
  | some next ↦
      let deeper = traverse r ip bit next in if leb r.node_count next then some next else deeper
]

unfoldable pub traverse_tree : GeoIpReader → ℕ → Option ℕ
traverse_tree r ip = traverse r ip 32 0

-- The entry of a leaf, if it has one.
unfoldable pub entry_of : GeoIpReader → ℕ → Option IsoEntry
entry_of r leaf =
    let idx = leaf - r.node_count - 16 in
    let (a, b) = r.iso_table.entry idx in
    if leb leaf (r.node_count + 15)
    then none
    else if leb r.iso_table.size idx
    then none
    else if a == 0 && b == 0
    then none
    else some (a, b)

-- The outer `none` is a read outside of the file.
unfoldable pub lookup_ipv4 : GeoIpReader → ℕ → Option (Option IsoEntry)
lookup_ipv4 r ip = elim (traverse_tree r ip) [ none ↦ none | some leaf ↦ some (entry_of r leaf) ]
