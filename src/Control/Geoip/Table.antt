-- ===== src/Control/Geoip/Table.antt =====
-- The table of country codes that opening a database builds, control-plane/control/failsafe.go: a
-- search of the tree with a stack, and one decoded record for each leaf. The sets of nodes and
-- leaves are a function and a list without repetitions.
use falx_v.Base.{
  ℕ, zero, suc, ◌+◌, ◌-◌, ◌*◌, Bool, true, false, List, [], ◌∷◌, Option, none, some, ltb, ◌==◌,
  if◌then◌else◌, length, max,
}
use falx_v.Control.Geoip.{IsoEntry, IsoTable, GeoIpReader, read_record}
use falx_v.Control.Geoip.Encoding.{no_iso, decode_iso_code}

pub record Search : Type 0 where
  pub visited : ℕ → Bool
  pub leaves : List ℕ
  pub stack : List ℕ

unfoldable pub has : ℕ → List ℕ → Bool
has x [] = false
has x (y ∷ ys) = if x == y then true else has x ys

unfoldable pub mark : (ℕ → Bool) → ℕ → ℕ → Bool
mark v node n = if n == node then true else v n

-- A record of a node: data, or the end of the search in this direction, or another node.
unfoldable pub add_child : ℕ → ℕ → Search → Search
add_child node_count child s =
    if ltb child node_count
    then record s { stack = child ∷ s.stack }
    else if ltb child (node_count + 16)
    then s
    else if has child s.leaves
    then s
    else record s { leaves = child ∷ s.leaves }

-- The node on top of the stack, with the stack below it.
unfoldable pub visit : GeoIpReader → ℕ → List ℕ → Search → Option Search
visit r node rest s =
    let below = record s { stack = rest } in
    let marked = record below { visited = mark s.visited node } in
    elim (s.visited node) [
      | true ↦ some below
      | false ↦ elim (read_record r node 0) [
        | none ↦ none
        | some left ↦ elim (read_record r node 1) [
          | none ↦ none
          | some right ↦ some (add_child r.node_count right (add_child r.node_count left marked))
        ]
      ]
    ]

-- A result of `none` is a lack of fuel or a read outside of the file.
unfoldable pub explore : ℕ → GeoIpReader → Search → Option Search
explore zero r s = elim s.stack [ [] ↦ some s | _ ∷ _ ↦ none ]
explore (suc fuel) r s = elim s.stack [
  | [] ↦ some s
  | node ∷ rest ↦ elim (visit r node rest s) [ none ↦ none | some s' ↦ explore fuel r s' ]
]

-- The search from the root.
abbrev pub root : Search
root = record { visited = λ n. false; leaves = []; stack = 0 ∷ [] }

-- Where a leaf stands in the table, and where its record stands in the file.
abbrev pub index_of : GeoIpReader → ℕ → ℕ
index_of r leaf = leaf - r.node_count - 16

unfoldable pub max_index : GeoIpReader → List ℕ → ℕ
max_index r [] = 0
max_index r (leaf ∷ ls) = max (index_of r leaf) (max_index r ls)

unfoldable pub set_entry : IsoTable → ℕ → IsoEntry → IsoTable
set_entry t idx iso = record t { entry = λ i. if i == idx then iso else t.entry i }

-- One leaf's code goes to the table. A record outside of the file is passed over.
unfoldable pub put : GeoIpReader → ℕ → IsoTable → Option IsoTable
put r leaf t = elim (ltb (r.data_base + index_of r leaf) (length r.raw)) [
  | false ↦ some t
  | true ↦ elim (ltb (index_of r leaf) t.size) [
    | false ↦ some t
    | true ↦ elim (decode_iso_code r.raw (r.data_base + index_of r leaf)) [
      | none ↦ none
      | some iso ↦ some (set_entry t (index_of r leaf) iso)
    ]
  ]
]

unfoldable pub fill : GeoIpReader → List ℕ → IsoTable → Option IsoTable
fill r [] t = some t
fill r (leaf ∷ ls) t = elim (fill r ls t) [ none ↦ none | some t' ↦ put r leaf t' ]

abbrev pub no_table : IsoTable
no_table = record { size = 0; entry = λ i. no_iso }

-- make of a slice of zeroed entries.
abbrev pub zeroed : ℕ → IsoTable
zeroed n = record { size = n; entry = λ i. no_iso }

-- Enough rounds for the search of a tree of so many nodes.
abbrev pub rounds_for : ℕ → ℕ
rounds_for node_count = 3 * node_count + 1

unfoldable pub table_of : GeoIpReader → List ℕ → Option IsoTable
table_of r [] = some no_table
table_of r (leaf ∷ ls) = fill r (leaf ∷ ls) (zeroed (max_index r (leaf ∷ ls) + 1))

-- The reader with its table. The code's error for an index above 32 bits never arises, since a leaf
-- has 32 bits.
unfoldable pub build_iso_table : GeoIpReader → Option GeoIpReader
build_iso_table r = elim (explore (rounds_for r.node_count) r root) [
  | none ↦ none
  | some s ↦ elim (table_of r s.leaves) [ none ↦ none | some t ↦ some (record r { iso_table = t }) ]
]
