-- ===== src/Control/Geoip/Search.antt =====
-- The search for the leaves ends.
use falx_v.Base.Bytes.{IsSome}
use falx_v.Base.{
  ℕ, zero, suc, ◌+◌, ◌*◌, ◌≤◌, ◌<◌, ◌≡◌, refl, inl, inr, Bool, false, List, ◌∷◌, Option, some,
  length, All, arith, Bool-cases, List-cases, ◌==◌, if◌then◌else◌,
}
use mathlib.Core.Path.{subst}
use falx_v.Control.Geoip.{GeoIpReader}
use falx_v.Control.Geoip.Table.{Search, mark, add_child, visit, explore, root, rounds_for}
use falx_v.Control.Geoip.Bounds.{IsValid, read_record-IsSome}

-- How many of the first nodes are not visited.
unvisited : ℕ → (ℕ → Bool) → ℕ
unvisited zero v = 0
unvisited (suc n) v = (if v n then 0 else 1) + unvisited n v

mark-above : (n node : ℕ) (v : ℕ → Bool) → n ≤ node → unvisited n (mark v node) ≡ unvisited n v
unfolding unvisited mark
mark-above zero node v h = refl
mark-above (suc n) node v h = ground (arith, mark-above n node v)

mark-unvisited :
    (n node : ℕ) (v : ℕ → Bool)
    → node < n
    → v node ≡ false
    → suc (unvisited n (mark v node)) ≡ unvisited n v
unfolding unvisited mark
mark-unvisited zero node v h e = absurd (omega arith)
mark-unvisited (suc n) node v h e = elim (Bool-cases (n == node)) [
  | inl same ↦ ground (arith, mark-above n node v)
  | inr other ↦ ground (arith, mark-unvisited n node v)
]

unvisited-all : (n : ℕ) → unvisited n (λ m. false) ≡ n
unfolding unvisited
unvisited-all zero = refl
unvisited-all (suc n) = omega (arith, unvisited-all n)

module _ (r : GeoIpReader) where
  -- The nodes on the stack are nodes of the tree.
  abbrev Nodes : Search → Type 0
  Nodes s = All (λ n. n < r.node_count) s.stack

  abbrev left_to_do : Search → ℕ
  left_to_do s = 3 * unvisited r.node_count s.visited + length s.stack

  add_child-cost :
      (child : ℕ) (s : Search)
      → Nodes s
      → Nodes (add_child r.node_count child s)
        × (left_to_do (add_child r.node_count child s) ≤ left_to_do s + 1)
  unfolding add_child
  add_child-cost child s h = ground arith

  -- A round ends inside the file with less to do.
  abbrev Round : ℕ → Option Search → Type 0
  Round before o = (s : Search) × (o ≡ some s) × Nodes s × (left_to_do s < before)

  visit-Round :
      (node : ℕ) (rest : List ℕ) (s : Search)
      → IsValid r
      → node < r.node_count
      → All (λ n. n < r.node_count) rest
      → Round (3 * unvisited r.node_count s.visited + suc (length rest)) (visit r node rest s)
  unfolding visit
  visit-Round node rest s v lt h = elim (Bool-cases (s.visited node)) [
    | inl e ↦ (record s { stack = rest }, rw (e, visit) refl, h, omega arith)
    | inr e ↦
        let (left, el) = read_record-IsSome r node 0 v in
        let (right, er) = read_record-IsSome r node 1 v in
        let marked : Search = record s { stack = rest; visited = mark s.visited node } in
        let s₁ = add_child r.node_count left marked in
        let (n₁, c₁) = add_child-cost left marked h in
        let (n₂, c₂) = add_child-cost right s₁ n₁ in
        (
          add_child r.node_count right s₁,
          rw (e, el, er, visit) refl,
          n₂,
          omega (arith, c₁, c₂, mark-unvisited r.node_count node s.visited lt e),
        )
  ]

  explore-IsSome :
      (fuel : ℕ) (s : Search)
      → IsValid r
      → Nodes s
      → left_to_do s ≤ fuel
      → IsSome (explore fuel r s)
  unfolding explore
  explore-IsSome zero s v h le = elim (List-cases s.stack) [
    | inl e ↦ rw (e, explore) (s, refl)
    | inr (node, rest, e) ↦ absurd (ground arith)
  ]
  explore-IsSome (suc fuel) s v h le = elim (List-cases s.stack) [
    | inl e ↦ rw (e, explore) (s, refl)
    | inr (node, rest, e) ↦
        let nodes : All (λ n. n < r.node_count) (node ∷ rest) =
          subst (λ st. All (λ n. n < r.node_count) st) e h in
        let measure : 3 * unvisited r.node_count s.visited + length (node ∷ rest) ≤ suc fuel =
          subst (λ st. 3 * unvisited r.node_count s.visited + length st ≤ suc fuel) e le in
        let (s', e', h', less) = visit-Round node rest s v nodes.0 nodes.1 in
        rw (e, e', explore) (explore-IsSome fuel s' v h' (omega arith))
  ]

  -- With as many rounds as the code's table asks for, the search from the root ends.
  pub explore-root :
      IsValid r → 0 < r.node_count → IsSome (explore (rounds_for r.node_count) r root)
  explore-root v pos =
      explore-IsSome (rounds_for r.node_count) root v (pos, tt)
        (omega (arith, unvisited-all r.node_count))
