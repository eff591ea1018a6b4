-- ===== src/Control/Geoip/Closure.antt =====
-- The search finds every leaf that a lookup can reach.
use falx_v.Base.{
  ℕ, zero, suc, ◌+◌, ◌/◌, ◌%◌, ◌^◌, ◌≤◌, ◌<◌, ◌≡◌, sym, ap, ◌∙◌, ==_iff, ◌⊎◌, inl, inr, Bool, true,
  ◌||◌, List, [], ◌∷◌, some, arith, Option-cases, Bool-cases, List-cases, ltb, leb, ◌==◌,
  if◌then◌else◌,
}
use mathlib.Core.Path.{subst}
use falx_v.Control.Geoip.{GeoIpReader, read_record, traverse, traverse_tree}
use falx_v.Control.Geoip.Table.{Search, has, mark, add_child, visit, explore, root}

module _ (r : GeoIpReader) where
  -- The search knows of a record's value: it is in the set of leaves, or visited, or on the stack.
  known : Search → ℕ → Bool
  known s child =
      if ltb child r.node_count
      then s.visited child || has child s.stack
      else if ltb child (r.node_count + 16)
      then true
      else has child s.leaves

  -- It knows of the root, and of both records of every node that it has visited.
  record Closed (s : Search) : Type 0 where
    from_root : known s 0 ≡ true
    children :
        (node direction child : ℕ)
        → s.visited node ≡ true
        → direction < 2
        → read_record r node direction ≡ some child
        → known s child ≡ true

  add_child-keeps :
      (child c : ℕ) (s : Search)
      → known s c ≡ true
      → known (add_child r.node_count child s) c ≡ true
  unfolding known add_child has
  add_child-keeps child c s h = ground arith

  add_child-known : (child : ℕ) (s : Search) → known (add_child r.node_count child s) child ≡ true
  unfolding known add_child has
  add_child-known child s = ground arith

  add_child-visited :
      (child : ℕ) (s : Search) → (add_child r.node_count child s).visited ≡ s.visited
  unfolding add_child
  add_child-visited child s = ground arith

  -- A node that is marked, with its place on the stack given up.
  abbrev marking : Search → ℕ → List ℕ → Search
  marking s node rest = record s { stack = rest; visited = mark s.visited node }

  marking-keeps :
      (s : Search) (node : ℕ) (rest : List ℕ) (c : ℕ)
      → s.stack ≡ node ∷ rest
      → known s c ≡ true
      → known (marking s node rest) c ≡ true
  unfolding known mark has
  marking-keeps s node rest c e h =
      let h' : known (record s { stack = node ∷ rest }) c ≡ true =
        subst (λ st. known (record s { stack = st }) c ≡ true) e h in
      ground arith

  dropping-keeps :
      (s : Search) (node : ℕ) (rest : List ℕ) (c : ℕ)
      → s.stack ≡ node ∷ rest
      → s.visited node ≡ true
      → known s c ≡ true
      → known (record s { stack = rest }) c ≡ true
  unfolding known has
  dropping-keeps s node rest c e v h =
      let h' : known (record s { stack = node ∷ rest }) c ≡ true =
        subst (λ st. known (record s { stack = st }) c ≡ true) e h in
      elim (Bool-cases (c == node)) [
        | inl same ↦
            let vc : s.visited c ≡ true =
              subst (λ n. s.visited n ≡ true) (sym ((==_iff c node).0 same)) v in
            ground arith
        | inr other ↦ ground arith
      ]

  marked-cases : (v : ℕ → Bool) (node n : ℕ) → mark v node n ≡ true → (n ≡ node) ⊎ (v n ≡ true)
  unfolding mark
  marked-cases v node n h = ground arith

  below_two : (d : ℕ) → d < 2 → (d ≡ 0) ⊎ (d ≡ 1)
  below_two d h = ground arith

  same_some : {a b : ℕ} → some a ≡ some b → a ≡ b
  same_some e = ground arith

  visit-Closed :
      (node : ℕ) (rest : List ℕ) (s s' : Search)
      → s.stack ≡ node ∷ rest
      → visit r node rest s ≡ some s'
      → Closed s
      → Closed s'
  unfolding visit
  visit-Closed node rest s s' st e k = elim (Bool-cases (s.visited node)) [
    | inl v ↦
        let same : record s { stack = rest } ≡ s' = ground arith in
        rw (← same) (record {
          from_root = dropping-keeps s node rest 0 st v k.from_root;
          children =
              λ n d c vn lt rd. dropping-keeps s node rest c st v (k.children n d c vn lt rd);
        })
    | inr v ↦ elim (Option-cases (read_record r node 0)) [
      | inl n ↦ absurd (ground arith)
      | inr (left, el) ↦ elim (Option-cases (read_record r node 1)) [
        | inl n ↦ absurd (ground arith)
        | inr (right, er) ↦
            let m = marking s node rest in
            let a = add_child r.node_count left m in
            let b = add_child r.node_count right a in
            let same : b ≡ s' = ground arith in
            let keeps : (c : ℕ) → known s c ≡ true → known b c ≡ true = λ c h.
              add_child-keeps right c a
                (add_child-keeps left c m (marking-keeps s node rest c st h)) in
            rw (← same) (record {
              from_root = keeps 0 k.from_root;
              children = λ n d c vn lt rd.
                  elim (marked-cases s.visited node n
                    (rw (← add_child-visited left m, ← add_child-visited right a) vn)) [
                      | inr old ↦ keeps c (k.children n d c old lt rd)
                      | inl here ↦ elim (below_two d lt) [
                        | inl z ↦
                            let ec : c ≡ left = same_some (
                              sym rd
                              ∙ ap (λ x. read_record r x d) here
                              ∙ ap (λ x. read_record r node x) z
                              ∙ el) in
                            rw ec (add_child-keeps right left a (add_child-known left m))
                        | inr o ↦
                            let ec : c ≡ right = same_some (
                              sym rd
                              ∙ ap (λ x. read_record r x d) here
                              ∙ ap (λ x. read_record r node x) o
                              ∙ er) in
                            rw ec (add_child-known right a)
                      ]
                    ];
            })
      ]
    ]
  ]

  explore-Closed :
      (fuel : ℕ) (s s' : Search)
      → Closed s
      → explore fuel r s ≡ some s'
      → Closed s' × (s'.stack ≡ [])
  unfolding explore
  explore-Closed zero s s' k e = elim (List-cases s.stack) [
    | inl n ↦
        let same : s ≡ s' = ground arith in (subst Closed same k, subst (λ x. x.stack ≡ []) same n)
    | inr (node, rest, n) ↦ absurd (ground arith)
  ]
  explore-Closed (suc fuel) s s' k e = elim (List-cases s.stack) [
    | inl n ↦
        let same : s ≡ s' = ground arith in (subst Closed same k, subst (λ x. x.stack ≡ []) same n)
    | inr (node, rest, n) ↦ elim (Option-cases (visit r node rest s)) [
      | inl x ↦ absurd (ground arith)
      | inr (t, x) ↦ explore-Closed fuel t s' (visit-Closed node rest s t n x k) (ground arith)
    ]
  ]

  root-Closed : 0 < r.node_count → Closed root
  unfolding known has
  root-Closed pos = record {
    from_root = ground arith;
    children = λ node d c v lt e. absurd (ground arith);
  }

  known-visited :
      (s : Search) (node : ℕ)
      → s.stack ≡ []
      → node < r.node_count
      → known s node ≡ true
      → s.visited node ≡ true
  unfolding known has
  known-visited s node e lt k =
      let k' : known (record s { stack = [] }) node ≡ true =
        subst (λ st. known (record s { stack = st }) node ≡ true) e k in
      ground arith

  known-has :
      (s : Search) (leaf : ℕ)
      → r.node_count + 16 ≤ leaf
      → known s leaf ≡ true
      → has leaf s.leaves ≡ true
  unfolding known
  known-has s leaf le k = ground arith

  traverse-has :
      (s : Search) (ip bit node leaf : ℕ)
      → Closed s
      → s.stack ≡ []
      → node < r.node_count
      → known s node ≡ true
      → traverse r ip bit node ≡ some leaf
      → r.node_count + 16 ≤ leaf
      → has leaf s.leaves ≡ true
  unfolding traverse
  traverse-has s ip zero node leaf c st lt k e le = absurd (ground arith)
  traverse-has s ip (suc bit) node leaf c st lt k e le =
      elim (Option-cases (read_record r node ((ip / 2 ^ bit) % 2))) [
        | inl n ↦ absurd (ground arith)
        | inr (next, n) ↦
            let kn : known s next ≡ true =
              c.children node ((ip / 2 ^ bit) % 2) next (known-visited s node st lt k) (omega arith)
                n in
            elim (Bool-cases (leb r.node_count next)) [
              | inl ge ↦
                  let same : next ≡ leaf = ground arith in
                  known-has s leaf le (subst (λ x. known s x ≡ true) same kn)
              | inr below ↦ traverse-has s ip bit next leaf c st (ground arith) kn (ground arith) le
            ]
      ]

  -- Every leaf that a lookup reaches is found by the search.
  pub explore-traverse_tree :
      (fuel : ℕ) (s : Search) (ip leaf : ℕ)
      → 0 < r.node_count
      → explore fuel r root ≡ some s
      → traverse_tree r ip ≡ some leaf
      → r.node_count + 16 ≤ leaf
      → has leaf s.leaves ≡ true
  unfolding traverse_tree
  explore-traverse_tree fuel s ip leaf pos e t le =
      let (c, st) = explore-Closed fuel root s (root-Closed pos) e in
      traverse-has s ip 32 0 leaf c st pos c.from_root t le
