-- ===== src/Control/Geoip/Filled.antt =====
-- The table holds, for each leaf, the code of its record.
use falx_v.Base.Bytes.{IsSome}
use falx_v.Base.{
  ℕ, ◌+◌, ◌≤◌, ◌<◌, ◌≡◌, refl, sym, ap, ◌∙◌, ==_iff, ◌⊎◌, inl, inr, true, List, [], ◌∷◌, some,
  length, arith, Bool-cases, ltb, ◌==◌,
}
use mathlib.Core.Path.{subst}
use falx_v.Control.Geoip.{IsoEntry, IsoTable, GeoIpReader}
use falx_v.Control.Geoip.Encoding.{decode_iso_code}
use falx_v.Control.Geoip.Table.{has, index_of, max_index, set_entry, put, fill}
use falx_v.Control.Geoip.Skipping.{decode_iso_code-IsSome}

same_iso : {x y : IsoEntry} → some x ≡ some y → x ≡ y
same_iso e = ground arith

module _ (r : GeoIpReader) where
  put-IsSome : (leaf : ℕ) (t : IsoTable) → IsSome (put r leaf t)
  unfolding put
  put-IsSome leaf t =
      let (iso, d) = decode_iso_code-IsSome r.raw (r.data_base + index_of r leaf) in
      elim (Bool-cases (ltb (r.data_base + index_of r leaf) (length r.raw))) [
        | inr b ↦ rw (b, put) (t, refl)
        | inl b ↦ elim (Bool-cases (ltb (index_of r leaf) t.size)) [
          | inr c ↦ rw (b, c, put) (t, refl)
          | inl c ↦ rw (b, c, d, put) (set_entry t (index_of r leaf) iso, refl)
        ]
      ]

  pub fill-IsSome : (ls : List ℕ) (t : IsoTable) → IsSome (fill r ls t)
  unfolding fill
  fill-IsSome [] t = (t, refl)
  fill-IsSome (leaf ∷ ls) t = let (t', e) = fill-IsSome ls t in rw (e, fill) (put-IsSome leaf t')

  put-size : (leaf : ℕ) (t u : IsoTable) → put r leaf t ≡ some u → u.size ≡ t.size
  unfolding put set_entry
  put-size leaf t u e = ground arith

  put-cases :
      (leaf : ℕ) (t u : IsoTable)
      → put r leaf t ≡ some u
      → (t ≡ u)
        ⊎ ((x : IsoEntry) × (decode_iso_code r.raw (r.data_base + index_of r leaf) ≡ some x)
            × (set_entry t (index_of r leaf) x ≡ u))
  unfolding put
  put-cases leaf t u e =
      let (x, d) = decode_iso_code-IsSome r.raw (r.data_base + index_of r leaf) in
      elim (Bool-cases (ltb (r.data_base + index_of r leaf) (length r.raw))) [
        | inr b ↦ inl (ground arith)
        | inl b ↦ elim (Bool-cases (ltb (index_of r leaf) t.size)) [
          | inr c ↦ inl (ground arith)
          | inl c ↦ inr (x, d, ground arith)
        ]
      ]

  -- An entry that holds its record's code holds it after another leaf's turn.
  put-keeps :
      (leaf idx : ℕ) (iso : IsoEntry) (t u : IsoTable)
      → decode_iso_code r.raw (r.data_base + idx) ≡ some iso
      → put r leaf t ≡ some u
      → t.entry idx ≡ iso
      → u.entry idx ≡ iso
  unfolding set_entry
  put-keeps leaf idx iso t u d e h = elim (put-cases leaf t u e) [
    | inl same ↦ subst (λ x. x.entry idx ≡ iso) same h
    | inr (x, dx, same) ↦
        let set : (set_entry t (index_of r leaf) x).entry idx ≡ iso =
          elim (Bool-cases (idx == index_of r leaf)) [
            | inr other ↦ rw (other, set_entry) h
            | inl here ↦
                let at : idx ≡ index_of r leaf = (==_iff idx (index_of r leaf)).0 here in
                rw (here, set_entry)
                  (same_iso
                    (sym dx ∙ ap (λ i. decode_iso_code r.raw (r.data_base + i)) (sym at) ∙ d))
          ] in
        subst (λ y. y.entry idx ≡ iso) same set
  ]

  put-own :
      (leaf : ℕ) (iso : IsoEntry) (t u : IsoTable)
      → decode_iso_code r.raw (r.data_base + index_of r leaf) ≡ some iso
      → r.data_base + index_of r leaf < length r.raw
      → index_of r leaf < t.size
      → put r leaf t ≡ some u
      → u.entry (index_of r leaf) ≡ iso
  unfolding put set_entry
  put-own leaf iso t u d inside small e =
      let same : set_entry t (index_of r leaf) iso ≡ u = ground arith in
      let self : (index_of r leaf == index_of r leaf) ≡ true = ground arith in
      subst (λ y. y.entry (index_of r leaf) ≡ iso) same (rw (self, set_entry) refl)

  pub fill-size : (ls : List ℕ) (t u : IsoTable) → fill r ls t ≡ some u → u.size ≡ t.size
  unfolding fill
  fill-size [] t u e = ground arith
  fill-size (leaf ∷ ls) t u e =
      let (t', f) = fill-IsSome ls t in put-size leaf t' u (ground arith) ∙ fill-size ls t t' f

  -- After all turns, the entry of a leaf holds its record's code.
  pub fill-entry :
      (ls : List ℕ) (leaf : ℕ) (iso : IsoEntry) (t u : IsoTable)
      → has leaf ls ≡ true
      → decode_iso_code r.raw (r.data_base + index_of r leaf) ≡ some iso
      → r.data_base + index_of r leaf < length r.raw
      → index_of r leaf < t.size
      → fill r ls t ≡ some u
      → u.entry (index_of r leaf) ≡ iso
  unfolding fill has
  fill-entry [] leaf iso t u m d inside small e = absurd (ground arith)
  fill-entry (l ∷ ls) leaf iso t u m d inside small e =
      let (t', f) = fill-IsSome ls t in
      let p : put r l t' ≡ some u = ground arith in
      let small' : index_of r leaf < t'.size = omega (arith, fill-size ls t t' f, small) in
      elim (Bool-cases (leaf == l)) [
        | inl here ↦
            let same : l ≡ leaf = sym ((==_iff leaf l).0 here) in
            put-own leaf iso t' u d inside small' (subst (λ x. put r x t' ≡ some u) same p)
        | inr other ↦
            put-keeps l (index_of r leaf) iso t' u d p
              (fill-entry ls leaf iso t t' (ground arith) d inside small f)
      ]

  pub max_index-has :
      (ls : List ℕ) (leaf : ℕ) → has leaf ls ≡ true → index_of r leaf ≤ max_index r ls
  unfolding has max_index
  max_index-has [] leaf m = absurd (ground arith)
  max_index-has (l ∷ ls) leaf m = elim (Bool-cases (leaf == l)) [
    | inl here ↦ omega (arith, (==_iff leaf l).0 here)
    | inr other ↦ omega (arith, max_index-has ls leaf (ground arith))
  ]
