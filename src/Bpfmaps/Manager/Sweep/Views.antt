-- ===== src/Bpfmaps/Manager/Sweep/Views.antt =====
-- The sweep against the lookups that come after it.
use falx_v.Base.{
  ℕ, ◌+◌, ◌≤◌, ◌≡◌, ap, refl, ◌⊎◌, inl, inr, true, List, [], ◌∷◌, none, some, ◌==◌, All,
  Option-cases, Bool-cases, arith,
}
use falx_v.Base.Time.{unix}
use falx_v.Bpfmaps.Types.{BlockEntry}
use falx_v.Bpfmaps.Kernel.{BpfMap, DeleteLaws, EntriesLaws}
use falx_v.Bpfmaps.Manager.{seen, has_expired}
use falx_v.Bpfmaps.Manager.Sweep.{to_delete, delete_all, sweep_blocklist}

has_expired-later :
    (e : BlockEntry) (t u : ℕ) → t ≤ u → has_expired e t ≡ true → has_expired e u ≡ true
unfolding has_expired
has_expired-later e t u h k = ground arith

module _ {W : Type 0} (m : BpfMap W ℕ BlockEntry) where
  -- The key has an entry that has run out.
  HasRunOut : W → ℕ → ℕ → Type 0
  HasRunOut w now_sec k =
      (e : BlockEntry) × (m.lookup w k ≡ some e) × (has_expired e now_sec ≡ true)

  to_delete-HasRunOut :
      (w : W) (now_sec : ℕ) (es : List (ℕ × BlockEntry))
      → All (λ p. m.lookup w p.0 ≡ some p.1) es
      → All (HasRunOut w now_sec) (to_delete m now_sec es)
  unfolding to_delete HasRunOut
  to_delete-HasRunOut w now_sec [] h = h
  to_delete-HasRunOut w now_sec ((k, e) ∷ es) (h, hs) = elim (Bool-cases (has_expired e now_sec)) [
    | inl q ↦ rw q ((e, h, q), to_delete-HasRunOut w now_sec es hs)
    | inr q ↦ rw q (to_delete-HasRunOut w now_sec es hs)
  ]

  -- A key that was in the map at the start has its entry, or that had run out and is gone.
  Swept : W → W → ℕ → ℕ → Type 0
  Swept w w' now_sec k =
      (m.lookup w' k ≡ m.lookup w k) ⊎ ((m.lookup w' k ≡ none) × HasRunOut w now_sec k)

  module _ (laws : DeleteLaws m) where
    delete-Swept :
        (w₀ w w' : W) (now_sec k j : ℕ)
        → m.delete w k ≡ some w'
        → HasRunOut w₀ now_sec k
        → Swept w₀ w now_sec j
        → Swept w₀ w' now_sec j
    unfolding Swept
    delete-Swept w₀ w w' now_sec k j h out s = elim (Bool-cases (j == k)) [
      | inl e ↦ let same : j ≡ k = ground arith in rw same (inr (laws.lookup-delete w w' k h, out))
      | inr e ↦ rw (laws.lookup-delete_ne w w' k j h (λ same. ground arith)) s
    ]

    delete_all-Swept :
        (w₀ w : W) (now_sec removed j : ℕ) (ks : List ℕ)
        → All (HasRunOut w₀ now_sec) ks
        → Swept w₀ w now_sec j
        → Swept w₀ (delete_all m w removed ks).0 now_sec j
    unfolding delete_all
    delete_all-Swept w₀ w now_sec removed j [] h s = s
    delete_all-Swept w₀ w now_sec removed j (k ∷ ks) (h, hs) s =
        elim (Option-cases (m.delete w k)) [
          | inl e ↦ rw (e, delete_all) (delete_all-Swept w₀ w now_sec removed j ks hs s)
          | inr (w', e) ↦
              rw (e, delete_all)
                (delete_all-Swept w₀ w' now_sec (removed + 1) j ks hs
                  (delete-Swept w₀ w w' now_sec k j e h s))
        ]

    -- The view of a lookup at a later time.
    Swept-seen :
        (w w' : W) (now_sec k later : ℕ)
        → now_sec ≤ unix later
        → Swept w w' now_sec k
        → seen (m.lookup w' k) later ≡ seen (m.lookup w k) later
    unfolding Swept HasRunOut seen
    Swept-seen w w' now_sec k later le (inl same) = ap (λ o. seen o later) same
    Swept-seen w w' now_sec k later le (inr (gone, out)) =
        let (e, was, over) = out in
        let still : has_expired e (unix later) ≡ true =
          has_expired-later e now_sec (unix later) le over in
        rw (gone, was, seen) (rw still refl)

    -- A sweep, whichever of its deletions fail, changes no lookup from its time on: what it takes
    -- out of the map had run out, so that a lookup reports the address as not blocked either way.
    pub sweep_blocklist-seen :
        (w : W) (now_sec removed k later : ℕ)
        → EntriesLaws m
        → now_sec ≤ unix later
        → seen (m.lookup (sweep_blocklist m w now_sec removed).0 k) later
          ≡ seen (m.lookup w k) later
    unfolding sweep_blocklist Swept
    sweep_blocklist-seen w now_sec removed k later el le = elim (Option-cases (m.entries w)) [
      | inl e ↦ rw (e, sweep_blocklist) refl
      | inr (es, e) ↦
          rw (e, sweep_blocklist)
            (Swept-seen w _ now_sec k later le (
              delete_all-Swept w w now_sec removed k (to_delete m now_sec es)
                (to_delete-HasRunOut w now_sec es (el.lookup-entries w es e)) (inl refl)))
    ]
