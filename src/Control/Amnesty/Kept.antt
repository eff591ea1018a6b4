-- ===== src/Control/Amnesty/Kept.antt =====
-- What a sweep leaves in the maps.
use falx_v.Base.{
  ℕ, ◌+◌, ◌≤◌, ◌<◌, ◌≡◌, ◌≢◌, ◌∙◌, sym, ap, refl, ◌⊎◌, inl, inr, Bool, false, List, [], ◌∷◌, some,
  All, Bool-cases, Option-cases, if◌then◌else◌, arith,
}
use falx_v.Base.Time.{unix}
use falx_v.Control.Amnesty.{
  SweepMap, SweepLaws, SweepBlockEntry, SweepCoolingEntry, max_cooling_ban_ns, AmnestySweeper,
  is_stale_block, is_stale_cooling, stale_keys, delete_stale, sweep_map, sweep_blocklist,
  sweep_cooling, sweep,
}

module _ {W V : Type 0} (m : SweepMap W V) (laws : SweepLaws m) where
  delete_stale-keeps :
      (ks : List ℕ) (w : W) (purged errs j : ℕ)
      → All (λ k. j ≢ k) ks
      → m.lookup (delete_stale m w purged errs ks).0 j ≡ m.lookup w j
  unfolding delete_stale
  delete_stale-keeps [] w purged errs j h = refl
  delete_stale-keeps (k ∷ ks) w purged errs j (ne, h) = elim (Option-cases (m.delete w k)) [
    | inl e ↦ rw (e, delete_stale) (delete_stale-keeps ks w purged (errs + 1) j h)
    | inr (w', e) ↦
        rw (e, delete_stale)
          (delete_stale-keeps ks w' (purged + 1) errs j h ∙ laws.lookup-delete_ne w w' k j e ne)
  ]

  -- The key of an entry that is not stale is not collected.
  stale_keys-other :
      (stale : V → Bool) (es : List (ℕ × V)) (w : W) (j : ℕ) (v : V)
      → m.lookup w j ≡ some v
      → stale v ≡ false
      → All (λ p. m.lookup w p.0 ≡ some p.1) es
      → All (λ k. j ≢ k) (stale_keys stale es)
  unfolding stale_keys
  stale_keys-other stale [] w j v e s h = _
  stale_keys-other stale ((k, x) ∷ es) w j v e s (here, h) = elim (Bool-cases (stale x)) [
    | inl t ↦
        rw (t, stale_keys)
          (
            (λ p. let q : some v ≡ some x = sym e ∙ ap (m.lookup w) p ∙ here in ground arith),
            stale_keys-other stale es w j v e s h,
          )
    | inr t ↦ rw (t, stale_keys) (stale_keys-other stale es w j v e s h)
  ]

  sweep_map-keeps :
      (stale : V → Bool) (w : W) (j : ℕ) (v : V)
      → m.lookup w j ≡ some v
      → stale v ≡ false
      → m.lookup (sweep_map m w stale).0 j ≡ some v
  unfolding sweep_map
  sweep_map-keeps stale w j v e s =
      let (items, failed) = m.items w in
      delete_stale-keeps (stale_keys stale items) w 0 (if failed then 1 else 0) j
        (stale_keys-other stale items w j v e s (laws.lookup-items w))
      ∙ e

-- A pass of the sweeper leaves every block that is permanent or has not run out, and every record of
-- a ban that is at most as old as the longest ban, whatever errors it meets.
pub sweep-keeps :
    {W U : Type 0} (m : SweepMap W SweepBlockEntry) (c : SweepMap U SweepCoolingEntry)
    (s : AmnestySweeper W U) (start now_ns elapsed : ℕ) (ip jp : ℕ) (b : SweepBlockEntry)
    (t : SweepCoolingEntry)
    → SweepLaws m
    → SweepLaws c
    → m.lookup s.blocklist_v4 ip ≡ some b
    → (b.expire_at ≡ 0) ⊎ (unix start < b.expire_at)
    → c.lookup s.cooling_tracker jp ≡ some t
    → now_ns ≤ t.last_ban_at_ns + max_cooling_ban_ns
    → (m.lookup (sweep m c s start now_ns elapsed).blocklist_v4 ip ≡ some b)
      × (c.lookup (sweep m c s start now_ns elapsed).cooling_tracker jp ≡ some t)
unfolding sweep sweep_blocklist sweep_cooling is_stale_block is_stale_cooling
sweep-keeps m c s start now_ns elapsed ip jp b t lm lc eb live et young = (
  sweep_map-keeps m lm (is_stale_block (unix start)) s.blocklist_v4 ip b eb (ground (arith, live)),
  sweep_map-keeps c lc (is_stale_cooling now_ns) s.cooling_tracker jp t et (ground arith),
)
