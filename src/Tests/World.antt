-- ===== src/Tests/World.antt =====
-- A kernel with one blocklist and one circuit state, whose other maps always fail.
use falx_v.Base.{
  ℕ, ◌+◌, ◌-◌, ◌*◌, ◌/◌, ◌≡◌, ◌≢◌, refl, List, [], ◌∷◌, All, Option, none, some, ltb, ◌==◌,
  if◌then◌else◌, arith, min, Option-cases, inl, inr,
}
use falx_v.Base.Time.{second}
use falx_v.Base.Floats.{Floats}
use falx_v.Bpfmaps.Types.{BlockEntry, XdpStats, MappedXdpStats, FailsafeState}
use falx_v.Bpfmaps.Kernel.{BpfMap, KernelMaps, UpdateLaws, DeleteLaws, EntriesLaws}

pub record World : Type 0 where
  pub blocked : List (ℕ × BlockEntry)
  pub circuit : FailsafeState
  pub cold_path : List XdpStats
  pub hot_path : List MappedXdpStats

find : ℕ → List (ℕ × BlockEntry) → Option BlockEntry
find k [] = none
find k ((j, e) ∷ es) = if j == k then some e else find k es

erase : ℕ → List (ℕ × BlockEntry) → List (ℕ × BlockEntry)
erase k [] = []
erase k ((j, e) ∷ es) = let rest = erase k es in if j == k then rest else (j, e) ∷ rest

-- The entries as a lookup finds them.
found : List (ℕ × BlockEntry) → List (ℕ × BlockEntry) → List (ℕ × BlockEntry)
found all [] = []
found all ((k, _) ∷ es) = elim (find k all) [ none ↦ found all es | some e ↦ (k, e) ∷ found all es ]

unfoldable pub blocklist : BpfMap World ℕ BlockEntry
unfolding find erase found
blocklist = record {
  lookup = λ w k. find k w.blocked;
  update = λ w k e. some (record w { blocked = (k, e) ∷ erase k w.blocked });
  delete = λ w k. some (record w { blocked = erase k w.blocked });
  entries = λ w. some (found w.blocked w.blocked);
}

unfoldable pub circuit_map : BpfMap World ℕ FailsafeState
circuit_map = record {
  lookup = λ w k. if k == 0 then some w.circuit else none;
  update = λ w k s. if k == 0 then some (record w { circuit = s }) else none;
  delete = λ w k. none;
  entries = λ w. none;
}

missing : {K V : Type 0} → BpfMap World K V
missing = record {
  lookup = λ w k. none;
  update = λ w k v. none;
  delete = λ w k. none;
  entries = λ w. none;
}

unfoldable pub kernel : KernelMaps World
unfolding missing
kernel = record {
  blocklist_v4 = blocklist;
  blocklist_v6 = missing;
  rate_limit_map = missing;
  failsafe_state = circuit_map;
  config_map = missing;
  xsk_map = missing;
  xdp_stats = λ w. some w.cold_path;
  mapped_stats = λ w. some w.hot_path;
}

find-erase : (k : ℕ) (es : List (ℕ × BlockEntry)) → find k (erase k es) ≡ none
unfolding find erase
find-erase k [] = refl
find-erase k ((j, e) ∷ es) = ground (arith, find-erase k es)

find-erase_ne : (k j : ℕ) (es : List (ℕ × BlockEntry)) → j ≢ k → find j (erase k es) ≡ find j es
unfolding find erase
find-erase_ne k j [] h = refl
find-erase_ne k j ((i, e) ∷ es) h = ground (arith, find-erase_ne k j es h)

pub blocklist-UpdateLaws : UpdateLaws blocklist
unfolding blocklist find
blocklist-UpdateLaws = record {
  lookup-update = λ w w' k v h. ground arith;
  lookup-update_ne = λ w w' k j v h ne. inl (ground (arith, find-erase_ne k j w.blocked ne));
}

pub blocklist-DeleteLaws : DeleteLaws blocklist
unfolding blocklist
blocklist-DeleteLaws = record {
  lookup-delete = λ w w' k h. ground (arith, find-erase k w.blocked);
  lookup-delete_ne = λ w w' k j h ne. ground (arith, find-erase_ne k j w.blocked ne);
}

found-find : (all es : List (ℕ × BlockEntry)) → All (λ p. find p.0 all ≡ some p.1) (found all es)
unfolding found
found-find all [] = _
found-find all ((k, _) ∷ es) = elim (Option-cases (find k all)) [
  | inl e ↦ rw (e, found) (found-find all es)
  | inr (x, e) ↦ rw (e, found) (e, found-find all es)
]

pub blocklist-EntriesLaws : EntriesLaws blocklist
unfolding blocklist
blocklist-EntriesLaws = record {
  lookup-entries = λ w es h.
      let same : found w.blocked w.blocked ≡ es = ground arith in
      rw (← same) (found-find w.blocked w.blocked);
}

pub circuit_map-UpdateLaws : UpdateLaws circuit_map
unfolding circuit_map
circuit_map-UpdateLaws = record {
  lookup-update = λ w w' k v h. ground arith;
  lookup-update_ne = λ w w' k j v h ne. inl (ground arith);
}

-- Whole numbers in place of floats.
unfoldable pub whole : Floats ℕ
whole = record {
  of_uint64 = λ n. n;
  to_uint64 = λ n. n;
  duration_seconds = λ d. d / second;
  fadd = λ a b. a + b;
  fsub = λ a b. a - b;
  fmul = λ a b. a * b;
  fdiv = λ a b. a / b;
  fmin = λ a b. min a b;
  flt = ltb;
  show = λ n a. "";
}
