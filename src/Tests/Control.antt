-- ===== src/Tests/Control.antt =====
-- Runs of the sweeper, the start's checks, and the threshold synchroniser.
use Prim.Native.String.{◌++◌ as append_text}
use falx_v.Base.{
  ℕ, ◌≡◌, ◌≢◌, refl, true, false, List, [], ◌∷◌, Option, none, some, arith, ◌==◌, if◌then◌else◌,
  All, inl,
}
use falx_v.Control.Amnesty.{
  SweepMap, SweepLaws, SweepBlockEntry, SweepCoolingEntry, AmnestySweeper, sweep,
}
use falx_v.Control.Amnesty.Kept.{sweep-keeps}
use falx_v.Control.Startup.{Crypto, ecdsa_p256, verify}
use falx_v.Control.Startup.Signed.{verify-eq-none}
use falx_v.Control.Thresholds.{ThresholdSynchronizer, sync_now, update_local}
use falx_v.Bpfmaps.RateLimiter.{check, allow, new_map_rate_limiter}
use falx_v.Bpfmaps.Manager.{update_failsafe_thresholds, read_failsafe_state}
use falx_v.Tests.World.{World, kernel, circuit_map}
use falx_v.Tests.Data.{at_second, manager}

-- A map that holds one entry or none.
one_slot : {V : Type 0} → SweepMap (Option (ℕ × V)) V
one_slot = record {
  lookup = λ w j. elim w [ none ↦ none | some p ↦ if p.0 == j then some (p.1) else none ];
  delete = λ w k. elim w [ none ↦ none | some p ↦ if p.0 == k then some none else none ];
  items = λ w. elim w [ none ↦ ([], false) | some p ↦ (p ∷ [], true) ];
}

module _ {V : Type 0} where
  lookup-delete_one :
      (w w' : Option (ℕ × V)) (k j : ℕ)
      → (one_slot {V = V}).delete w k ≡ some w'
      → j ≢ k
      → (one_slot {V = V}).lookup w' j ≡ (one_slot {V = V}).lookup w j
  unfolding one_slot
  lookup-delete_one none w' k j e ne = absurd (ground arith)
  lookup-delete_one (some p) w' k j e ne = ground arith

  lookup-items_one :
      (w : Option (ℕ × V))
      → All (λ p. (one_slot {V = V}).lookup w p.0 ≡ some p.1) ((one_slot {V = V}).items w).0
  unfolding one_slot
  lookup-items_one none = tt
  lookup-items_one (some p) = (ground arith, tt)

  one_slot-SweepLaws : SweepLaws (one_slot {V = V})
  one_slot-SweepLaws = record {
    lookup-delete_ne = lookup-delete_one;
    lookup-items = lookup-items_one;
  }

abbrev permanent : SweepBlockEntry
permanent = record { expire_at = 0; action = 1; rule_id = 7; threat_score = 90; reason = 6 }

abbrev fresh_ban : SweepCoolingEntry
fresh_ban = record { repeat_count = 2; last_ban_at_ns = 5_000 }

abbrev sweeper : AmnestySweeper (Option (ℕ × SweepBlockEntry)) (Option (ℕ × SweepCoolingEntry))
sweeper = record {
  blocklist_v4 = some (3, permanent);
  cooling_tracker = some (4, fresh_ban);
  stats = record {
    blocklist_purged = 0;
    cooling_purged = 0;
    sweep_errors = 0;
    total_sweeps = 0;
    last_sweep_at = 0;
    last_sweep_elapsed = 0;
  };
}

sweep-keeps_example :
    (one_slot.lookup (sweep one_slot one_slot sweeper (at_second 0) 6_000 10).blocklist_v4 3
      ≡ some permanent)
    × (one_slot.lookup (sweep one_slot one_slot sweeper (at_second 0) 6_000 10).cooling_tracker 4
        ≡ some fresh_ban)
unfolding one_slot
sweep-keeps_example =
    sweep-keeps one_slot one_slot sweeper (at_second 0) 6_000 10 3 4 permanent fresh_ban
      one_slot-SweepLaws one_slot-SweepLaws refl (inl refl) refl (omega arith)

abbrev key : ℕ
key = 7

-- The runs' signature check compares the digest, the sum of the bytes, with the signature.
toy : Crypto ℕ (List ℕ)
toy = record {
  read_file = λ name. some (1 ∷ []);
  sum256 = λ bytes. bytes;
  unmarshal = λ bytes. some (bytes, []);
  verify_digest = λ k digest sig. k == key;
  parse_key = λ bytes. some (key, ecdsa_p256);
}

verify-eq-none_example :
    (elf : List ℕ) × (der : List ℕ) × (sig : List ℕ) × (toy.read_file "falx.o" ≡ some elf)
    × (toy.read_file (append_text "falx.o" ".sig") ≡ some der)
    × (toy.unmarshal der ≡ some (sig, []))
    × (toy.verify_digest key (toy.sum256 elf) sig ≡ true)
unfolding verify toy
verify-eq-none_example = verify-eq-none toy key "falx.o" refl

abbrev synchronizer : ThresholdSynchronizer World
synchronizer = record { snap = record { pps = 1; bps = 2 }; mgr = manager }

abbrev synced : ThresholdSynchronizer World
synced = (sync_now kernel (update_local synchronizer 500 4_000) (at_second 1)).0

sync_ok : sync_now kernel (update_local synchronizer 500 4_000) (at_second 1) ≡ (synced, none)
unfolding sync_now update_local update_failsafe_thresholds read_failsafe_state kernel check allow
    new_map_rate_limiter circuit_map
sync_ok = refl
