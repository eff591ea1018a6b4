-- ===== src/Bpfmaps/Hardening/Batch.antt =====
-- Batches of the hardened writer, with their rollback, and the purge of its cache,
-- control-plane/pkg/bpfmaps/hardening.go.
use Prim.Native.String.{String, ◌++◌ as append_text}
use falx_v.Base.{
  ℕ, ◌+◌, ◌≡◌, refl, ◌⊎◌, inl, inr, Bool, true, false, List, [], ◌∷◌, Option, none, some, ltb,
  if◌then◌else◌, length,
}
use falx_v.Base.Integers.{pred}
use falx_v.Bpfmaps.Types.{IpAddr, BlockEntry}
use falx_v.Bpfmaps.Kernel.{KernelMaps}
use falx_v.Bpfmaps.Audit.{MapError}
use falx_v.Bpfmaps.Manager.{block_ipv4, unblock_ipv4, is_blocked_ipv4}
use falx_v.Bpfmaps.Manager.More.{BlockDecision}
use falx_v.Bpfmaps.Hardening.{
  Texts, HardenedWriter, WriteError, batch_exceeds_window, batch_failed, wrap64, entry_fingerprint,
  cached, uncache, is_some_of, refreshed, remember,
}

pub record RollbackEntry : Type 0 where
  pub ip : IpAddr
  pub existed : Bool
  pub entry : BlockEntry

-- How a turn of the batch's loop ends.
pub data Turn : Type 0 where
  skipped : Turn
  wrote : RollbackEntry → Turn
  refused : MapError → Turn

pub Turn-cases :
    (t : Turn)
    → (t ≡ skipped) ⊎ ((e : RollbackEntry) × (t ≡ wrote e)) ⊎ ((e : MapError) × (t ≡ refused e))
Turn-cases skipped = inl refl
Turn-cases (wrote e) = inr (inl (e, refl))
Turn-cases (refused e) = inr (inr (e, refl))

module _ {W : Type 0} (K : KernelMaps W) (T : Texts) where
  -- The state before a write, for the rollback.
  unfoldable pub rollback_entry : HardenedWriter W → ℕ → IpAddr → RollbackEntry
  rollback_entry h now ip =
      let (blocked, prev, _) = is_blocked_ipv4 K h.mgr now ip in
      record { ip = ip; existed = blocked; entry = prev }

  -- One turn of the loop of WriteBatch.
  unfoldable pub write_one : HardenedWriter W → ℕ → BlockDecision → String → HardenedWriter W × Turn
  write_one h now d actor =
      let fingerprint = entry_fingerprint d.entry in
      let hit = is_some_of (cached h.dedup_cache (T.to_string d.ip)) fingerprint in
      let prev = rollback_entry h now d.ip in
      let (mgr', err) = block_ipv4 K h.mgr now d.ip d.entry actor in
      let written = record h { mgr = mgr' } in
      elim hit [
        | true ↦ (record h { dedupe_hits = wrap64 (h.dedupe_hits + 1) }, skipped)
        | false ↦ elim err [
          | some e ↦ (written, refused e)
          | none ↦ (remember written (T.to_string d.ip) fingerprint, wrote prev)
        ]
      ]

  -- The loop, up to its end or the first failed write, whose address and error it returns, with the
  -- writes that were made, the newest first.
  unfoldable pub write_all :
      HardenedWriter W
      → ℕ
      → List BlockDecision
      → String
      → List RollbackEntry
      → HardenedWriter W × List RollbackEntry × Option (IpAddr × MapError)
  write_all h now [] actor done = (h, done, none)
  write_all h now (d ∷ ds) actor done =
      let (h', t) = write_one h now d actor in
      elim t [
        | skipped ↦ write_all h' now ds actor done
        | wrote e ↦ write_all h' now ds actor (e ∷ done)
        | refused e ↦ (h', done, some (d.ip, e))
      ]

  -- One turn of the rollback; its error is ignored.
  unfoldable pub undo :
      HardenedWriter W → ℕ → RollbackEntry → String → HardenedWriter W × Option MapError
  undo h now e actor =
      if e.existed
      then (let (mgr', err) = block_ipv4 K h.mgr now e.ip e.entry (append_text actor "_rollback") in
          (record h { mgr = mgr' }, err))
      else (let (mgr', err) = unblock_ipv4 K h.mgr now e.ip (append_text actor "_rollback") in
          (
            record h {
              mgr = mgr';
              dedup_cache = uncache h.dedup_cache (T.to_string e.ip);
              blocklist_v4_count = pred h.blocklist_v4_count;
            },
            err,
          ))

  unfoldable pub rollback : HardenedWriter W → ℕ → List RollbackEntry → String → HardenedWriter W
  rollback h now [] actor = h
  rollback h now (e ∷ es) actor = rollback (undo h now e actor).0 now es actor

  -- The end of WriteBatch.
  unfoldable pub settle :
      HardenedWriter W × List RollbackEntry × Option (IpAddr × MapError)
      → ℕ
      → String
      → HardenedWriter W × Option WriteError
  settle (h, done, none) now actor =
      (record h { batch_commits = wrap64 (h.batch_commits + 1) }, none)
  settle (h, done, some (ip, e)) now actor =
      let h' = rollback h now done actor in
      (
        record h' { batch_rollbacks = wrap64 (h'.batch_rollbacks + 1) },
        some (batch_failed ip e (length done)),
      )

  unfoldable pub write_batch :
      HardenedWriter W → ℕ → List BlockDecision → String → HardenedWriter W × Option WriteError
  unfolding settle
  write_batch h now [] actor = (h, none)
  write_batch h now (d ∷ ds) actor =
      let n = length (d ∷ ds) in
      let h' = refreshed h now in
      let taken = record h' { window_count = h'.window_count + n } in
      let result = settle (write_all taken now (d ∷ ds) actor []) now actor in
      if ltb h'.window_max_ops (h'.window_count + n)
      then (
        record h' { window_drops = wrap64 (h'.window_drops + n) },
        some (batch_exceeds_window n),
      )
      else result

  -- One turn of the purge: a key that does not parse leaves the cache, and one whose address is not
  -- blocked leaves the cache and the count.
  unfoldable pub purge_key : HardenedWriter W → ℕ → String → HardenedWriter W
  purge_key h now key =
      let gone = record h { dedup_cache = uncache h.dedup_cache key } in
      elim (T.parse_ip key) [
        | none ↦ gone
        | some ip ↦
            if (is_blocked_ipv4 K h.mgr now ip).0
            then h
            else record gone { blocklist_v4_count = pred h.blocklist_v4_count }
      ]

  unfoldable pub purge_keys : HardenedWriter W → ℕ → List (String × ℕ) → HardenedWriter W
  purge_keys h now [] = h
  purge_keys h now ((key, _) ∷ c) = purge_keys (purge_key h now key) now c

  unfoldable pub purge_expired_dedup : HardenedWriter W → ℕ → HardenedWriter W
  unfolding purge_key purge_keys
  purge_expired_dedup h now = purge_keys h now h.dedup_cache
