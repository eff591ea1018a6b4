-- ===== src/Bpfmaps/Hardening/Window.antt =====
-- The write window: no sequence of writes takes more than the window allows.
use Prim.Native.String.{String}
use falx_v.Base.{ℕ, ◌+◌, ◌≤◌, ◌≡◌, refl, List, [], ◌∷◌, Option, none, some, length, arith, inl, inr}
use falx_v.Base.Integers.{ℤ, positive_or}
use falx_v.Bpfmaps.Types.{IpAddr, BlockEntry}
use falx_v.Bpfmaps.Kernel.{KernelMaps}
use falx_v.Bpfmaps.Audit.{MapError}
use falx_v.Bpfmaps.Manager.{Manager}
use falx_v.Bpfmaps.Manager.More.{BlockDecision}
use falx_v.Bpfmaps.Hardening.{
  Texts, HardenedWriter, new_hardened_writer, refreshed, check_window, remember, write_through,
  hardened_block_ipv4,
}
use falx_v.Bpfmaps.Hardening.Batch.{
  RollbackEntry, Turn-cases, write_one, write_all, undo, rollback, settle, write_batch,
  purge_expired_dedup, purge_keys, purge_key,
}

pub data Call : Type 0 where
  call_block : (now : ℕ) → IpAddr → BlockEntry → String → Call
  call_batch : (now : ℕ) → List BlockDecision → String → Call
  call_purge : (now : ℕ) → Call

module _ {W : Type 0} (K : KernelMaps W) (T : Texts) where
  unfoldable pub call : HardenedWriter W → Call → HardenedWriter W
  call h (call_block now ip entry actor) = (hardened_block_ipv4 K T h now ip entry actor).0
  call h (call_batch now ds actor) = (write_batch K T h now ds actor).0
  call h (call_purge now) = purge_expired_dedup K T h now

  unfoldable pub calls : HardenedWriter W → List Call → HardenedWriter W
  calls h [] = h
  calls h (c ∷ cs) = calls (call h c) cs

  abbrev Windows : HardenedWriter W → HardenedWriter W → Type 0
  Windows h h' = (h'.window_count ≡ h.window_count) × (h'.window_max_ops ≡ h.window_max_ops)

  write_one-window :
      (h : HardenedWriter W) (now : ℕ) (d : BlockDecision) (actor : String)
      → Windows h (write_one K T h now d actor).0
  unfolding write_one remember
  write_one-window h now d actor = ground arith

  write_all-window :
      (ds : List BlockDecision) (h : HardenedWriter W) (now : ℕ) (actor : String)
      (done : List RollbackEntry)
      → Windows h (write_all K T h now ds actor done).0
  unfolding write_all
  write_all-window [] h now actor done = (refl, refl)
  write_all-window (d ∷ ds) h now actor done =
      let h' = (write_one K T h now d actor).0 in
      let one = write_one-window h now d actor in
      elim (Turn-cases (write_one K T h now d actor).1) [
        | inl e ↦ rw (e, write_all) (omega (arith, one, write_all-window ds h' now actor done))
        | inr (inl (r, e)) ↦
            rw (e, write_all) (omega (arith, one, write_all-window ds h' now actor (r ∷ done)))
        | inr (inr (r, e)) ↦ rw (e, write_all) one
      ]

  rollback-window :
      (es : List RollbackEntry) (h : HardenedWriter W) (now : ℕ) (actor : String)
      → Windows h (rollback K T h now es actor)
  unfolding rollback undo
  rollback-window [] h now actor = (refl, refl)
  rollback-window (e ∷ es) h now actor =
      ground (arith, rollback-window es (undo K T h now e actor).0 now actor)

  purge_keys-window :
      (c : List (String × ℕ)) (h : HardenedWriter W) (now : ℕ) → Windows h (purge_keys K T h now c)
  unfolding purge_keys purge_key
  purge_keys-window [] h now = (refl, refl)
  purge_keys-window ((key, _) ∷ c) h now =
      ground (arith, purge_keys-window c (purge_key K T h now key) now)

  settle-window :
      (h : HardenedWriter W) (done : List RollbackEntry) (o : Option (IpAddr × MapError)) (now : ℕ)
      (actor : String)
      → Windows h (settle K T (h, done, o) now actor).0
  unfolding settle
  settle-window h done none now actor = (refl, refl)
  settle-window h done (some (ip, e)) now actor = rollback-window done h now actor

  settled-window :
      (ds : List BlockDecision) (h : HardenedWriter W) (now : ℕ) (actor : String)
      → Windows h (settle K T (write_all K T h now ds actor []) now actor).0
  settled-window ds h now actor =
      let (h', done, o) = write_all K T h now ds actor [] in
      omega (arith, write_all-window ds h now actor [], settle-window h' done o now actor)

  write_batch-window :
      (h : HardenedWriter W) (ds : List BlockDecision) (now : ℕ) (actor : String)
      → h.window_count ≤ h.window_max_ops
      → ((write_batch K T h now ds actor).0.window_count
          ≤ (write_batch K T h now ds actor).0.window_max_ops)
        × ((write_batch K T h now ds actor).0.window_max_ops ≡ h.window_max_ops)
  unfolding write_batch refreshed
  write_batch-window h [] now actor w = (w, refl)
  write_batch-window h (d ∷ ds) now actor w =
      let h' = refreshed h now in
      ground (
        arith,
        settled-window (d ∷ ds) (record h' { window_count = h'.window_count + length (d ∷ ds) }) now
            actor,
      )

  call-window :
      (h : HardenedWriter W) (c : Call)
      → h.window_count ≤ h.window_max_ops
      → ((call h c).window_count ≤ (call h c).window_max_ops)
        × ((call h c).window_max_ops ≡ h.window_max_ops)
  unfolding call hardened_block_ipv4 check_window write_through refreshed remember write_batch
      purge_expired_dedup
  call-window h (call_block now ip entry actor) w = ground arith
  call-window h (call_batch now ds actor) w = write_batch-window h ds now actor w
  call-window h (call_purge now) w = omega (arith, purge_keys-window h.dedup_cache h now)

  calls-window :
      (cs : List Call) (h : HardenedWriter W)
      → h.window_count ≤ h.window_max_ops
      → ((calls h cs).window_count ≤ (calls h cs).window_max_ops)
        × ((calls h cs).window_max_ops ≡ h.window_max_ops)
  unfolding calls
  calls-window [] h w = (w, refl)
  calls-window (c ∷ cs) h w = omega (arith, call-window h c w, calls-window cs (call h c))

  -- However the writer is called, its window never counts more writes than the limit it was made
  -- with, or than 1000 where that was not positive.
  pub calls-new_hardened_writer :
      (cs : List Call) (mgr : Manager W) (max_ops max_entries : ℤ) (now : ℕ)
      → (calls (new_hardened_writer mgr max_ops max_entries now) cs).window_count
        ≤ positive_or 1000 max_ops
  unfolding new_hardened_writer
  calls-new_hardened_writer cs mgr max_ops max_entries now =
      omega (arith, calls-window cs (new_hardened_writer mgr max_ops max_entries now))
