-- ===== src/Bpfmaps/Hardening/Rollback.antt =====
-- A batch that fails is taken back.
use Prim.Native.String.{String}
use falx_v.Base.{
  ℕ, ◌≡◌, ap, inl, inr, refl, Bool, List, [], ◌∷◌, Option, none, some, arith, Bool-cases,
  Option-cases,
}
use falx_v.Bpfmaps.Types.{IpAddr, BlockEntry, ipv4_to_uint32}
use falx_v.Bpfmaps.Kernel.{KernelMaps}
use falx_v.Bpfmaps.Audit.{MapError}
use falx_v.Bpfmaps.Manager.{Manager, absolute, seen, block_ipv4, is_blocked_ipv4}
use falx_v.Bpfmaps.Manager.Blocklist.{block_ipv4-eq-none, block_ipv4-eq-some}
use falx_v.Bpfmaps.Manager.More.{BlockDecision}
use falx_v.Bpfmaps.Hardening.{
  Texts, HardenedWriter, entry_fingerprint, cached, is_some_of, remember,
}
use falx_v.Bpfmaps.Hardening.Batch.{
  RollbackEntry, Turn, skipped, wrote, refused, Turn-cases, rollback_entry, write_one, write_all,
  undo,
}

module _ {W : Type 0} (K : KernelMaps W) (T : Texts) where
  -- What a lookup of the key says at the time.
  abbrev pub view : W → ℕ → ℕ → Bool × BlockEntry × Option MapError
  view w now key = seen (K.blocklist_v4.lookup w key) now

  -- The entry tells what the blocklist of `w` said of its address, whose key was then written.
  pub record Logged (w w' : W) (now : ℕ) (e : RollbackEntry) : Type 0 where
    pub key : ℕ
    pub key_of : ipv4_to_uint32 e.ip ≡ some key
    pub before : view w now key ≡ (e.existed, e.entry, none)
    pub written : BlockEntry
    pub update : K.blocklist_v4.update w key written ≡ some w'

  pub data Written (w : W) (now : ℕ) : List RollbackEntry → W → Type 0 where
    unwritten : Written w now [] w
    one_more :
        {e : RollbackEntry} {es : List RollbackEntry} {w₁ w₂ : W}
        → Written w now es w₁
        → Logged w₁ w₂ now e
        → Written w now (e ∷ es) w₂

  abbrev pub Effect : W → W → ℕ → Turn → Type 0
  Effect w w' now skipped = w' ≡ w
  Effect w w' now (wrote e) = Logged w w' now e
  Effect w w' now (refused e) = w' ≡ w

  seen-error : (o : Option BlockEntry) (now : ℕ) → (seen o now).2 ≡ none
  unfolding seen
  seen-error none now = refl
  seen-error (some e) now = ground arith

  before_entry :
      (h : HardenedWriter W) (now : ℕ) (ip : IpAddr) (key : ℕ)
      → ipv4_to_uint32 ip ≡ some key
      → view h.mgr.world now key
        ≡ ((rollback_entry K T h now ip).existed, (rollback_entry K T h now ip).entry, none)
  unfolding rollback_entry is_blocked_ipv4
  before_entry h now ip key e =
      let v = view h.mgr.world now key in
      rw (e, rollback_entry, is_blocked_ipv4)
        (ap (λ z. (v.0, v.1, z)) (seen-error (K.blocklist_v4.lookup h.mgr.world key) now))

  logged :
      (h : HardenedWriter W) (m : Manager W) (now : ℕ) (ip : IpAddr) (entry : BlockEntry)
      (actor : String)
      → block_ipv4 K h.mgr now ip entry actor ≡ (m, none)
      → Logged h.mgr.world m.world now (rollback_entry K T h now ip)
  unfolding rollback_entry
  logged h m now ip entry actor b =
      let (key, e, up) = block_ipv4-eq-none K h.mgr m now ip entry actor b in
      record {
        key = key;
        key_of = e;
        before = before_entry h now ip key e;
        written = absolute entry now;
        update = up;
      }

  write_one-Effect :
      (h : HardenedWriter W) (now : ℕ) (d : BlockDecision) (actor : String)
      → Effect h.mgr.world
          (write_one K T h now d actor).0.mgr.world
          now
          (write_one K T h now d actor).1
  unfolding remember write_one
  write_one-Effect h now d actor =
      let hit = is_some_of (cached h.dedup_cache (T.to_string d.ip)) (entry_fingerprint d.entry) in
      elim (Bool-cases hit) [
        | inl e ↦ rw (e, write_one) refl
        | inr e ↦ elim (Option-cases (block_ipv4 K h.mgr now d.ip d.entry actor).1) [
          | inl n ↦
              rw (e, n, write_one)
                (logged h (block_ipv4 K h.mgr now d.ip d.entry actor).0 now d.ip d.entry actor
                  (ap (λ z. ((block_ipv4 K h.mgr now d.ip d.entry actor).0, z)) n))
          | inr (x, n) ↦
              rw (e, n, write_one) (block_ipv4-eq-some K h.mgr now d.ip d.entry actor x n)
        ]
      ]

  Effect-at : (w w' : W) (now : ℕ) {t t' : Turn} → t ≡ t' → Effect w w' now t → Effect w w' now t'
  Effect-at w w' now e f = rw (← e) f

  pub write_all-Written :
      (w : W) (ds : List BlockDecision) (h : HardenedWriter W) (now : ℕ) (actor : String)
      (done : List RollbackEntry)
      → Written w now done h.mgr.world
      → Written w now
          (write_all K T h now ds actor done).1
          (write_all K T h now ds actor done).0.mgr.world
  unfolding write_all
  write_all-Written w [] h now actor done wr = wr
  write_all-Written w (d ∷ ds) h now actor done wr =
      let h' = (write_one K T h now d actor).0 in
      let f = write_one-Effect h now d actor in
      elim (Turn-cases (write_one K T h now d actor).1) [
        | inl e ↦
            rw (e, write_all)
              (write_all-Written w ds h' now actor done
                (rw (Effect-at h.mgr.world h'.mgr.world now e f) wr))
        | inr (inl (r, e)) ↦
            rw (e, write_all)
              (write_all-Written w ds h' now actor (r ∷ done)
                (one_more wr (Effect-at h.mgr.world h'.mgr.world now e f)))
        | inr (inr (r, e)) ↦ rw (e, write_all) (rw (Effect-at h.mgr.world h'.mgr.world now e f) wr)
      ]

  -- Every call of the rollback succeeds.
  abbrev pub Undone : HardenedWriter W → ℕ → List RollbackEntry → String → Type 0
  Undone h now [] actor = Unit
  Undone h now (e ∷ es) actor =
      ((undo K T h now e actor).1 ≡ none) × Undone (undo K T h now e actor).0 now es actor
