-- ===== src/Bpfmaps/Hardening/Single.antt =====
-- A single write: what it leaves in the kernel, and the writes that the cache saves.
use Prim.Native.String.{String}
use text.Mathlib.TextPositions.{eq_refl}
use falx_v.Base.{ℕ, ◌+◌, ◌≡◌, inl, inr, true, false, none, some, arith, if◌then◌else◌, Bool-cases}
use falx_v.Base.Time.{unix}
use falx_v.Bpfmaps.Types.{IpAddr, BlockEntry}
use falx_v.Bpfmaps.Kernel.{KernelMaps, UpdateLaws}
use falx_v.Bpfmaps.Manager.{zero_entry, absolute, has_expired, block_ipv4, is_blocked_ipv4}
use falx_v.Bpfmaps.Manager.Blocklist.{block_ipv4-is_blocked_ipv4}
use falx_v.Bpfmaps.Hardening.{
  Texts, HardenedWriter, wrap64, entry_fingerprint, cached, cache, is_some_of, check_window,
  remember, write_through, hardened_block_ipv4,
}

module _ {W : Type 0} (K : KernelMaps W) (T : Texts) where
  -- The manager's call that an accepted write made.
  write_through-eq-none :
      (h h' : HardenedWriter W) (now : ℕ) (ip : IpAddr) (entry : BlockEntry) (actor : String)
      → write_through K T h now ip entry actor ≡ (h', none)
      → (block_ipv4 K h.mgr now ip entry actor ≡ (h'.mgr, none))
        × (cached h'.dedup_cache (T.to_string ip) ≡ some (entry_fingerprint entry))
  unfolding write_through remember cached cache
  write_through-eq-none h h' now ip entry actor e = ground (arith, eq_refl (T.to_string ip))

  accepted-eq-none :
      (h h' : HardenedWriter W) (now : ℕ) (ip : IpAddr) (entry : BlockEntry) (actor : String)
      → hardened_block_ipv4 K T h now ip entry actor ≡ (h', none)
      → is_some_of (cached h.dedup_cache (T.to_string ip)) (entry_fingerprint entry) ≡ false
      → write_through K T (check_window h now).0 now ip entry actor ≡ (h', none)
  unfolding hardened_block_ipv4
  accepted-eq-none h h' now ip entry actor e miss = ground arith

  -- A write that is accepted, of an entry whose fingerprint is not in the cache for its address, has
  -- blocked the address until the entry expires.
  pub hardened_block_ipv4-is_blocked_ipv4 :
      (h h' : HardenedWriter W) (now later : ℕ) (ip : IpAddr) (entry : BlockEntry) (actor : String)
      → UpdateLaws K.blocklist_v4
      → hardened_block_ipv4 K T h now ip entry actor ≡ (h', none)
      → is_some_of (cached h.dedup_cache (T.to_string ip)) (entry_fingerprint entry) ≡ false
      → is_blocked_ipv4 K h'.mgr later ip ≡ (
          if has_expired (absolute entry now) (unix later)
          then (false, zero_entry, none)
          else (true, absolute entry now, none))
  hardened_block_ipv4-is_blocked_ipv4 h h' now later ip entry actor laws e miss =
      let h₁ = (check_window h now).0 in
      let (b, _) =
        write_through-eq-none h₁ h' now ip entry actor
          (accepted-eq-none h h' now ip entry actor e miss) in
      block_ipv4-is_blocked_ipv4 K h₁.mgr h'.mgr now later ip entry actor laws b

  hit-again :
      (h : HardenedWriter W) (now : ℕ) (ip : IpAddr) (entry : BlockEntry) (actor : String)
      → is_some_of (cached h.dedup_cache (T.to_string ip)) (entry_fingerprint entry) ≡ true
      → hardened_block_ipv4 K T h now ip entry actor
        ≡ (record h { dedupe_hits = wrap64 (h.dedupe_hits + 1) }, none)
  unfolding hardened_block_ipv4
  hit-again h now ip entry actor hit = ground arith

  accepted-cached :
      (h h' : HardenedWriter W) (now : ℕ) (ip : IpAddr) (entry : BlockEntry) (actor : String)
      → hardened_block_ipv4 K T h now ip entry actor ≡ (h', none)
      → is_some_of (cached h'.dedup_cache (T.to_string ip)) (entry_fingerprint entry) ≡ true
  accepted-cached h h' now ip entry actor e =
      elim (Bool-cases
        (is_some_of (cached h.dedup_cache (T.to_string ip)) (entry_fingerprint entry))) [
          | inl hit ↦ let same = hit-again h now ip entry actor hit in ground arith
          | inr miss ↦
              let (_, c) =
                write_through-eq-none (check_window h now).0 h' now ip entry actor
                  (accepted-eq-none h h' now ip entry actor e miss) in
              ground arith
        ]

  -- A write that was accepted is not made a second time: the same address and entry are then
  -- accepted without a call of the manager, at any time, and only the hit is counted.
  pub hardened_block_ipv4-again :
      (h h' : HardenedWriter W) (now later : ℕ) (ip : IpAddr) (entry : BlockEntry)
      (actor other : String)
      → hardened_block_ipv4 K T h now ip entry actor ≡ (h', none)
      → hardened_block_ipv4 K T h' later ip entry other
        ≡ (record h' { dedupe_hits = wrap64 (h'.dedupe_hits + 1) }, none)
  hardened_block_ipv4-again h h' now later ip entry actor other e =
      hit-again h' later ip entry other (accepted-cached h h' now ip entry actor e)
