-- ===== src/Bpfmaps/Manager/Blocklist.antt =====
-- What the blocklist operations of the manager do to later lookups.
use Prim.Native.String.{String}
use falx_v.Base.{
  refl, ℕ, ◌+◌, ◌^◌, ◌<◌, ◌≡◌, ◌≢◌, ◌⊎◌, inl, inr, ◌↔◌, true, false, none, some, if◌then◌else◌,
  Option-cases, arith,
}
use falx_v.Base.Time.{unix}
use falx_v.Bpfmaps.Types.{IpAddr, BlockEntry, ipv4_to_uint32}
use falx_v.Bpfmaps.Kernel.{KernelMaps, UpdateLaws, DeleteLaws}
use falx_v.Bpfmaps.Audit.{MapError}
use falx_v.Bpfmaps.Manager.{
  Manager, zero_entry, absolute, has_expired, block_ipv4, unblock_ipv4, seen, is_blocked_ipv4,
}

module _ {W : Type 0} (K : KernelMaps W) where
  -- A block that reports success has written the entry under the address's key.
  pub block_ipv4-eq-none :
      (m m' : Manager W) (now : ℕ) (ip : IpAddr) (entry : BlockEntry) (actor : String)
      → block_ipv4 K m now ip entry actor ≡ (m', none)
      → (key : ℕ) × (ipv4_to_uint32 ip ≡ some key)
        × (K.blocklist_v4.update m.world key (absolute entry now) ≡ some m'.world)
  unfolding block_ipv4
  block_ipv4-eq-none m m' now ip entry actor h = elim (Option-cases (ipv4_to_uint32 ip)) [
    | inl e ↦ absurd (ground arith)
    | inr (key, e) ↦ (key, e, ground arith)
  ]

  -- A blocklist operation that reports an error leaves the kernel's maps as they were.
  pub block_ipv4-eq-some :
      (m : Manager W) (now : ℕ) (ip : IpAddr) (entry : BlockEntry) (actor : String) (e : MapError)
      → (block_ipv4 K m now ip entry actor).1 ≡ some e
      → (block_ipv4 K m now ip entry actor).0.world ≡ m.world
  unfolding block_ipv4
  block_ipv4-eq-some m now ip entry actor e h = ground arith

  -- After a block that reported success, a lookup of the same address at any later time finds it
  -- blocked, with the entry that was given and its expiry made absolute, until the expiry.
  pub block_ipv4-is_blocked_ipv4 :
      (m m' : Manager W) (now later : ℕ) (ip : IpAddr) (entry : BlockEntry) (actor : String)
      → UpdateLaws K.blocklist_v4
      → block_ipv4 K m now ip entry actor ≡ (m', none)
      → is_blocked_ipv4 K m' later ip ≡ (
          if has_expired (absolute entry now) (unix later)
          then (false, zero_entry, none)
          else (true, absolute entry now, none))
  unfolding is_blocked_ipv4
  block_ipv4-is_blocked_ipv4 m m' now later ip entry actor laws h =
      let (key, e, up) = block_ipv4-eq-none m m' now ip entry actor h in
      rw (e, is_blocked_ipv4)
        (rw (laws.lookup-update m.world m'.world key (absolute entry now) up, seen))

  -- After a block that reported success, with a time to live below 10⁹ seconds and an expiry that
  -- fits 64 bits, a lookup reports the address as blocked at exactly the times before that many
  -- seconds have gone by, and at all times if the time to live is zero.
  pub block_ipv4-ttl :
      (m m' : Manager W) (now later : ℕ) (ip : IpAddr) (entry : BlockEntry) (actor : String)
      → UpdateLaws K.blocklist_v4
      → block_ipv4 K m now ip entry actor ≡ (m', none)
      → entry.expire_at < 1_000_000_000
      → unix now + entry.expire_at < 2 ^ 64
      → ((is_blocked_ipv4 K m' later ip).0 ≡ true)
        ↔ ((entry.expire_at ≡ 0) ⊎ (unix later < unix now + entry.expire_at))
  unfolding absolute has_expired
  block_ipv4-ttl m m' now later ip entry actor laws h small fits =
      rw (block_ipv4-is_blocked_ipv4 m m' now later ip entry actor laws h)
        ((λ e. ground arith), λ e. ground arith)

  -- For an address with another key, a lookup after a block that reported success says what it
  -- would have said before it, or that the address is not blocked, where the kernel has evicted
  -- its entry to make room.
  pub block_ipv4-other :
      (m m' : Manager W) (now later : ℕ) (ip other : IpAddr) (entry : BlockEntry) (actor : String)
      → UpdateLaws K.blocklist_v4
      → block_ipv4 K m now ip entry actor ≡ (m', none)
      → ipv4_to_uint32 other ≢ ipv4_to_uint32 ip
      → (is_blocked_ipv4 K m' later other ≡ is_blocked_ipv4 K m later other)
        ⊎ (is_blocked_ipv4 K m' later other ≡ (false, zero_entry, none))
  unfolding is_blocked_ipv4 seen
  block_ipv4-other m m' now later ip other entry actor laws h ne =
      let (key, e, up) = block_ipv4-eq-none m m' now ip entry actor h in
      elim (Option-cases (ipv4_to_uint32 other)) [
        | inl none_e ↦ inl (rw (none_e, is_blocked_ipv4) refl)
        | inr (k, ek) ↦
            let kept =
              laws.lookup-update_ne m.world m'.world key k (absolute entry now) up
                (λ p. ne (ground arith)) in
            ground arith
      ]

  pub unblock_ipv4-eq-none :
      (m m' : Manager W) (now : ℕ) (ip : IpAddr) (actor : String)
      → unblock_ipv4 K m now ip actor ≡ (m', none)
      → (key : ℕ) × (ipv4_to_uint32 ip ≡ some key)
        × (K.blocklist_v4.delete m.world key ≡ some m'.world)
  unfolding unblock_ipv4
  unblock_ipv4-eq-none m m' now ip actor h = elim (Option-cases (ipv4_to_uint32 ip)) [
    | inl e ↦ absurd (ground arith)
    | inr (key, e) ↦ (key, e, ground arith)
  ]

  -- After an unblock that reported success, the address is not blocked at any time.
  pub unblock_ipv4-is_blocked_ipv4 :
      (m m' : Manager W) (now later : ℕ) (ip : IpAddr) (actor : String)
      → DeleteLaws K.blocklist_v4
      → unblock_ipv4 K m now ip actor ≡ (m', none)
      → is_blocked_ipv4 K m' later ip ≡ (false, zero_entry, none)
  unfolding is_blocked_ipv4
  unblock_ipv4-is_blocked_ipv4 m m' now later ip actor laws h =
      let (key, e, up) = unblock_ipv4-eq-none m m' now ip actor h in
      rw (e, is_blocked_ipv4) (rw (laws.lookup-delete m.world m'.world key up, seen))
