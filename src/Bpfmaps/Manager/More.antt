-- ===== src/Bpfmaps/Manager/More.antt =====
-- The other operations of control-plane/pkg/bpfmaps/manager.go: IPv6, the config map, the rate
-- buckets, the XSK map, and batches of block decisions.
use Prim.Native.String.{String}
use falx_v.Base.{ℕ, Bool, true, false, List, [], ◌∷◌, Option, none, some, map, if◌then◌else◌}
use falx_v.Bpfmaps.Types.{
  IpAddr, BlockEntry, RateBucket, FalxMapConfig, ipv4_to_uint32, ipv6_to_bytes,
}
use falx_v.Bpfmaps.RateLimiter.{op_block_ip, op_unblock_ip, op_update_config, op_rate_limit, check}
use falx_v.Bpfmaps.Kernel.{KernelMaps}
use falx_v.Bpfmaps.Audit.{
  MapError, rate_limited, invalid_ipv4, invalid_ipv6, update_failed, delete_failed, block_ip,
  unblock_ip, config_update, log,
}
use falx_v.Bpfmaps.Manager.{Manager, absolute, write_block}

abbrev pub zero_bucket : RateBucket
zero_bucket = record { tokens = 0; last_refill = 0; capacity = 0; refill_rate = 0; drop_count = 0 }

pub record BlockDecision : Type 0 where
  pub ip : IpAddr
  pub entry : BlockEntry

-- The world after a call of the kernel, and its error.
after : {W : Type 0} → W → Option W → MapError → W × Option MapError
after w none e = (w, some e)
after w (some w') e = (w', none)

module _ {W : Type 0} (K : KernelMaps W) where
  unfoldable pub block_ipv6 :
      Manager W → ℕ → IpAddr → BlockEntry → String → Manager W × Option MapError
  unfolding after
  block_ipv6 m now ip entry actor =
      let (rl', allowed) = check m.rl op_block_ip now in
      let m' = record m { rl = rl' } in
      if allowed
      then elim (ipv6_to_bytes ip) [
        | none ↦ (m', some invalid_ipv6)
        | some key ↦
            let entry' = absolute entry now in
            let (w, err) = after m.world (K.blocklist_v6.update m.world key entry') update_failed in
            (record m' { world = w; audit = log m.audit now (block_ip ip entry' actor err) }, err)
      ]
      else (m', some (rate_limited op_block_ip))

  unfoldable pub unblock_ipv6 : Manager W → ℕ → IpAddr → String → Manager W × Option MapError
  unfolding after
  unblock_ipv6 m now ip actor =
      let (rl', allowed) = check m.rl op_unblock_ip now in
      let m' = record m { rl = rl' } in
      if allowed
      then elim (ipv6_to_bytes ip) [
        | none ↦ (m', some invalid_ipv6)
        | some key ↦
            let (w, err) = after m.world (K.blocklist_v6.delete m.world key) delete_failed in
            (record m' { world = w; audit = log m.audit now (unblock_ip ip actor err) }, err)
      ]
      else (m', some (rate_limited op_unblock_ip))

  unfoldable pub update_config :
      Manager W → ℕ → FalxMapConfig → String → Manager W × Option MapError
  unfolding after
  update_config m now cfg actor =
      let (rl', allowed) = check m.rl op_update_config now in
      let m' = record m { rl = rl' } in
      if allowed
      then (let (w, err) = after m.world (K.config_map.update m.world 0 cfg) update_failed in
          (record m' { world = w; audit = log m.audit now (config_update actor err) }, err))
      else (
        record m' {
          audit = log m.audit now (config_update actor (some (rate_limited op_update_config)));
        },
        some (rate_limited op_update_config),
      )

  -- A key that is not there is no error.
  unfoldable pub reset_rate_bucket : Manager W → ℕ → IpAddr → String → Manager W × Option MapError
  unfolding after
  reset_rate_bucket m now ip actor =
      let (rl', allowed) = check m.rl op_rate_limit now in
      let m' = record m { rl = rl' } in
      if allowed
      then elim (ipv4_to_uint32 ip) [
        | none ↦ (m', some invalid_ipv4)
        | some key ↦ (
          record m' {
            world = (after m.world (K.rate_limit_map.delete m.world key) delete_failed).0;
          },
          none,
        )
      ]
      else (m', some (rate_limited op_rate_limit))

  unfoldable pub read_rate_bucket : Manager W → IpAddr → RateBucket × Bool × Option MapError
  read_rate_bucket m ip = elim (ipv4_to_uint32 ip) [
    | none ↦ (zero_bucket, false, some invalid_ipv4)
    | some key ↦ elim (K.rate_limit_map.lookup m.world key) [
      | none ↦ (zero_bucket, false, none)
      | some bucket ↦ (bucket, true, none)
    ]
  ]

  unfoldable pub register_xsk : Manager W → ℕ → ℕ → Manager W × Option MapError
  unfolding after
  register_xsk m queue_id fd =
      let (w, err) = after m.world (K.xsk_map.update m.world queue_id fd) update_failed in
      (record m { world = w }, err)

  -- One turn of the batch loop.
  block_decision : Manager W → ℕ → BlockDecision → String → Manager W × Option MapError
  unfolding write_block
  block_decision m now d actor = elim (ipv4_to_uint32 d.ip) [
    | none ↦ (m, some invalid_ipv4)
    | some key ↦ write_block K m now key d.ip (absolute d.entry now) actor
  ]

  block_loop : Manager W → ℕ → List BlockDecision → String → Manager W × List (Option MapError)
  block_loop m now [] actor = (m, [])
  block_loop m now (d ∷ ds) actor =
      let (m', err) = block_decision m now d actor in
      let (m'', errs) = block_loop m' now ds actor in (m'', err ∷ errs)

  unfoldable pub block_ipv4_batch :
      Manager W → ℕ → List BlockDecision → String → Manager W × List (Option MapError)
  unfolding block_loop block_decision
  block_ipv4_batch m now decisions actor =
      let (rl', allowed) = check m.rl op_block_ip now in
      let m' = record m { rl = rl' } in
      if allowed
      then block_loop m' now decisions actor
      else (m', map (λ _. some (rate_limited op_block_ip)) decisions)
