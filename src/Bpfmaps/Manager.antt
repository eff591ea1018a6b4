-- ===== src/Bpfmaps/Manager.antt =====
-- The map manager, control-plane/pkg/bpfmaps/manager.go, over the kernel's maps as a parameter.
-- An operation returns the new manager and its error, `none` for nil. `now` is what time.Now()
-- gives in the call.
pub mod More
pub mod Sweep
pub mod Blocklist
pub mod Circuit
pub mod Merge
use Prim.Native.String.{String}
use falx_v.Base.{
  ℕ, zero, suc, ◌+◌, ◌%◌, ◌^◌, Bool, true, false, not, ◌&&◌, List, [], ◌∷◌, Option, none, some, leb,
  ltb, ◌==◌, if◌then◌else◌,
}
use falx_v.Base.Time.{unix, unix_nano}
use falx_v.Failsafe.Reason.{Reason}
use falx_v.Bpfmaps.Types.{
  IpAddr, BlockEntry, XdpStats, MappedXdpStats, FailsafeState, FalxMapConfig, ipv4_to_uint32,
  add_stats, add_mapped,
}
use falx_v.Bpfmaps.Types.Stats.{aggregate}
use falx_v.Bpfmaps.RateLimiter.{
  MapOpType, op_block_ip, op_unblock_ip, op_update_config, op_failsafe, op_rate_limit,
  MapRateLimiter, check,
}
use falx_v.Bpfmaps.Kernel.{BpfMap, KernelMaps}
use falx_v.Bpfmaps.Audit.{
  MapError, rate_limited, invalid_ipv4, lookup_failed, update_failed, delete_failed, iterate_failed,
  AuditEvent, block_ip, unblock_ip, circuit_breaker, config_update, AuditLogger, log,
}

pub record Manager (W : Type 0) : Type 0 where
  pub world : W
  pub rl : MapRateLimiter
  pub audit : AuditLogger

abbrev pub zero_entry : BlockEntry
zero_entry = record { expire_at = 0; action = 0; rule_id = 0; threat_score = 0; reason = 0 }

abbrev pub zero_stats : XdpStats
zero_stats = record {
  rx_packets = 0;
  rx_bytes = 0;
  dropped = 0;
  rate_limited = 0;
  passed = 0;
  redirected = 0;
  failsafe_drops = 0;
  parse_errors = 0;
  map_errors = 0;
  cooling_bans = 0;
  syn_flood_bans = 0;
  last_reset_ns = 0;
}

abbrev pub zero_mapped : MappedXdpStats
zero_mapped = record {
  rx_packets = 0;
  rx_bytes = 0;
  dropped = 0;
  dropped_bytes = 0;
  passed = 0;
  passed_bytes = 0;
}

-- A small expiry is a time to live in seconds from now.
unfoldable pub absolute : BlockEntry → ℕ → BlockEntry
absolute entry now =
    if ltb 0 entry.expire_at && ltb entry.expire_at 1_000_000_000
    then record entry { expire_at = (unix now + entry.expire_at) % 2 ^ 64 }
    else entry

-- An entry has run out.
unfoldable pub has_expired : BlockEntry → ℕ → Bool
has_expired entry now_sec = not (entry.expire_at == 0) && leb entry.expire_at now_sec

-- The counters of the hot path come from one map, and the others from the other.
merged : MappedXdpStats → XdpStats → XdpStats
merged hot cold = record cold {
  rx_packets = hot.rx_packets;
  rx_bytes = hot.rx_bytes;
  dropped = hot.dropped;
  passed = hot.passed;
}

-- What a lookup that succeeded says of the address.
unfoldable pub seen : Option BlockEntry → ℕ → Bool × BlockEntry × Option MapError
seen none now = (false, zero_entry, none)
seen (some entry) now =
    if has_expired entry (unix now) then (false, zero_entry, none) else (true, entry, none)

module _ {W : Type 0} (K : KernelMaps W) where
  -- Update of BLOCKLIST_V4, with its audit event.
  write_block : Manager W → ℕ → ℕ → IpAddr → BlockEntry → String → Manager W × Option MapError
  write_block m now key ip entry actor = elim (K.blocklist_v4.update m.world key entry) [
    | none ↦ (
      record m { audit = log m.audit now (block_ip ip entry actor (some update_failed)) },
      some update_failed,
    )
    | some w ↦
        (record m { world = w; audit = log m.audit now (block_ip ip entry actor none) }, none)
  ]

  unfoldable pub block_ipv4 :
      Manager W → ℕ → IpAddr → BlockEntry → String → Manager W × Option MapError
  unfolding write_block
  block_ipv4 m now ip entry actor =
      let (rl', allowed) = check m.rl op_block_ip now in
      let m' = record m { rl = rl' } in
      if allowed
      then elim (ipv4_to_uint32 ip) [
        | none ↦ (m', some invalid_ipv4)
        | some key ↦ write_block m' now key ip (absolute entry now) actor
      ]
      else (
        record m' {
          audit = log m'.audit now (block_ip ip entry actor (some (rate_limited op_block_ip)));
        },
        some (rate_limited op_block_ip),
      )

  erase_block : Manager W → ℕ → ℕ → IpAddr → String → Manager W × Option MapError
  erase_block m now key ip actor = elim (K.blocklist_v4.delete m.world key) [
    | none ↦ (
      record m { audit = log m.audit now (unblock_ip ip actor (some delete_failed)) },
      some delete_failed,
    )
    | some w ↦ (record m { world = w; audit = log m.audit now (unblock_ip ip actor none) }, none)
  ]

  unfoldable pub unblock_ipv4 : Manager W → ℕ → IpAddr → String → Manager W × Option MapError
  unfolding erase_block
  unblock_ipv4 m now ip actor =
      let (rl', allowed) = check m.rl op_unblock_ip now in
      let m' = record m { rl = rl' } in
      if allowed
      then elim (ipv4_to_uint32 ip) [
        | none ↦ (m', some invalid_ipv4)
        | some key ↦ erase_block m' now key ip actor
      ]
      else (
        record m' {
          audit = log m'.audit now (unblock_ip ip actor (some (rate_limited op_unblock_ip)));
        },
        some (rate_limited op_unblock_ip),
      )

  unfoldable pub is_blocked_ipv4 : Manager W → ℕ → IpAddr → Bool × BlockEntry × Option MapError
  unfolding seen
  is_blocked_ipv4 m now ip = elim (ipv4_to_uint32 ip) [
    | none ↦ (false, zero_entry, some invalid_ipv4)
    | some key ↦ seen (K.blocklist_v4.lookup m.world key) now
  ]

  -- `none` is the error of a failed lookup.
  unfoldable pub read_stats : Manager W → Option XdpStats
  unfolding merged
  read_stats m = elim (K.xdp_stats m.world) [
    | none ↦ none
    | some cold_per_cpu ↦ elim (K.mapped_stats m.world) [
      | none ↦ none
      | some hot_per_cpu ↦
          let cold = aggregate add_stats zero_stats cold_per_cpu in
          let hot = aggregate add_mapped zero_mapped hot_per_cpu in some (merged hot cold)
    ]
  ]

  unfoldable pub read_failsafe_state : Manager W → Option FailsafeState
  read_failsafe_state m = K.failsafe_state.lookup m.world 0

  -- The fields that the open or closed circuit has.
  switched : FailsafeState → ℕ → Bool → FailsafeState
  switched state now true = record state { circuit_open = 1; open_since_ns = unix_nano now }
  switched state now false = record state {
    circuit_open = 0;
    open_since_ns = 0;
    current_pps = 0;
    current_bps = 0;
  }

  write_circuit : Manager W → ℕ → Bool → Reason → FailsafeState → Manager W × Option MapError
  write_circuit m now open' reason state =
      let audit' = log m.audit now (circuit_breaker open' state.current_pps reason) in
      elim (K.failsafe_state.update m.world 0 state) [
        | none ↦ (record m { audit = audit' }, some update_failed)
        | some w ↦ (record m { world = w; audit = audit' }, none)
      ]

  unfoldable pub set_circuit_open : Manager W → ℕ → Bool → Reason → Manager W × Option MapError
  unfolding switched write_circuit read_failsafe_state
  set_circuit_open m now open' reason =
      let (rl', allowed) = check m.rl op_failsafe now in
      let m' = record m { rl = rl' } in
      if allowed
      then elim (read_failsafe_state m') [
        | none ↦ (m', some lookup_failed)
        | some state ↦ write_circuit m' now open' reason (switched state now open')
      ]
      else (m', some (rate_limited op_failsafe))

  -- The source holds no lock between the read and the write; here nothing comes between them.
  unfoldable pub update_failsafe_thresholds : Manager W → ℕ → ℕ → ℕ → Manager W × Option MapError
  unfolding read_failsafe_state
  update_failsafe_thresholds m now pps_thr bps_thr =
      let (rl', allowed) = check m.rl op_failsafe now in
      let m' = record m { rl = rl' } in
      if allowed
      then elim (read_failsafe_state m') [
        | none ↦ (m', some lookup_failed)
        | some state ↦
            elim (K.failsafe_state.update m.world 0
              (record state { pps_threshold = pps_thr; bps_threshold = bps_thr })) [
                | none ↦ (m', some update_failed)
                | some w ↦ (record m' { world = w }, none)
              ]
      ]
      else (m', some (rate_limited op_failsafe))
