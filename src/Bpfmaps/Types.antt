-- ===== src/Bpfmaps/Types.antt =====
-- The map values and address helpers, control-plane/pkg/bpfmaps/types.go. An unsigned integer is
-- a natural number below its bound; padding is left out. A net.IP is the list of its bytes, and
-- the nil address is the empty list.
pub mod Stats
pub mod Addresses
use falx_v.Base.{
  ℕ, ◌+◌, ◌-◌, ◌*◌, ◌/◌, ◌%◌, ◌^◌, Bool, true, false, ◌&&◌, List, [], ◌∷◌, Option, none, some, ltb,
  ◌==◌, if◌then◌else◌, length,
}

abbrev pub max_u64 : ℕ
max_u64 = 18_446_744_073_709_551_615

abbrev pub IpAddr : Type 0
IpAddr = List ℕ

pub record BlockEntry : Type 0 where
  pub expire_at : ℕ
  pub action : ℕ
  pub rule_id : ℕ
  pub threat_score : ℕ
  pub reason : ℕ

pub record RateBucket : Type 0 where
  pub tokens : ℕ
  pub last_refill : ℕ
  pub capacity : ℕ
  pub refill_rate : ℕ
  pub drop_count : ℕ

pub record MappedXdpStats : Type 0 where
  pub rx_packets : ℕ
  pub rx_bytes : ℕ
  pub dropped : ℕ
  pub dropped_bytes : ℕ
  pub passed : ℕ
  pub passed_bytes : ℕ

pub record XdpStats : Type 0 where
  pub rx_packets : ℕ
  pub rx_bytes : ℕ
  pub dropped : ℕ
  pub rate_limited : ℕ
  pub passed : ℕ
  pub redirected : ℕ
  pub failsafe_drops : ℕ
  pub parse_errors : ℕ
  pub map_errors : ℕ
  pub cooling_bans : ℕ
  pub syn_flood_bans : ℕ
  pub last_reset_ns : ℕ

pub record FailsafeState : Type 0 where
  pub circuit_open : ℕ
  pub current_pps : ℕ
  pub current_bps : ℕ
  pub open_since_ns : ℕ
  pub pps_threshold : ℕ
  pub bps_threshold : ℕ
  pub window_start_ns : ℕ

pub record FalxMapConfig : Type 0 where
  pub default_action : ℕ
  pub rate_limit_enabled : ℕ
  pub failsafe_enabled : ℕ
  pub afxdp_redirect : ℕ
  pub rate_capacity : ℕ
  pub rate_refill_ns : ℕ
  pub honeypot_ip : ℕ
  pub honeypot_port : ℕ

abbrev pub action_pass : ℕ
action_pass = 1

abbrev pub action_drop : ℕ
action_drop = 2

abbrev pub action_redirect : ℕ
action_redirect = 3

abbrev pub action_rate_limit : ℕ
action_rate_limit = 4

abbrev pub reason_ai_verdict : ℕ
reason_ai_verdict = 5

-- `^b` is `max_u64 - b`.
unfoldable pub safe_add : ℕ → ℕ → ℕ
safe_add a b = if ltb (max_u64 - b) a then max_u64 else a + b

max_of : ℕ → ℕ → ℕ
max_of a b = if ltb b a then a else b

unfoldable pub add_mapped : MappedXdpStats → MappedXdpStats → MappedXdpStats
add_mapped a b = record {
  rx_packets = safe_add a.rx_packets b.rx_packets;
  rx_bytes = safe_add a.rx_bytes b.rx_bytes;
  dropped = safe_add a.dropped b.dropped;
  dropped_bytes = safe_add a.dropped_bytes b.dropped_bytes;
  passed = safe_add a.passed b.passed;
  passed_bytes = safe_add a.passed_bytes b.passed_bytes;
}

unfoldable pub add_stats : XdpStats → XdpStats → XdpStats
unfolding max_of
add_stats a b = record {
  rx_packets = safe_add a.rx_packets b.rx_packets;
  rx_bytes = safe_add a.rx_bytes b.rx_bytes;
  dropped = safe_add a.dropped b.dropped;
  rate_limited = safe_add a.rate_limited b.rate_limited;
  passed = safe_add a.passed b.passed;
  redirected = safe_add a.redirected b.redirected;
  failsafe_drops = safe_add a.failsafe_drops b.failsafe_drops;
  parse_errors = safe_add a.parse_errors b.parse_errors;
  map_errors = safe_add a.map_errors b.map_errors;
  cooling_bans = safe_add a.cooling_bans b.cooling_bans;
  syn_flood_bans = safe_add a.syn_flood_bans b.syn_flood_bans;
  last_reset_ns = max_of a.last_reset_ns b.last_reset_ns;
}

-- net.IP.To4: an address of four bytes, or the last four of a v4-mapped one.
unfoldable pub to4 : IpAddr → Option IpAddr
to4 (a ∷ b ∷ c ∷ d ∷ []) = some (a ∷ b ∷ c ∷ d ∷ [])
to4 (z0 ∷ z1 ∷ z2 ∷ z3 ∷ z4 ∷ z5 ∷ z6 ∷ z7 ∷ z8 ∷ z9 ∷ m ∷ n ∷ a ∷ b ∷ c ∷ d ∷ []) =
    if z0 + z1 + z2 + z3 + z4 + z5 + z6 + z7 + z8 + z9 == 0 && m == 255 && n == 255
    then some (a ∷ b ∷ c ∷ d ∷ [])
    else none
to4 _ = none

-- binary.BigEndian.Uint32.
unfoldable pub big_endian_uint32 : IpAddr → Option ℕ
big_endian_uint32 (a ∷ b ∷ c ∷ d ∷ _) = some (a * 2 ^ 24 + b * 2 ^ 16 + c * 2 ^ 8 + d)
big_endian_uint32 _ = none

-- `none` is the error "not an IPv4 address".
unfoldable pub ipv4_to_uint32 : IpAddr → Option ℕ
unfolding to4 big_endian_uint32
ipv4_to_uint32 ip = elim (to4 ip) [ none ↦ none | some ip4 ↦ big_endian_uint32 ip4 ]

unfoldable pub uint32_to_ipv4 : ℕ → IpAddr
uint32_to_ipv4 n = (n / 2 ^ 24 % 256) ∷ (n / 2 ^ 16 % 256) ∷ (n / 2 ^ 8 % 256) ∷ (n % 256) ∷ []

-- net.IP.To16 into [16]byte; `none` is the error "invalid IPv6 address".
unfoldable pub ipv6_to_bytes : IpAddr → Option IpAddr
ipv6_to_bytes (a ∷ b ∷ c ∷ d ∷ []) =
    some (0 ∷ 0 ∷ 0 ∷ 0 ∷ 0 ∷ 0 ∷ 0 ∷ 0 ∷ 0 ∷ 0 ∷ 255 ∷ 255 ∷ a ∷ b ∷ c ∷ d ∷ [])
ipv6_to_bytes ip = if length ip == 16 then some ip else none
