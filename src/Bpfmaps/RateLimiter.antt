-- ===== src/Bpfmaps/RateLimiter.antt =====
-- The map write limiter, control-plane/pkg/bpfmaps/ratelimiter.go. Tokens are counted in units of
-- 10⁻⁹ of a token, so that a bucket of `rps` tokens a second gains `rps` units in a nanosecond. The
-- source counts in float64, whose rounding is left out here, so that over many calls its buckets may
-- hold a little more or less than these. `now` is what time.Now() gives, and does not run backwards.
use falx_v.Base.{ℕ, ◌+◌, ◌-◌, ◌*◌, Bool, true, false, ltb, if◌then◌else◌}

pub data MapOpType : Type 0 where
  op_block_ip op_unblock_ip op_update_config op_failsafe op_rate_limit : MapOpType

-- One token, in units.
abbrev pub token : ℕ
token = 1_000_000_000

pub record TokenBucket : Type 0 where
  pub tokens : ℕ
  pub capacity : ℕ
  pub refill_rate : ℕ
  pub last_refill : ℕ
  pub dropped : ℕ
  pub accepted : ℕ

unfoldable pub new_token_bucket : ℕ → ℕ → TokenBucket
new_token_bucket rps now = record {
  tokens = rps * token;
  capacity = rps * token;
  refill_rate = rps;
  last_refill = now;
  dropped = 0;
  accepted = 0;
}

unfoldable pub refilled : TokenBucket → ℕ → ℕ
refilled b now =
    let tokens = b.tokens + (now - b.last_refill) * b.refill_rate in
    if ltb b.capacity tokens then b.capacity else tokens

unfoldable pub allow : TokenBucket → ℕ → TokenBucket × Bool
unfolding refilled
allow b now =
    let tokens = refilled b now in
    if ltb tokens token
    then (record b { tokens = tokens; last_refill = now; dropped = b.dropped + 1 }, false)
    else (record b { tokens = tokens - token; last_refill = now; accepted = b.accepted + 1 }, true)

pub record RateLimitConfig : Type 0 where
  pub block_ip_rps : ℕ
  pub unblock_ip_rps : ℕ
  pub update_config_rps : ℕ
  pub failsafe_rps : ℕ
  pub rate_limit_rps : ℕ

abbrev pub default_rate_limit_config : RateLimitConfig
default_rate_limit_config = record {
  block_ip_rps = 10_000;
  unblock_ip_rps = 10_000;
  update_config_rps = 100;
  failsafe_rps = 10;
  rate_limit_rps = 5_000;
}

-- The map from operations to buckets has an entry for each operation.
pub record MapRateLimiter : Type 0 where
  pub block_ip : TokenBucket
  pub unblock_ip : TokenBucket
  pub update_config : TokenBucket
  pub failsafe : TokenBucket
  pub rate_limit : TokenBucket

unfoldable pub new_map_rate_limiter : RateLimitConfig → ℕ → MapRateLimiter
unfolding new_token_bucket
new_map_rate_limiter cfg now = record {
  block_ip = new_token_bucket cfg.block_ip_rps now;
  unblock_ip = new_token_bucket cfg.unblock_ip_rps now;
  update_config = new_token_bucket cfg.update_config_rps now;
  failsafe = new_token_bucket cfg.failsafe_rps now;
  rate_limit = new_token_bucket cfg.rate_limit_rps now;
}

abbrev pub bucket : MapOpType → MapRateLimiter → TokenBucket
bucket op_block_ip r = r.block_ip
bucket op_unblock_ip r = r.unblock_ip
bucket op_update_config r = r.update_config
bucket op_failsafe r = r.failsafe
bucket op_rate_limit r = r.rate_limit

set_bucket : MapOpType → TokenBucket → MapRateLimiter → MapRateLimiter
set_bucket op_block_ip b r = record r { block_ip = b }
set_bucket op_unblock_ip b r = record r { unblock_ip = b }
set_bucket op_update_config b r = record r { update_config = b }
set_bucket op_failsafe b r = record r { failsafe = b }
set_bucket op_rate_limit b r = record r { rate_limit = b }

-- `true` stands for the nil error.
unfoldable pub check : MapRateLimiter → MapOpType → ℕ → MapRateLimiter × Bool
unfolding set_bucket
check r op now = let (b, allowed) = allow (bucket op r) now in (set_bucket op b r, allowed)
