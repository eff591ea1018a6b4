-- ===== src/Tests/Blocklist.antt =====
-- Blocking and unblocking one address.
use falx_v.Base.{◌+◌, ◌<◌, ◌≡◌, refl, ◌⊎◌, ◌↔◌, true, none, arith}
use falx_v.Base.Time.{unix}
use falx_v.Bpfmaps.RateLimiter.{check, allow, new_map_rate_limiter}
use falx_v.Bpfmaps.Types.{ipv4_to_uint32}
use falx_v.Bpfmaps.Manager.{Manager, block_ipv4, unblock_ipv4, is_blocked_ipv4, seen}
use falx_v.Bpfmaps.Manager.Blocklist.{block_ipv4-ttl}
use falx_v.Bpfmaps.Manager.Sweep.{sweep_blocklist}
use falx_v.Bpfmaps.Manager.Sweep.Views.{sweep_blocklist-seen}
use falx_v.Tests.World.{
  blocklist-EntriesLaws, World, kernel, blocklist, blocklist-UpdateLaws, blocklist-DeleteLaws,
}
use falx_v.Tests.Data.{at_second, attacker, one_minute, manager}

abbrev blocked : Manager World
blocked = (block_ipv4 kernel manager (at_second 1) attacker one_minute "ai-engine").0

blocked_ok :
    block_ipv4 kernel manager (at_second 1) attacker one_minute "ai-engine" ≡ (blocked, none)
unfolding block_ipv4 kernel blocklist ipv4_to_uint32 check allow new_map_rate_limiter
blocked_ok = refl

block_ipv4-ttl_example : ((is_blocked_ipv4 kernel blocked (at_second 30) attacker).0 ≡ true) ↔ (
    (one_minute.expire_at ≡ 0) ⊎ (unix (at_second 30) < unix (at_second 1) + one_minute.expire_at))
unfolding kernel unix
block_ipv4-ttl_example =
    block_ipv4-ttl kernel manager blocked (at_second 1) (at_second 30) attacker one_minute
      "ai-engine" blocklist-UpdateLaws blocked_ok (ground arith) (ground arith)

abbrev unblocked : Manager World
unblocked = (unblock_ipv4 kernel blocked (at_second 2) attacker "soc").0

unblocked_ok : unblock_ipv4 kernel blocked (at_second 2) attacker "soc" ≡ (unblocked, none)
unfolding block_ipv4 unblock_ipv4 kernel blocklist ipv4_to_uint32 check allow new_map_rate_limiter
unblocked_ok = refl

sweep_blocklist-seen_example :
    seen
      (blocklist.lookup
        (sweep_blocklist blocklist blocked.world (unix (at_second 99)) 0).0
        3_405_803_783)
      (at_second 99)
    ≡ seen (blocklist.lookup blocked.world 3_405_803_783) (at_second 99)
sweep_blocklist-seen_example =
    sweep_blocklist-seen blocklist blocklist-DeleteLaws blocked.world (unix (at_second 99)) 0
      3_405_803_783 (at_second 99) blocklist-EntriesLaws (omega arith)
