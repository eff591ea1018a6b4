-- ===== src/Tests/Hardening.antt =====
-- Runs of the hardened writer.
use Prim.Native.String.{String}
use falx_v.Base.{◌≡◌, ◌≤◌, ◌*◌, ◌/◌, refl, false, List, [], ◌∷◌, none}
use falx_v.Base.Integers.{pos}
use falx_v.Bpfmaps.Types.{IpAddr, ipv4_to_uint32}
use falx_v.Bpfmaps.RateLimiter.{check, allow, new_map_rate_limiter}
use falx_v.Bpfmaps.Manager.{block_ipv4}
use falx_v.Bpfmaps.Manager.More.{BlockDecision}
use falx_v.Bpfmaps.Hardening.{
  Texts, HardenedWriter, entry_fingerprint, cached, is_some_of, new_hardened_writer,
  hardened_block_ipv4, refreshed, write_through, check_window,
}
use falx_v.Bpfmaps.Hardening.Batch.{write_batch}
use falx_v.Bpfmaps.Hardening.Window.{call_block, calls, calls-new_hardened_writer}
use falx_v.Tests.World.{World, kernel, blocklist}
use falx_v.Tests.Data.{at_second, attacker, neighbour, one_minute, manager}

-- The text of the runs' address, and of none.
text_of : IpAddr → String
text_of [] = "<nil>"
text_of (b ∷ bytes) = "203.0.113.7"

abbrev texts : Texts
texts = record { to_string = text_of; parse_ip = λ s. none; percent_95 = λ n. n * 95 / 100 }

abbrev writer : HardenedWriter World
writer = new_hardened_writer manager (pos 10) (pos 100) (at_second 0)

calls-new_hardened_writer_example :
    (calls kernel texts (new_hardened_writer manager (pos 1) (pos 100) (at_second 0)) (
      call_block (at_second 0) attacker one_minute "ai"
      ∷ call_block (at_second 0) neighbour one_minute "ai"
      ∷ [])).window_count
    ≤ 1
calls-new_hardened_writer_example =
    calls-new_hardened_writer kernel texts
      (call_block (at_second 0) attacker one_minute "ai"
        ∷ call_block (at_second 0) neighbour one_minute "ai"
        ∷ [])
      manager (pos 1) (pos 100) (at_second 0)

abbrev wrote_one : HardenedWriter World
wrote_one = (hardened_block_ipv4 kernel texts writer (at_second 1) attacker one_minute "ai").0

write_ok :
    hardened_block_ipv4 kernel texts writer (at_second 1) attacker one_minute "ai"
    ≡ (wrote_one, none)
unfolding hardened_block_ipv4 write_through check_window refreshed new_hardened_writer block_ipv4
    kernel blocklist ipv4_to_uint32 check allow new_map_rate_limiter cached
write_ok = refl

missed :
    is_some_of (cached writer.dedup_cache (texts.to_string attacker)) (entry_fingerprint one_minute)
    ≡ false
unfolding cached new_hardened_writer
missed = refl

-- The second decision has no address, so that the first is taken back.
abbrev decisions : List BlockDecision
decisions =
    record { ip = neighbour; entry = one_minute } ∷ record { ip = []; entry = one_minute } ∷ []

abbrev taken_back : HardenedWriter World
taken_back = (write_batch kernel texts writer (at_second 1) decisions "ai").0
