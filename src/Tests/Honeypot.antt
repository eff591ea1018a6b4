-- ===== src/Tests/Honeypot.antt =====
-- The tracker's run: the packets of a redirected source.
use falx_v.Base.{◌≤◌, ◌≡◌, refl, List, [], ◌∷◌, All, some, false, length}
use falx_v.Base.Time.{unix}
use falx_v.Bpfmaps.Types.{ipv4_to_uint32, action_redirect}
use falx_v.Bpfmaps.RateLimiter.{check, allow, new_map_rate_limiter}
use falx_v.Bpfmaps.Manager.{Manager, absolute, has_expired, block_ipv4, is_blocked_ipv4}
use falx_v.Afxdp.Packet.{PacketMeta}
use falx_v.Honeypot.Tracker.{
  Session, Tracker, new_tracker, get_session, find_session, put_session, emit, opened, counted,
  stored, track, is_redirected, process_meta, max_sessions, event_ch_cap,
}
use falx_v.Honeypot.Tracker.Tracked.{
  Happening, packet_arrives, event_is_received, happens, received, IsSmall, happens-bounded,
}
use falx_v.Tests.World.{World, kernel, blocklist}
use falx_v.Tests.Data.{at_second, attacker, neighbour, one_minute, manager}

abbrev redirecting : Manager World
redirecting =
    (block_ipv4 kernel manager (at_second 1) attacker
      (record one_minute { action = action_redirect }) "ai").0

abbrev knock : PacketMeta
knock = record {
  src_ip = attacker;
  dst_ip = neighbour;
  is_ipv6 = false;
  protocol = 6;
  src_port = 40_000;
  dst_port = 22;
  tcp_flags = 2;
  pkt_len = 60;
  flow_id = 5;
  payload_sample = 1 ∷ 2 ∷ [];
  umem_offset = 0;
}

abbrev knocks : List (Manager World × Happening)
knocks =
    (redirecting, packet_arrives knock (at_second 2))
    ∷ (redirecting, packet_arrives knock (at_second 3))
    ∷ (redirecting, event_is_received)
    ∷ []

abbrev knocked : Tracker
knocked = happens kernel new_tracker knocks

session : Session
session =
    counted (counted (opened new_tracker knock (at_second 2)) knock (at_second 2)) knock
      (at_second 3)

-- Two packets of one flow are one session.
knocked-session : get_session knocked 5 ≡ some session
unfolding session happens process_meta get_session find_session received is_redirected
    is_blocked_ipv4 ipv4_to_uint32 kernel blocklist block_ipv4 check allow new_map_rate_limiter
    has_expired absolute unix track new_tracker counted emit opened put_session stored
knocked-session = refl

happens-bounded_example :
    (length knocked.sessions ≤ max_sessions)
    × (length knocked.event_ch ≤ event_ch_cap)
    × All IsSmall knocked.sessions
happens-bounded_example = happens-bounded kernel knocks
