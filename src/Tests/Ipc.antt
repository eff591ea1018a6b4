-- ===== src/Tests/Ipc.antt =====
-- A frame on the wire, and a map update request from a peer.
use falx_v.Base.{
  ℕ, ◌%◌, ◌^◌, ◌<◌, ◌≡◌, refl, ◌⊎◌, true, false, List, [], ◌∷◌, ◌++◌, none, some, if◌then◌else◌,
  length, arith,
}
use falx_v.Base.Time.{unix}
use falx_v.Bpfmaps.Types.{IpAddr, action_drop, ipv4_to_uint32}
use falx_v.Bpfmaps.RateLimiter.{check, allow, new_map_rate_limiter}
use falx_v.Bpfmaps.Manager.{zero_entry, absolute, has_expired, block_ipv4, is_blocked_ipv4}
use falx_v.Ipc.Protocol.Written.{write_frame-read_frame}
use falx_v.Ipc.Protocol.{
  Frame, FrameHeader, magic_bytes, unmarshal_header, ok, build_frame, read_frame, write_frame,
  validate,
}
use falx_v.Ipc.Protocol.Roundtrip.{read_frame-write_frame}
use falx_v.Ipc.Server.{
  Codec, Conn, Server, MapUpdateReq, new_conn_rate_limiter, is_protected_ip, update_entry,
  map_update, dispatch,
}
use falx_v.Ipc.Server.Protection.{Blocks, dispatch-Blocks, map_update-ack}
use falx_v.Tests.World.{World, kernel, blocklist, blocklist-UpdateLaws}
use falx_v.Tests.Data.{at_second, attacker, manager}

-- A checksum that counts bytes.
count_sum : List ℕ → ℕ
count_sum bytes = length bytes % 2 ^ 32

count_sum-lt : (bytes : List ℕ) → count_sum bytes < 2 ^ 32
unfolding count_sum
count_sum-lt bytes = omega arith

read_frame-write_frame_example :
    (read_frame (write_frame (build_frame count_sum 0x82 7 0 (1 ∷ 2 ∷ 3 ∷ [])) ++ 9 ∷ [])
      ≡ ok (build_frame count_sum 0x82 7 0 (1 ∷ 2 ∷ 3 ∷ []), 9 ∷ []))
    × (validate count_sum (build_frame count_sum 0x82 7 0 (1 ∷ 2 ∷ 3 ∷ [])) ≡ true)
read_frame-write_frame_example =
    read_frame-write_frame count_sum 0x82 7 0 (1 ∷ 2 ∷ 3 ∷ []) (9 ∷ []) count_sum-lt (omega arith)
      (omega arith) (omega arith)

-- A heartbeat's answer with one byte of payload, and one byte behind it.
abbrev stream : List ℕ
stream =
    0x46 ∷ 0x4C ∷ 0x58 ∷ 0x32 ∷ 1 ∷ 0x83 ∷ 0 ∷ 0 ∷ 7 ∷ 0 ∷ 0 ∷ 0 ∷ 1 ∷ 0 ∷ 0 ∷ 0 ∷ 5 ∷ 0 ∷ 0 ∷ 0
    ∷ 42 ∷ 9 ∷ []

abbrev header : FrameHeader
header = record {
  magic = magic_bytes;
  version = 1;
  msg_type = 0x83;
  flags = 0;
  seq = 7;
  len = 1;
  crc = 5;
}

abbrev heartbeat : Frame
heartbeat = record { header = header; payload = 42 ∷ [] }

write_frame-read_frame_example : write_frame heartbeat ++ 9 ∷ [] ≡ stream
unfolding read_frame unmarshal_header
write_frame-read_frame_example =
    write_frame-read_frame stream (9 ∷ []) heartbeat (ground arith) refl

abbrev request : MapUpdateReq
request = record {
  src_ip = "203.0.113.7";
  action = action_drop;
  ttl_seconds = 60;
  threat_score = 90;
  rule_id = 7;
  reason = "syn flood";
  actor = "";
}

-- Every payload is that request, and every text is that address.
abbrev codec : Codec
codec = record {
  infer_response = λ bytes. none;
  map_update_req = λ bytes. some request;
  alert = λ bytes. none;
  parse_ip = λ text. some attacker;
}

abbrev server : Server World
server = record {
  bpf_mgr = manager;
  verdict_ch = [];
  alert_ch = [];
  total_requests = 0;
  total_verdicts = 0;
  total_alerts = 0;
}

abbrev conn : Conn
conn = record { rl = new_conn_rate_limiter 10_000 (at_second 0); sent = [] }

dispatch-Blocks_example :
    let frame = build_frame count_sum 0x82 7 0 (1 ∷ []) in
    ((dispatch kernel codec server conn (at_second 1) frame).0.bpf_mgr ≡ server.bpf_mgr)
    ⊎ ((req : MapUpdateReq) × (frame.header.msg_type ≡ 0x82)
        × (codec.map_update_req frame.payload ≡ some req)
        × Blocks kernel codec server.bpf_mgr
            (dispatch kernel codec server conn (at_second 1) frame).0.bpf_mgr
            (at_second 1)
            req)
dispatch-Blocks_example =
    dispatch-Blocks kernel codec server conn (at_second 1) (build_frame count_sum 0x82 7 0 (1 ∷ []))

abbrev updated : Server World
updated = (map_update kernel codec server (at_second 1) 7 request).0

map_update-ack_example :
    (ip : IpAddr) × (codec.parse_ip request.src_ip ≡ some ip)
    × (is_protected_ip ip ≡ false)
    × (is_blocked_ipv4 kernel updated.bpf_mgr (at_second 9) ip ≡ (
        if has_expired (absolute (update_entry request) (at_second 1)) (unix (at_second 9))
        then (false, zero_entry, none)
        else (true, absolute (update_entry request) (at_second 1), none)))
unfolding kernel blocklist map_update block_ipv4 is_protected_ip ipv4_to_uint32 check allow
    new_map_rate_limiter
map_update-ack_example =
    map_update-ack kernel codec server updated (at_second 1) (at_second 9) 7 request
      blocklist-UpdateLaws refl
