-- ===== src/Ipc/Server.antt =====
-- The server's side of a connection, control-plane/internal/ipc/server.go, and the limiter of a
-- connection, framing.go. The JSON decoders and net.ParseIP are parameters. What a connection is
-- sent is kept as data: an acknowledgement, or an error with its code and without its text. The
-- confidence of a verdict and the counters of connections are left out.
pub mod Protection
use Prim.Native.String.{String, len as string_length}
use falx_v.Base.{
  ℕ, ◌+◌, ◌-◌, ◌*◌, ◌/◌, ◌%◌, ◌^◌, Bool, true, false, not, ◌&&◌, ◌||◌, List, [], ◌∷◌, ◌++◌, Option,
  none, some, ltb, ◌==◌, if◌then◌else◌, length,
}
use falx_v.Bpfmaps.Types.{
  IpAddr, BlockEntry, ipv4_to_uint32, action_drop, action_redirect, action_rate_limit,
  reason_ai_verdict,
}
use falx_v.Bpfmaps.RateLimiter.{token}
use falx_v.Bpfmaps.Kernel.{KernelMaps}
use falx_v.Bpfmaps.Audit.{MapError}
use falx_v.Bpfmaps.Manager.{Manager, block_ipv4}
use falx_v.Bpfmaps.Manager.More.{BlockDecision, block_ipv4_batch}
use falx_v.Ipc.Protocol.{Frame, validate}

pub record Verdict : Type 0 where
  pub flow_id : ℕ
  pub src_ip : String
  pub action : ℕ
  pub rule_id : ℕ
  pub threat_score : ℕ
  pub block_duration_s : ℕ
  pub reason : String

pub record InferResponse : Type 0 where
  pub request_id : ℕ
  pub verdicts : List Verdict

pub record MapUpdateReq : Type 0 where
  pub src_ip : String
  pub action : ℕ
  pub ttl_seconds : ℕ
  pub threat_score : ℕ
  pub rule_id : ℕ
  pub reason : String
  pub actor : String

pub record Alert : Type 0 where
  pub flow_id : ℕ
  pub src_ip : String
  pub severity : String
  pub threat_type : String
  pub description : String

pub data ErrorCode : Type 0 where
  err_unknown err_invalid_payload err_rate_limited : ErrorCode

pub data Reply : Type 0 where
  map_update_ack : ℕ → Reply
  error_reply : ℕ → ErrorCode → Reply

-- Tokens in the units of the map limiter.
pub record ConnRateLimiter : Type 0 where
  pub tokens : ℕ
  pub capacity : ℕ
  pub refill_rate : ℕ
  pub last_refill : ℕ
  pub dropped : ℕ

unfoldable pub new_conn_rate_limiter : ℕ → ℕ → ConnRateLimiter
new_conn_rate_limiter rps now = record {
  tokens = rps * token;
  capacity = rps * token;
  refill_rate = rps;
  last_refill = now;
  dropped = 0;
}

unfoldable pub conn_allow : ConnRateLimiter → ℕ → ConnRateLimiter × Bool
conn_allow rl now =
    let gained = rl.tokens + (now - rl.last_refill) * rl.refill_rate in
    let tokens = if ltb rl.capacity gained then rl.capacity else gained in
    if ltb tokens token
    then (record rl { tokens = tokens; last_refill = now; dropped = rl.dropped + 1 }, false)
    else (record rl { tokens = tokens - token; last_refill = now }, true)

-- The decoders of the payloads, and the parser of addresses.
pub record Codec : Type 0 where
  pub infer_response : List ℕ → Option InferResponse
  pub map_update_req : List ℕ → Option MapUpdateReq
  pub alert : List ℕ → Option Alert
  pub parse_ip : String → Option IpAddr

-- A connection with what it was sent, oldest first.
pub record Conn : Type 0 where
  pub rl : ConnRateLimiter
  pub sent : List Reply

pub record Server (W : Type 0) : Type 0 where
  pub bpf_mgr : Manager W
  pub verdict_ch : List InferResponse
  pub alert_ch : List Alert
  pub total_requests : ℕ
  pub total_verdicts : ℕ
  pub total_alerts : ℕ

abbrev pub verdict_ch_cap : ℕ
verdict_ch_cap = 1_024

abbrev pub alert_ch_cap : ℕ
alert_ch_cap = 256

-- IPNet.Contains of an IPv4 network with a prefix of so many bits.
in_network : ℕ → ℕ → ℕ → Bool
in_network network bits n = n / 2 ^ (32 - bits) == network / 2 ^ (32 - bits)

-- 0/8, 127/8, 169.254/16, 224/4, 240/4 and 255.255.255.255/32.
is_protected_number : ℕ → Bool
is_protected_number n =
    in_network 0 8 n
    || in_network (127 * 2 ^ 24) 8 n
    || in_network (169 * 2 ^ 24 + 254 * 2 ^ 16) 16 n
    || in_network (224 * 2 ^ 24) 4 n
    || in_network (240 * 2 ^ 24) 4 n
    || in_network (2 ^ 32 - 1) 32 n

-- An address that has no IPv4 form is in none of the networks.
unfoldable pub is_protected_ip : IpAddr → Bool
unfolding is_protected_number in_network
is_protected_ip ip = elim (ipv4_to_uint32 ip) [ none ↦ false | some n ↦ is_protected_number n ]

send_error : Conn → ℕ → ErrorCode → Conn
send_error c seq code = record c { sent = c.sent ++ error_reply seq code ∷ [] }

pub default_actor : String → String
default_actor actor = if string_length actor == 0 then "ai-engine" else actor

pub update_entry : MapUpdateReq → BlockEntry
update_entry req = record {
  action = req.action;
  rule_id = req.rule_id;
  threat_score = req.threat_score;
  expire_at = req.ttl_seconds;
  reason = reason_ai_verdict;
}

pub is_update_action : ℕ → Bool
is_update_action a = a == action_drop || a == action_redirect || a == action_rate_limit

-- A verdict that asks for a block, with an address.
verdict_decision : (String → Option IpAddr) → Verdict → Option BlockDecision
verdict_decision parse_ip v =
    if v.action == action_drop || v.action == action_redirect
    then elim (parse_ip v.src_ip) [
      | none ↦ none
      | some ip ↦ some (record {
        ip = ip;
        entry = record {
          action = v.action;
          rule_id = v.rule_id;
          threat_score = v.threat_score;
          expire_at = v.block_duration_s;
          reason = reason_ai_verdict;
        };
      })
    ]
    else none

append_kept : Option BlockDecision → List BlockDecision → List BlockDecision
append_kept none ds = ds
append_kept (some d) ds = d ∷ ds

decisions_of : (String → Option IpAddr) → List Verdict → List BlockDecision
decisions_of parse_ip [] = []
decisions_of parse_ip (v ∷ vs) =
    append_kept (verdict_decision parse_ip v) (decisions_of parse_ip vs)

module _ {W : Type 0} (K : KernelMaps W) (codec : Codec) where
  -- The reply to a block, by its error.
  answer : Server W → ℕ → Manager W × Option MapError → Server W × Reply
  answer s seq (m, none) = (record s { bpf_mgr = m }, map_update_ack seq)
  answer s seq (m, some e) = (record s { bpf_mgr = m }, error_reply seq err_rate_limited)

  -- What applyMapUpdate does, and the one frame that it sends.
  unfoldable pub map_update : Server W → ℕ → ℕ → MapUpdateReq → Server W × Reply
  unfolding answer is_update_action
  map_update s now seq req = elim (codec.parse_ip req.src_ip) [
    | none ↦ (s, error_reply seq err_invalid_payload)
    | some ip ↦
        if is_protected_ip ip
        then (s, error_reply seq err_invalid_payload)
        else if is_update_action req.action
        then answer s seq
            (block_ipv4 K s.bpf_mgr now ip (update_entry req) (default_actor req.actor))
        else (s, error_reply seq err_rate_limited)
  ]

  unfoldable pub apply_map_update : Server W → Conn → ℕ → ℕ → MapUpdateReq → Server W × Conn
  apply_map_update s c now seq req =
      let (s', reply) = map_update s now seq req in (s', record c { sent = c.sent ++ reply ∷ [] })

  push_verdicts : Server W → InferResponse → Server W
  push_verdicts s resp =
      let total = (s.total_verdicts + length resp.verdicts) % 2 ^ 64 in
      record s {
        total_verdicts = total;
        verdict_ch =
            if ltb (length s.verdict_ch) verdict_ch_cap
            then s.verdict_ch ++ resp ∷ []
            else s.verdict_ch;
      }

  push_alert : Server W → Alert → Server W
  push_alert s alert = record s {
    total_alerts = (s.total_alerts + 1) % 2 ^ 64;
    alert_ch =
        if ltb (length s.alert_ch) alert_ch_cap then s.alert_ch ++ alert ∷ [] else s.alert_ch;
  }

  unfoldable pub dispatch : Server W → Conn → ℕ → Frame → Server W × Conn
  unfolding push_verdicts push_alert send_error
  dispatch s c now frame =
      let seq = frame.header.seq in
      let t = frame.header.msg_type in
      if t == 0x81
      then elim (codec.infer_response frame.payload) [
        | none ↦ (s, send_error c seq err_invalid_payload)
        | some resp ↦ (push_verdicts s resp, c)
      ]
      else if t == 0x82
      then (let (rl', allowed) = conn_allow c.rl now in
          let c' = record c { rl = rl' } in
          if allowed
          then elim (codec.map_update_req frame.payload) [
            | none ↦ (s, send_error c' seq err_invalid_payload)
            | some req ↦ apply_map_update s c' now seq req
          ]
          else (s, send_error c' seq err_rate_limited))
      else if t == 0x84
      then elim (codec.alert frame.payload) [ none ↦ (s, c) | some a ↦ (push_alert s a, c) ]
      else if t == 0x83
      then (s, c)
      else (s, send_error c seq err_unknown)

  -- One turn of the receive loop, with a frame that was read.
  unfoldable pub receive_frame : (List ℕ → ℕ) → Server W → Conn → ℕ → Frame → Server W × Conn
  unfolding send_error
  receive_frame crc32 s c now frame =
      if validate crc32 frame
      then dispatch (record s { total_requests = (s.total_requests + 1) % 2 ^ 64 }) c now frame
      else (s, send_error c frame.header.seq err_invalid_payload)

  unfoldable pub apply_verdicts : Server W → ℕ → InferResponse → Server W
  unfolding decisions_of verdict_decision append_kept
  apply_verdicts s now resp = elim (decisions_of codec.parse_ip resp.verdicts) [
    | [] ↦ s
    | d ∷ ds ↦ record s { bpf_mgr = (block_ipv4_batch K s.bpf_mgr now (d ∷ ds) "ai-engine").0 }
  ]
