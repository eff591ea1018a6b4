-- ===== src/Honeypot/Tracker.antt =====
-- The session tracker, control-plane/internal/honeypot/tracker.go. The sessions' map is a list with
-- one entry for each flow. An event names its session by the flow, since it shares the session.
pub mod Tracked
use Prim.Native.String.{String}
use falx_v.Base.{
  ℕ, ◌+◌, ◌%◌, ◌^◌, ◌*◌, Bool, true, false, not, ◌&&◌, List, [], ◌∷◌, ◌++◌, Option, none, some, ltb,
  leb, ◌==◌, if◌then◌else◌, length,
}
use falx_v.Base.Time.{minute}
use falx_v.Bpfmaps.Types.{IpAddr, BlockEntry, action_redirect}
use falx_v.Bpfmaps.Kernel.{KernelMaps}
use falx_v.Bpfmaps.Audit.{MapError}
use falx_v.Bpfmaps.Manager.{Manager, is_blocked_ipv4}
use falx_v.Afxdp.Packet.{PacketMeta}

pub record Session : Type 0 where
  pub src_ip : IpAddr
  pub dst_ip : IpAddr
  pub src_port : ℕ
  pub dst_port : ℕ
  pub protocol : ℕ
  pub first_seen : ℕ
  pub last_seen : ℕ
  pub packet_count : ℕ
  pub byte_count : ℕ
  pub payload_samples : List (List ℕ)
  pub honeypot_id : ℕ
  pub honeypot_name : String

pub data EventType : Type 0 where
  new_session session_update session_expired : EventType

pub record SessionEvent : Type 0 where
  pub type : EventType
  pub flow_id : ℕ
  pub at : ℕ

pub record Tracker : Type 0 where
  pub sessions : List (ℕ × Session)
  pub event_ch : List SessionEvent
  pub active_honeypot_name : String
  pub active_honeypot_id : ℕ

abbrev pub max_sessions : ℕ
max_sessions = 65_536

abbrev pub event_ch_cap : ℕ
event_ch_cap = 4_096

abbrev pub max_samples : ℕ
max_samples = 16

unfoldable pub new_tracker : Tracker
new_tracker = record {
  sessions = [];
  event_ch = [];
  active_honeypot_name = "";
  active_honeypot_id = 0;
}

unfoldable pub emit : Tracker → SessionEvent → Tracker
emit t ev =
    if ltb (length t.event_ch) event_ch_cap
    then record t { event_ch = t.event_ch ++ ev ∷ [] }
    else t

unfoldable pub find_session : List (ℕ × Session) → ℕ → Option Session
find_session [] id = none
find_session ((k, s) ∷ ss) id = if k == id then some s else find_session ss id

unfoldable pub get_session : Tracker → ℕ → Option Session
get_session t id = find_session t.sessions id

unfoldable pub active_session_count : Tracker → ℕ
active_session_count t = length t.sessions

unfoldable pub put_session : List (ℕ × Session) → ℕ → Session → List (ℕ × Session)
put_session [] id s = (id, s) ∷ []
put_session ((k, x) ∷ ss) id s =
    let rest = put_session ss id s in if k == id then (k, s) ∷ ss else (k, x) ∷ rest

unfoldable pub set_active_honeypot : Tracker → ℕ → String → Tracker
set_active_honeypot t id name = record t { active_honeypot_id = id; active_honeypot_name = name }

-- The session that a first packet opens.
unfoldable pub opened : Tracker → PacketMeta → ℕ → Session
opened t meta now = record {
  src_ip = meta.src_ip;
  dst_ip = meta.dst_ip;
  src_port = meta.src_port;
  dst_port = meta.dst_port;
  protocol = meta.protocol;
  first_seen = now;
  last_seen = 0;
  packet_count = 0;
  byte_count = 0;
  payload_samples = [];
  honeypot_id = t.active_honeypot_id;
  honeypot_name = t.active_honeypot_name;
}

-- A session after one more packet.
unfoldable pub counted : Session → PacketMeta → ℕ → Session
counted s meta now = record s {
  last_seen = now;
  packet_count = (s.packet_count + 1) % 2 ^ 64;
  byte_count = (s.byte_count + meta.pkt_len) % 2 ^ 64;
  payload_samples =
      if ltb (length s.payload_samples) max_samples && ltb 0 (length meta.payload_sample)
      then s.payload_samples ++ meta.payload_sample ∷ []
      else s.payload_samples;
}

abbrev pub event_of : EventType → ℕ → ℕ → SessionEvent
event_of type id now = record { type = type; flow_id = id; at = now }

-- The session after one more packet, and the update at each hundredth.
unfoldable pub stored : Tracker → PacketMeta → Session → ℕ → Tracker
stored t meta s now =
    let s' = counted s meta now in
    let t' = record t { sessions = put_session t.sessions meta.flow_id s' } in
    if s'.packet_count % 100 == 0 then emit t' (event_of session_update meta.flow_id now) else t'

-- The packet of a flow whose source is redirected.
unfoldable pub track : Tracker → PacketMeta → ℕ → Tracker
track t meta now =
    if leb max_sessions (length t.sessions)
    then t
    else elim (find_session t.sessions meta.flow_id) [
      | some s ↦ stored t meta s now
      | none ↦ stored (emit t (event_of new_session meta.flow_id now)) meta (opened t meta now) now
    ]

-- Whether a lookup says that the source is redirected.
unfoldable pub is_redirected : Bool × BlockEntry × Option MapError → Bool
is_redirected (blocked, entry, none) = blocked && entry.action == action_redirect
is_redirected (blocked, entry, some e) = false

unfoldable pub process_meta :
    {W : Type 0} → KernelMaps W → Manager W → Tracker → PacketMeta → ℕ → Tracker
process_meta K m t meta now =
    let tracked = track t meta now in
    if length meta.src_ip == 0
    then t
    else if is_redirected (is_blocked_ipv4 K m now meta.src_ip)
    then tracked
    else t

-- No packet for more than five minutes.
unfoldable pub is_idle : Session → ℕ → Bool
is_idle s now = ltb (s.last_seen + 5 * minute) now

unfoldable pub active : List (ℕ × Session) → ℕ → List (ℕ × Session)
active [] now = []
active ((k, s) ∷ ss) now = let rest = active ss now in if is_idle s now then rest else (k, s) ∷ rest

unfoldable pub report_idle : Tracker → List (ℕ × Session) → ℕ → Tracker
report_idle t [] now = t
report_idle t ((k, s) ∷ ss) now =
    report_idle (if is_idle s now then emit t (event_of session_expired k now) else t) ss now

unfoldable pub cleanup_expired_sessions : Tracker → ℕ → Tracker
cleanup_expired_sessions t now = record (report_idle t t.sessions now) {
  sessions = active t.sessions now;
}
