-- ===== src/Control/Spsc.antt =====
-- The single-producer, single-consumer ring, control-plane/control/failsafe.go. The counters are
-- 64 bits wide and wrap; an array of bytes is a list, and the slots are a function of their index.
pub mod Queue
pub mod Refine
pub mod Interleaved
pub mod Snapshot
use falx_v.Base.{
  ℕ, ◌+◌, ◌-◌, ◌%◌, ◌^◌, zero, suc, Bool, true, false, List, [], ◌∷◌, ◌++◌, Option, none, some,
  if◌then◌else◌, leb, ltb, ◌==◌, length, take,
}

abbrev pub ring_capacity : ℕ
ring_capacity = 16_384

pub record SpscMeta : Type 0 where
  pub src_ip : List ℕ
  pub dst_ip : List ℕ
  pub flow_id : ℕ
  pub pkt_len : ℕ
  pub src_port : ℕ
  pub dst_port : ℕ
  pub tcp_flags : ℕ
  pub protocol : ℕ
  pub is_ipv6 : Bool
  pub payload_len : ℕ
  pub payload : List ℕ

pub record SpscRing : Type 0 where
  pub head : ℕ
  pub tail : ℕ
  pub dropped : ℕ
  pub slots : ℕ → SpscMeta

unfoldable pub zeros : ℕ → List ℕ
zeros zero = []
zeros (suc n) = 0 ∷ zeros n

abbrev pub zero_meta : SpscMeta
zero_meta = record {
  src_ip = zeros 16;
  dst_ip = zeros 16;
  flow_id = 0;
  pkt_len = 0;
  src_port = 0;
  dst_port = 0;
  tcp_flags = 0;
  protocol = 0;
  is_ipv6 = false;
  payload_len = 0;
  payload = zeros 64;
}

-- Arithmetic of uint64.
abbrev pub incr : ℕ → ℕ
incr n = (n + 1) % 2 ^ 64

abbrev pub distance : ℕ → ℕ → ℕ
distance head tail = (head + 2 ^ 64 - tail) % 2 ^ 64

-- An index masked by the capacity less one, which is a power of two.
abbrev pub slot_of : ℕ → ℕ
slot_of n = n % ring_capacity

unfoldable pub set_slot : (ℕ → SpscMeta) → ℕ → SpscMeta → ℕ → SpscMeta
set_slot s i m j = if j == i then m else s j

unfoldable pub new_spsc_ring : SpscRing
new_spsc_ring = record { head = 0; tail = 0; dropped = 0; slots = λ i. zero_meta }

unfoldable pub push : SpscRing → SpscMeta → SpscRing × Bool
push r m =
    if leb ring_capacity (distance r.head r.tail)
    then (record r { dropped = incr r.dropped }, false)
    else (record r { slots = set_slot r.slots (slot_of r.head) m; head = incr r.head }, true)

unfoldable pub pop : SpscRing → SpscRing × SpscMeta × Bool
pop r =
    if r.head == r.tail
    then (r, zero_meta, false)
    else (record r { tail = incr r.tail }, r.slots (slot_of r.tail), true)

unfoldable pub len : SpscRing → ℕ
len r = if leb r.tail r.head then r.head - r.tail else 0

unfoldable pub is_full : SpscRing → Bool
is_full r = leb ring_capacity (distance r.head r.tail)

unfoldable pub dropped_count : SpscRing → ℕ
dropped_count r = r.dropped
