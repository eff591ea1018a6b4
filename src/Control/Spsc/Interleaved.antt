-- ===== src/Control/Spsc/Interleaved.antt =====
-- The ring with its two goroutines at work at once, control-plane/control/failsafe.go: one atomic
-- access, or one copy of a slot, is one step.
pub mod Fifo
pub mod Whole
use falx_v.Base.{ℕ, ◌%◌, ◌^◌, ◌+◌, ◌≤◌, ◌<◌, ◌≡◌, ◌≢◌, List, [], ◌∷◌, ◌++◌}
use falx_v.Control.Spsc.{
  ring_capacity, SpscMeta, SpscRing, incr, distance, slot_of, set_slot, new_spsc_ring,
}

-- Where the producer stands in Push.
pub data Producer : Type 0 where
  outside : Producer
  head_loaded : SpscMeta → ℕ → Producer
  has_room : SpscMeta → ℕ → Producer
  found_full : Producer
  slot_written : SpscMeta → ℕ → Producer

-- Where the consumer stands in Pop.
pub data Consumer : Type 0 where
  idle : Consumer
  tail_loaded : ℕ → Consumer
  nonempty : ℕ → Consumer
  slot_read : SpscMeta → ℕ → Consumer

-- The ring, both goroutines, and what Push has accepted and Pop has returned so far.
pub record System : Type 0 where
  pub ring : SpscRing
  pub producer : Producer
  pub consumer : Consumer
  pub accepted : List SpscMeta
  pub returned : List SpscMeta

pub data Step (s : System) : System → Type 0 where
  push_load_head :
      (m : SpscMeta)
      → s.producer ≡ outside
      → Step s (record s { producer = head_loaded m s.ring.head })
  push_find_room :
      (m : SpscMeta) (h : ℕ)
      → s.producer ≡ head_loaded m h
      → distance h s.ring.tail < ring_capacity
      → Step s (record s { producer = has_room m h })
  push_find_full :
      (m : SpscMeta) (h : ℕ)
      → s.producer ≡ head_loaded m h
      → ring_capacity ≤ distance h s.ring.tail
      → Step s (record s { producer = found_full })
  push_count_drop :
      s.producer ≡ found_full
      → Step s (record s {
        ring = record (s.ring) { dropped = incr s.ring.dropped };
        producer = outside;
      })
  push_write_slot :
      (m : SpscMeta) (h : ℕ)
      → s.producer ≡ has_room m h
      → Step s (record s {
        ring = record (s.ring) { slots = set_slot s.ring.slots (slot_of h) m };
        producer = slot_written m h;
      })
  push_store_head :
      (m : SpscMeta) (h : ℕ)
      → s.producer ≡ slot_written m h
      → Step s (record s {
        ring = record (s.ring) { head = incr h };
        producer = outside;
        accepted = s.accepted ++ m ∷ [];
      })
  pop_load_tail : s.consumer ≡ idle → Step s (record s { consumer = tail_loaded s.ring.tail })
  pop_find_empty :
      (t : ℕ) → s.consumer ≡ tail_loaded t → s.ring.head ≡ t → Step s (record s { consumer = idle })
  pop_find_nonempty :
      (t : ℕ)
      → s.consumer ≡ tail_loaded t
      → s.ring.head ≢ t
      → Step s (record s { consumer = nonempty t })
  pop_read_slot :
      (t : ℕ)
      → s.consumer ≡ nonempty t
      → Step s (record s { consumer = slot_read (s.ring.slots (slot_of t)) t })
  pop_store_tail :
      (m : SpscMeta) (t : ℕ)
      → s.consumer ≡ slot_read m t
      → Step s (record s {
        ring = record (s.ring) { tail = incr t };
        consumer = idle;
        returned = s.returned ++ m ∷ [];
      })

abbrev pub initial : System
initial = record {
  ring = new_spsc_ring;
  producer = outside;
  consumer = idle;
  accepted = [];
  returned = [];
}

pub data Reachable : System → Type 0 where
  start : Reachable initial
  next : {s s' : System} → Reachable s → Step s s' → Reachable s'
