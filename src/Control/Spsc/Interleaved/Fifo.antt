-- ===== src/Control/Spsc/Interleaved/Fifo.antt =====
-- What Pop returns is what Push accepted, in that order, however the goroutines interleave.
use falx_v.Base.{
  ℕ, ◌≤◌, ◌<◌, ◌≡◌, refl, ◌∙◌, List, [], ◌∷◌, ◌++◌, length, length-append, append_assoc, arith, ap,
}
use falx_v.Control.Spsc.{ring_capacity, SpscMeta, SpscRing, slot_of, incr, distance}
use falx_v.Control.Spsc.Queue.{
  Holds, written-Holds, published-Holds, new_spsc_ring-Holds, distance-Holds, set_slot_same,
  dropped-Holds, popped, popped-Holds,
}
use falx_v.Control.Spsc.Interleaved.{
  Producer, outside, head_loaded, has_room, found_full, slot_written, Consumer, idle, tail_loaded,
  nonempty, slot_read, System, Step, push_load_head, push_find_room, push_find_full,
  push_count_drop, push_write_slot, push_store_head, pop_load_tail, pop_find_empty,
  pop_find_nonempty, pop_read_slot, pop_store_tail, initial, Reachable, start, next,
}

-- What the producer knows at each point, of a ring that holds the queue.
abbrev ProducerKnows : SpscRing → List SpscMeta → Producer → Type 0
ProducerKnows r q outside = Unit
ProducerKnows r q (head_loaded m h) = h ≡ r.head
ProducerKnows r q (has_room m h) = (h ≡ r.head) × (length q < ring_capacity)
ProducerKnows r q found_full = Unit
ProducerKnows r q (slot_written m h) =
    (h ≡ r.head) × (length q < ring_capacity) × (r.slots (slot_of h) ≡ m)

abbrev IsFront : SpscMeta → List SpscMeta → Type 0
IsFront m [] = ⊥
IsFront m (x ∷ q) = m ≡ x

-- What the consumer knows, of a ring with this tail.
abbrev ConsumerKnows : ℕ → List SpscMeta → Consumer → Type 0
ConsumerKnows tail q idle = Unit
ConsumerKnows tail q (tail_loaded t) = t ≡ tail
ConsumerKnows tail q (nonempty t) = (t ≡ tail) × (0 < length q)
ConsumerKnows tail q (slot_read m t) = (t ≡ tail) × IsFront m q

record Inv (s : System) : Type 0 where
  queue : List SpscMeta
  split : s.accepted ≡ s.returned ++ queue
  holds : Holds s.ring queue
  producer_knows : ProducerKnows s.ring queue s.producer
  consumer_knows : ConsumerKnows s.ring.tail queue s.consumer

initial-Inv : Inv initial
initial-Inv = record {
  queue = [];
  split = refl;
  holds = new_spsc_ring-Holds;
  producer_knows = tt;
  consumer_knows = tt;
}

module _ {s : System} (i : Inv s) where
  producer_at : {p : Producer} → s.producer ≡ p → ProducerKnows s.ring i.queue p
  producer_at e = rw (← e) i.producer_knows

  consumer_at : {c : Consumer} → s.consumer ≡ c → ConsumerKnows s.ring.tail i.queue c
  consumer_at e = rw (← e) i.consumer_knows

IsFront-append : (m x : SpscMeta) (q : List SpscMeta) → IsFront m q → IsFront m (q ++ x ∷ [])
IsFront-append m x [] f = absurd f
IsFront-append m x (y ∷ q) f = f

consumer_appends :
    (r : ℕ) (q : List SpscMeta) (m : SpscMeta) (c : Consumer)
    → ConsumerKnows r q c
    → ConsumerKnows r (q ++ m ∷ []) c
consumer_appends r q m idle k = k
consumer_appends r q m (tail_loaded t) k = k
consumer_appends r q m (nonempty t) (k, l) = (k, omega (arith, l, length-append q (m ∷ [])))
consumer_appends r q m (slot_read x t) (k, l) = (k, IsFront-append x m q l)

producer_pops :
    (r : SpscRing) (x : SpscMeta) (q : List SpscMeta) (p : Producer)
    → ProducerKnows r (x ∷ q) p
    → ProducerKnows (popped r) q p
producer_pops r x q outside k = k
producer_pops r x q (head_loaded m h) k = k
producer_pops r x q (has_room m h) (k, l) = (k, omega (arith, l))
producer_pops r x q found_full k = k
producer_pops r x q (slot_written m h) (k, l, e) = (k, omega (arith, l), e)

read-IsFront :
    (r : SpscRing) (t : ℕ) (q : List SpscMeta)
    → Holds r q
    → t ≡ r.tail
    → 0 < length q
    → IsFront (r.slots (slot_of t)) q
read-IsFront r t [] h e pos = omega (arith, pos)
read-IsFront r t (x ∷ q) h e pos = ap r.slots (omega (arith, e, h.tail_count)) ∙ h.stored.0

-- A step that changes only where a goroutine stands.
stands :
    {s : System} (i : Inv s) (p : Producer) (c : Consumer)
    → ProducerKnows s.ring i.queue p
    → ConsumerKnows s.ring.tail i.queue c
    → Inv (record s { producer = p; consumer = c })
stands i p c kp kc = record {
  queue = i.queue;
  split = i.split;
  holds = i.holds;
  producer_knows = kp;
  consumer_knows = kc;
}

released :
    (s : System) (m : SpscMeta) (t : ℕ) (q : List SpscMeta)
    → s.accepted ≡ s.returned ++ q
    → Holds s.ring q
    → ProducerKnows s.ring q s.producer
    → t ≡ s.ring.tail
    → IsFront m q
    → Inv (record s {
      ring = record (s.ring) { tail = incr t };
      consumer = idle;
      returned = s.returned ++ m ∷ [];
    })
released s m t [] e h k l f = absurd f
released s m t (x ∷ q) e h k l f = record {
  queue = q;
  split = rw (e, f, append_assoc);
  holds = rw l (popped-Holds s.ring x q h);
  producer_knows = rw l (producer_pops s.ring x q s.producer k);
  consumer_knows = tt;
}

step-Inv : {s s' : System} → Step s s' → Inv s → Inv s'
step-Inv {s} (push_load_head m p) i = stands i _ _ refl i.consumer_knows
step-Inv {s} (push_find_room m h p lt) i =
    let e = producer_at i p in
    stands i _ _ (e, omega (arith, e, lt, i.holds.tail_count, i.holds.head_count, i.holds.room))
      i.consumer_knows
step-Inv {s} (push_find_full m h p ge) i = stands i _ _ tt i.consumer_knows
step-Inv {s} (push_count_drop p) i = record {
  queue = i.queue;
  split = i.split;
  holds = dropped-Holds s.ring i.queue (incr s.ring.dropped) i.holds;
  producer_knows = tt;
  consumer_knows = i.consumer_knows;
}
step-Inv {s} (push_write_slot m h p) i =
    let (e, lt) = producer_at i p in
    record {
      queue = i.queue;
      split = i.split;
      holds = written-Holds s.ring h m i.queue e i.holds lt;
      producer_knows = (e, lt, set_slot_same s.ring.slots (slot_of h) m);
      consumer_knows = i.consumer_knows;
    }
step-Inv {s} (push_store_head m h p) i =
    let (e, lt, at) = producer_at i p in
    record {
      queue = i.queue ++ m ∷ [];
      split = rw (i.split, append_assoc);
      holds = published-Holds s.ring h m i.queue e i.holds lt at;
      producer_knows = tt;
      consumer_knows = consumer_appends s.ring.tail i.queue m s.consumer i.consumer_knows;
    }
step-Inv {s} (pop_load_tail c) i = stands i _ _ i.producer_knows refl
step-Inv {s} (pop_find_empty t c e) i = stands i _ _ i.producer_knows tt
step-Inv {s} (pop_find_nonempty t c ne) i =
    let e = consumer_at i c in
    stands i _ _ i.producer_knows (e, omega (arith, e, ne, i.holds.tail_count, i.holds.head_count))
step-Inv {s} (pop_read_slot t c) i =
    let (e, pos) = consumer_at i c in
    stands i _ _ i.producer_knows (e, read-IsFront s.ring t i.queue i.holds e pos)
step-Inv {s} (pop_store_tail m t c) i =
    let (e, f) = consumer_at i c in released s m t i.queue i.split i.holds i.producer_knows e f

Reachable-Inv : {s : System} → Reachable s → Inv s
Reachable-Inv start = initial-Inv
Reachable-Inv (next r st) = step-Inv st (Reachable-Inv r)

-- At any moment of any interleaving, what Push has accepted is what Pop has returned, followed by
-- the elements in the ring, of which there are at most its capacity.
pub Reachable-fifo :
    {s : System}
    → Reachable s
    → (q : List SpscMeta) × (s.accepted ≡ s.returned ++ q)
      × (length q ≤ ring_capacity)
      × (distance s.ring.head s.ring.tail ≡ length q)
Reachable-fifo {s} r =
    let i = Reachable-Inv r in
    (i.queue, i.split, i.holds.room, distance-Holds s.ring i.queue i.holds)
