-- ===== src/Control/Spsc/Queue.antt =====
-- The ring as a queue: what it holds, whatever values its counters have wrapped to.
use falx_v.Base.{
  ℕ, ◌+◌, ◌%◌, ◌^◌, ◌≤◌, ◌<◌, ◌≡◌, refl, ◌∙◌, ap, true, false, List, [], ◌∷◌, ◌++◌, length,
  length-append, arith,
}
use falx_v.Control.Spsc.{
  ring_capacity, SpscMeta, SpscRing, zero_meta, slot_of, set_slot, new_spsc_ring, push, pop, incr,
  distance,
}

-- From the count `c` on, the slots hold the elements of the queue.
abbrev pub Stored : (ℕ → SpscMeta) → ℕ → List SpscMeta → Type 0
Stored s c [] = Unit
Stored s c (x ∷ q) = (s (slot_of c) ≡ x) × Stored s (c + 1) q

-- The ring holds the queue: `taken` elements were popped in all, and the counters are the true
-- counts of pushed and popped elements, wrapped.
pub record Holds (r : SpscRing) (q : List SpscMeta) : Type 0 where
  pub taken : ℕ
  pub tail_count : r.tail ≡ taken % 2 ^ 64
  pub head_count : r.head ≡ (taken + length q) % 2 ^ 64
  pub room : length q ≤ ring_capacity
  pub stored : Stored r.slots taken q

-- A write to the slot of a count behind the last element leaves the elements.
set_slot-Stored :
    (s : ℕ → SpscMeta) (c i n : ℕ) (q : List SpscMeta) (m : SpscMeta)
    → i ≡ slot_of n
    → c + length q ≤ n
    → n < c + ring_capacity
    → Stored s c q
    → Stored (set_slot s i m) c q
unfolding set_slot
set_slot-Stored s c i n [] m e h k st = tt
set_slot-Stored s c i n (x ∷ q) m e h k (d, st) =
    (ground arith, set_slot-Stored s (c + 1) i n q m e (omega arith) (omega arith) st)

Stored-append :
    (s : ℕ → SpscMeta) (c i : ℕ) (q : List SpscMeta) (m : SpscMeta)
    → i ≡ slot_of (c + length q)
    → s i ≡ m
    → Stored s c q
    → Stored s c (q ++ m ∷ [])
Stored-append s c i [] m h e st = (ap s (omega arith) ∙ e, tt)
Stored-append s c i (x ∷ q) m h e (f, st) = (f, Stored-append s (c + 1) i q m (omega arith) e st)

pub new_spsc_ring-Holds : Holds new_spsc_ring []
unfolding new_spsc_ring
new_spsc_ring-Holds = record {
  taken = 0;
  tail_count = refl;
  head_count = refl;
  room = omega arith;
  stored = tt;
}

-- The wrapped difference of two wrapped counts is the true one.
pub distance-counts : (c l : ℕ) → l ≤ ring_capacity → distance ((c + l) % 2 ^ 64) (c % 2 ^ 64) ≡ l
distance-counts c l h = omega arith

pub distance-Holds :
    (r : SpscRing) (q : List SpscMeta) → Holds r q → distance r.head r.tail ≡ length q
distance-Holds r q h = omega arith

-- The ring after a push that succeeds, and after a pop that succeeds.
abbrev pub pushed : SpscRing → SpscMeta → SpscRing
pushed r m = record r { slots = set_slot r.slots (slot_of r.head) m; head = incr r.head }

abbrev pub popped : SpscRing → SpscRing
popped r = record r { tail = incr r.tail }

-- The slot of the head lies outside the queue, so that writing it leaves the queue.
pub written-Holds :
    (r : SpscRing) (n : ℕ) (m : SpscMeta) (q : List SpscMeta)
    → n ≡ r.head
    → Holds r q
    → length q < ring_capacity
    → Holds (record r { slots = set_slot r.slots (slot_of n) m }) q
written-Holds r n m q e h lt = record {
  taken = h.taken;
  tail_count = h.tail_count;
  head_count = h.head_count;
  room = h.room;
  stored =
      set_slot-Stored r.slots h.taken (slot_of n) (h.taken + length q) q m
        (omega (arith, e, h.head_count)) (omega arith) (omega arith) h.stored;
}

pub published-Holds :
    (r : SpscRing) (n : ℕ) (m : SpscMeta) (q : List SpscMeta)
    → n ≡ r.head
    → Holds r q
    → length q < ring_capacity
    → r.slots (slot_of n) ≡ m
    → Holds (record r { head = incr n }) (q ++ m ∷ [])
published-Holds r n m q e h lt at = record {
  taken = h.taken;
  tail_count = h.tail_count;
  head_count = omega (arith, e, h.head_count, length-append q (m ∷ []));
  room = omega (arith, length-append q (m ∷ []));
  stored =
      Stored-append r.slots h.taken (slot_of n) q m (omega (arith, e, h.head_count)) at h.stored;
}

pub set_slot_same : (s : ℕ → SpscMeta) (i : ℕ) (m : SpscMeta) → set_slot s i m i ≡ m
unfolding set_slot
set_slot_same s i m = ground arith

pushed-Holds :
    (r : SpscRing) (m : SpscMeta) (q : List SpscMeta)
    → Holds r q
    → length q < ring_capacity
    → Holds (pushed r m) (q ++ m ∷ [])
pushed-Holds r m q h lt =
    published-Holds (record r { slots = set_slot r.slots (slot_of r.head) m }) r.head m q refl
      (written-Holds r r.head m q refl h lt) lt (set_slot_same r.slots (slot_of r.head) m)

pub popped-Holds :
    (r : SpscRing) (x : SpscMeta) (q : List SpscMeta) → Holds r (x ∷ q) → Holds (popped r) q
popped-Holds r x q h = record {
  taken = h.taken + 1;
  tail_count = omega (arith, h.tail_count);
  head_count = omega (arith, h.head_count);
  room = omega (arith, h.room);
  stored = h.stored.1;
}

push-pushed :
    (r : SpscRing) (m : SpscMeta) (q : List SpscMeta)
    → Holds r q
    → length q < ring_capacity
    → push r m ≡ (pushed r m, true)
unfolding push
push-pushed r m q h lt = ground arith

-- A ring that is not full takes the element in, behind the others.
pub push-room :
    (r : SpscRing) (m : SpscMeta) (q : List SpscMeta)
    → Holds r q
    → length q < ring_capacity
    → ((push r m).1 ≡ true) × Holds (push r m).0 (q ++ m ∷ [])
push-room r m q h lt = rw (push-pushed r m q h lt) (refl, pushed-Holds r m q h lt)

-- A full ring refuses the element, keeps the others, and counts the drop.
pub push-full :
    (r : SpscRing) (m : SpscMeta) (q : List SpscMeta)
    → Holds r q
    → length q ≡ ring_capacity
    → push r m ≡ (record r { dropped = (r.dropped + 1) % 2 ^ 64 }, false)
unfolding push
push-full r m q h e = ground arith

pop-popped :
    (r : SpscRing) (x : SpscMeta) (q : List SpscMeta)
    → Holds r (x ∷ q)
    → pop r ≡ (popped r, x, true)
unfolding pop
pop-popped r x q h = ground arith

-- The oldest element comes out first.
pub pop-some :
    (r : SpscRing) (x : SpscMeta) (q : List SpscMeta)
    → Holds r (x ∷ q)
    → ((pop r).1 ≡ x) × ((pop r).2 ≡ true) × Holds (pop r).0 q
pop-some r x q h = rw (pop-popped r x q h) (refl, refl, popped-Holds r x q h)

pub dropped-Holds :
    (r : SpscRing) (q : List SpscMeta) (n : ℕ) → Holds r q → Holds (record r { dropped = n }) q
dropped-Holds r q n h = record {
  taken = h.taken;
  tail_count = h.tail_count;
  head_count = h.head_count;
  room = h.room;
  stored = h.stored;
}

pub pop-empty : (r : SpscRing) → Holds r [] → pop r ≡ (r, zero_meta, false)
unfolding pop
pop-empty r h = ground arith
