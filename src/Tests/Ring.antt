-- ===== src/Tests/Ring.antt =====
-- Runs of the packet ring.
use falx_v.Base.{ℕ, ◌≡◌, ◌≤◌, refl, true, false, List, [], ◌∷◌, ◌++◌, length, arith}
use falx_v.Control.Spsc.{ring_capacity, SpscMeta, zero_meta, distance, new_spsc_ring, set_slot}
use falx_v.Control.Spsc.Refine.{
  call_push, call_pop, pushed, popped, run, run_queue, run-new_spsc_ring,
}
use falx_v.Control.Spsc.Interleaved.{
  push_load_head, push_find_room, push_write_slot, push_store_head, pop_load_tail,
  pop_find_nonempty, pop_read_slot, slot_written, slot_read, Reachable, start, next,
}
use falx_v.Control.Spsc.Interleaved.Fifo.{Reachable-fifo}

abbrev packet : ℕ → SpscMeta
packet n = record zero_meta { flow_id = n }

run-new_spsc_ring_example :
    run new_spsc_ring
      (call_push (packet 1) ∷ call_push (packet 2) ∷ call_pop ∷ call_pop ∷ call_pop ∷ [])
    ≡ pushed true
      ∷ pushed true
      ∷ popped (packet 1) true
      ∷ popped (packet 2) true
      ∷ popped zero_meta false
      ∷ []
unfolding run_queue
run-new_spsc_ring_example =
    run-new_spsc_ring
      (call_push (packet 1) ∷ call_push (packet 2) ∷ call_pop ∷ call_pop ∷ call_pop ∷ [])

-- A packet is pushed, the next is on its way into its slot, and the first is being read.
at_work : Reachable (record {
  ring = record {
    head = 1;
    tail = 0;
    dropped = 0;
    slots = set_slot (set_slot (λ i. zero_meta) 0 (packet 1)) 1 (packet 2);
  };
  producer = slot_written (packet 2) 1;
  consumer = slot_read (packet 1) 0;
  accepted = packet 1 ∷ [];
  returned = [];
})
unfolding new_spsc_ring set_slot
at_work =
    next
      (next
        (next
          (next
            (next
              (next
                (next
                  (next
                    (next (next start (push_load_head (packet 1) refl))
                      (push_find_room (packet 1) 0 refl (omega arith)))
                    (pop_load_tail refl))
                  (push_write_slot (packet 1) 0 refl))
                (push_store_head (packet 1) 0 refl))
              (pop_find_nonempty 0 refl (omega arith)))
            (push_load_head (packet 2) refl))
          (push_find_room (packet 2) 1 refl (omega arith)))
        (push_write_slot (packet 2) 1 refl))
      (pop_read_slot 0 refl)

Reachable-fifo_example :
    (q : List SpscMeta) × (packet 1 ∷ [] ≡ [] ++ q)
    × (length q ≤ ring_capacity)
    × (distance 1 0 ≡ length q)
Reachable-fifo_example = Reachable-fifo at_work
