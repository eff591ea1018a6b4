-- ===== src/Control/Spsc/Interleaved/Whole.antt =====
-- A call of Push or Pop that runs through is the sequence of its steps.
use falx_v.Base.{
  ℕ, ◌≡◌, ◌≢◌, refl, false, [], ◌∷◌, ◌++◌, leb, ◌==◌, ==_iff, leb→le, if◌then◌else◌, Bool-cases,
  inl, inr, arith, ◌<◌,
}
use falx_v.Control.Spsc.{ring_capacity, SpscMeta, distance, push, pop}
use falx_v.Control.Spsc.Interleaved.{
  outside, idle, System, Step, push_load_head, push_find_room, push_find_full, push_count_drop,
  push_write_slot, push_store_head, pop_load_tail, pop_find_empty, pop_find_nonempty, pop_read_slot,
  pop_store_tail,
}

pub data Steps (s : System) : System → Type 0 where
  done : Steps s s
  append : {s' s'' : System} → Steps s s' → Step s' s'' → Steps s s''

leb-false : (a b : ℕ) → leb a b ≡ false → b < a
leb-false a b e = ground arith

==-false : (a b : ℕ) → (a == b) ≡ false → a ≢ b
==-false a b e = ground arith

-- The system after the whole of Push.
abbrev pub after_push : System → SpscMeta → System
after_push s m = record s {
  ring = (push s.ring m).0;
  producer = outside;
  accepted = if (push s.ring m).1 then s.accepted ++ m ∷ [] else s.accepted;
}

abbrev pub after_pop : System → System
after_pop s = record s {
  ring = (pop s.ring).0;
  consumer = idle;
  returned = if (pop s.ring).2 then s.returned ++ (pop s.ring).1 ∷ [] else s.returned;
}

pub push-Steps : (s : System) (m : SpscMeta) → s.producer ≡ outside → Steps s (after_push s m)
unfolding push
push-Steps s m e = elim (Bool-cases (leb ring_capacity (distance s.ring.head s.ring.tail))) [
  | inl full ↦ rw full (
      append (append (append done (push_load_head m e)) (push_find_full m _ refl (leb→le _ _ full)))
        (push_count_drop refl))
  | inr room ↦ rw room (
      append
        (append
          (append (append done (push_load_head m e)) (push_find_room m _ refl (leb-false _ _ room)))
          (push_write_slot m _ refl))
        (push_store_head m _ refl))
]

pub pop-Steps : (s : System) → s.consumer ≡ idle → Steps s (after_pop s)
unfolding pop
pop-Steps s e = elim (Bool-cases (s.ring.head == s.ring.tail)) [
  | inl empty ↦
      rw empty
        (append (append done (pop_load_tail e)) (pop_find_empty _ refl ((==_iff _ _).0 empty)))
  | inr some ↦ rw some (
      append
        (append
          (append (append done (pop_load_tail e)) (pop_find_nonempty _ refl (==-false _ _ some)))
          (pop_read_slot _ refl))
        (pop_store_tail _ _ refl))
]
