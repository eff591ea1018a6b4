-- ===== src/Control/Spsc/Refine.antt =====
-- The ring against a bounded queue, over any calls of its operations.
use falx_v.Base.{
  ◌≡◌, refl, Bool, true, false, List, [], ◌∷◌, ◌++◌, length, ltb, if◌then◌else◌, arith,
}
use native.Mathlib.Decide.{dec_lt}
use falx_v.Control.Spsc.{ring_capacity, SpscMeta, SpscRing, zero_meta, new_spsc_ring, push, pop}
use falx_v.Control.Spsc.Queue.{
  Holds, push-room, push-full, dropped-Holds, pop-some, pop-empty, new_spsc_ring-Holds,
}

pub data Call : Type 0 where
  call_push : SpscMeta → Call
  call_pop : Call

pub data Answer : Type 0 where
  pushed : Bool → Answer
  popped : SpscMeta → Bool → Answer

unfoldable pub run : SpscRing → List Call → List Answer
run r [] = []
run r (call_push m ∷ cs) = let (r', ok) = push r m in pushed ok ∷ run r' cs
run r (call_pop ∷ cs) = let (r', m, ok) = pop r in popped m ok ∷ run r' cs

-- A first-in, first-out queue that refuses more than its capacity.
unfoldable pub run_queue : List SpscMeta → List Call → List Answer
run_queue q [] = []
run_queue q (call_push m ∷ cs) =
    let rest = run_queue (q ++ m ∷ []) cs in
    let refused = run_queue q cs in
    if ltb (length q) ring_capacity then pushed true ∷ rest else pushed false ∷ refused
run_queue [] (call_pop ∷ cs) = popped zero_meta false ∷ run_queue [] cs
run_queue (x ∷ q) (call_pop ∷ cs) = popped x true ∷ run_queue q cs

run-Holds :
    (cs : List Call) (r : SpscRing) (q : List SpscMeta) → Holds r q → run r cs ≡ run_queue q cs
unfolding run run_queue
run-Holds [] r q h = refl
run-Holds (call_push m ∷ cs) r q h = elim (dec_lt (length q) ring_capacity) [
  | yes lt ↦
      let (ok, h') = push-room r m q h lt in
      grind (arith, run-Holds cs (push r m).0 (q ++ m ∷ []) h')
  | no ge ↦
      let e = push-full r m q h (omega (arith, h.room)) in
      grind (arith, run-Holds cs (push r m).0 q (rw e (dropped-Holds r q _ h)))
]
run-Holds (call_pop ∷ cs) r [] h = rw (pop-empty r h, run-Holds cs r [] h)
run-Holds (call_pop ∷ cs) r (x ∷ q) h =
    let (e, ok, h') = pop-some r x q h in rw (e, ok, run-Holds cs (pop r).0 q h')

-- A new ring answers every sequence of pushes and pops as the queue does.
pub run-new_spsc_ring : (cs : List Call) → run new_spsc_ring cs ≡ run_queue [] cs
run-new_spsc_ring cs = run-Holds cs new_spsc_ring [] new_spsc_ring-Holds
