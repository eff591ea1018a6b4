-- ===== src/Events/Bus/Delivered.antt =====
-- The delivery of an event to a subscriber of its topic.
use Prim.Native.String.{String}
use falx_v.Base.{
  ℕ, ◌<◌, ◌≡◌, refl, ap, ◌∙◌, Bool, true, false, not, List, [], ◌∷◌, ◌++◌, some, ◌==◌,
  if◌then◌else◌, length, arith, Bool-cases, Option-cases, inl, inr,
}
use falx_v.Events.Bus.{Event, Subscriber, Bus, set_subscriber, offer, deliver, stamped, publish}
use falx_v.Events.Bus.Sound.{has, offer-room}

-- Whether a number is in a list exactly once.
unfoldable pub once : ℕ → List ℕ → Bool
once h [] = false
once h (x ∷ xs) = let rest = once h xs in if h == x then not (has h xs) else rest

offer-other : (h k : ℕ) (ev : Event) (b : Bus) → (h == k) ≡ false → (offer k ev b).heap h ≡ b.heap h
unfolding offer set_subscriber
offer-other h k ev b ne = elim (Option-cases (b.heap k)) [
  | inl n ↦ ground arith
  | inr (sub, e) ↦ ground arith
]

deliver-absent :
    (h : ℕ) (hs : List ℕ) (ev : Event) (b : Bus)
    → has h hs ≡ false
    → (deliver hs ev b).heap h ≡ b.heap h
unfolding deliver has
deliver-absent h [] ev b m = refl
deliver-absent h (k ∷ hs) ev b m =
    deliver-absent h hs ev (offer k ev b) (ground arith) ∙ offer-other h k ev b (ground arith)

deliver-once :
    (h : ℕ) (hs : List ℕ) (ev : Event) (b : Bus) (sub : Subscriber)
    → once h hs ≡ true
    → b.heap h ≡ some sub
    → sub.closed ≡ false
    → length sub.ch < sub.size
    → (deliver hs ev b).heap h ≡ some (record sub { ch = sub.ch ++ ev ∷ [] })
unfolding deliver once set_subscriber
deliver-once h [] ev b sub m e c r = absurd (ground arith)
deliver-once h (k ∷ hs) ev b sub m e c r = elim (Bool-cases (h == k)) [
  | inl is ↦
      let at : h ≡ k = ground arith in
      deliver-absent h hs ev (offer k ev b) (ground arith)
      ∙ ap (λ x. x.heap h) (offer-room k ev b sub (ground arith) c (ground arith))
      ∙ ground arith
  | inr other ↦
      deliver-once h hs ev (offer k ev b) sub (ground arith) (offer-other h k ev b other ∙ e) c r
]

-- A published event is the last one in the channel of each open subscriber with room that is registered
-- once for its topic; it keeps its topic, and gets an id and a time if it has none.
pub publish-delivers :
    (h : ℕ) (sub : Subscriber) (ev : Event) (fresh : String) (now : ℕ) (b : Bus)
    → once h (b.subscribers ev.topic) ≡ true
    → b.heap h ≡ some sub
    → sub.closed ≡ false
    → length sub.ch < sub.size
    → ((publish ev fresh now b).heap h
        ≡ some (record sub { ch = sub.ch ++ stamped ev fresh now ∷ [] }))
      × ((stamped ev fresh now).topic ≡ ev.topic)
unfolding publish stamped
publish-delivers h sub ev fresh now b m e c r =
    (deliver-once h (b.subscribers ev.topic) (stamped ev fresh now) b sub m e c r, refl)
