-- ===== src/Events/Bus/Sound.antt =====
-- The state of a bus whose channels are within their capacity and hold events of their subscriber's
-- topics, and the delivery of events.
use Prim.Native.String.{String}
use mathlib.Core.Path.{subst}
use falx_v.Base.{
  ℕ, ◌+◌, ◌≤◌, ◌<◌, ◌≡◌, refl, sym, Bool, true, false, ◌||◌, List, [], ◌∷◌, ◌++◌, some, All, leb,
  ◌==◌, length, arith, Bool-cases, Option-cases, inl, inr,
}
use falx_v.Base.Dict.{among}
use falx_v.Events.Bus.{Event, Subscriber, Bus, set_subscriber, safely_send, offer, deliver}

unfoldable pub has : ℕ → List ℕ → Bool
has h [] = false
has h (x ∷ xs) = h == x || has h xs

-- The channel of a subscriber within its capacity, with events of its topics.
pub record Fits (sub : Subscriber) : Type 0 where
  pub within : length sub.ch ≤ sub.size
  pub of_topics : All (λ ev. among sub.topics ev.topic ≡ true) sub.ch

pub record Sound (b : Bus) : Type 0 where
  pub fits : (h : ℕ) (sub : Subscriber) → b.heap h ≡ some sub → Fits sub
  pub known :
      (t : String) (h : ℕ) (sub : Subscriber)
      → has h (b.subscribers t) ≡ true
      → b.heap h ≡ some sub
      → among sub.topics t ≡ true
  pub below : (t : String) (h : ℕ) → has h (b.subscribers t) ≡ true → h < b.next

-- A subscriber whose channel alone has changed.
pub set_subscriber-Sound :
    (h : ℕ) (sub sub' : Subscriber) (b : Bus)
    → b.heap h ≡ some sub
    → sub'.topics ≡ sub.topics
    → Fits sub'
    → Sound b
    → Sound (set_subscriber h sub' b)
unfolding set_subscriber
set_subscriber-Sound h sub sub' b e same_topics f s = record {
  fits = λ k x ex. elim (Bool-cases (k == h)) [
    | inl is ↦ let is' : sub' ≡ x = ground arith in subst Fits is' f
    | inr other ↦ s.fits k x (ground arith)
  ];
  known = λ t k x m ex. elim (Bool-cases (k == h)) [
    | inl is ↦
        let is' : sub' ≡ x = ground arith in
        subst (λ z. among z.topics t ≡ true) is'
          (subst (λ ts. among ts t ≡ true) (sym same_topics) (s.known t h sub (ground arith) e))
    | inr other ↦ s.known t k x m (ground arith)
  ];
  below = s.below;
}

All-append :
    (P : Event → Type 0) (xs : List Event) (ev : Event) → All P xs → P ev → All P (xs ++ ev ∷ [])
All-append P [] ev a p = (p, tt)
All-append P (x ∷ xs) ev (px, a) p = (px, All-append P xs ev a p)

length-snoc : (xs : List Event) (ev : Event) → length (xs ++ ev ∷ []) ≡ length xs + 1
length-snoc [] ev = refl
length-snoc (x ∷ xs) ev = omega (arith, length-snoc xs ev)

sent-Fits :
    (sub : Subscriber) (ev : Event)
    → among sub.topics ev.topic ≡ true
    → leb sub.size (length sub.ch) ≡ false
    → Fits sub
    → Fits (record sub { ch = sub.ch ++ ev ∷ [] })
sent-Fits sub ev m room f = record {
  within = ground (arith, length-snoc sub.ch ev, f.within);
  of_topics = All-append (λ e. among sub.topics e.topic ≡ true) sub.ch ev f.of_topics m;
}

dropped-Sound : (n : ℕ) (b : Bus) → Sound b → Sound (record b { dropped = n })
dropped-Sound n b s = record { fits = s.fits; known = s.known; below = s.below }

offer-full :
    (h : ℕ) (ev : Event) (b : Bus) (sub : Subscriber)
    → b.heap h ≡ some sub
    → sub.closed ≡ false
    → leb sub.size (length sub.ch) ≡ true
    → offer h ev b ≡ record (set_subscriber h sub b) { dropped = b.dropped + 1 }
unfolding offer safely_send
offer-full h ev b sub e c full = ground arith

pub offer-room :
    (h : ℕ) (ev : Event) (b : Bus) (sub : Subscriber)
    → b.heap h ≡ some sub
    → sub.closed ≡ false
    → leb sub.size (length sub.ch) ≡ false
    → offer h ev b
      ≡ record (set_subscriber h (record sub { ch = sub.ch ++ ev ∷ [] }) b) { dropped = b.dropped }
unfolding offer safely_send
offer-room h ev b sub e c room = ground arith

-- An offer of an event of one of the subscriber's topics.
offer-Sound :
    (h : ℕ) (ev : Event) (b : Bus)
    → has h (b.subscribers ev.topic) ≡ true
    → Sound b
    → Sound (offer h ev b)
unfolding offer safely_send
offer-Sound h ev b m s = elim (Option-cases (b.heap h)) [
  | inl n ↦ rw (offer, n) s
  | inr (sub, e) ↦ elim (Bool-cases sub.closed) [
    | inl c ↦ rw (offer, e, c) s
    | inr c ↦ elim (Bool-cases (leb sub.size (length sub.ch))) [
      | inl full ↦ subst Sound (sym (offer-full h ev b sub e c full)) (
          dropped-Sound (b.dropped + 1) _
            (set_subscriber-Sound h sub sub b e refl (s.fits h sub e) s))
      | inr room ↦ subst Sound (sym (offer-room h ev b sub e c room)) (
          dropped-Sound b.dropped _ (
            set_subscriber-Sound h sub (record sub { ch = sub.ch ++ ev ∷ [] }) b e refl
              (sent-Fits sub ev (s.known ev.topic h sub m e) room (s.fits h sub e)) s))
    ]
  ]
]

offer-subscribers : (h : ℕ) (ev : Event) (b : Bus) → (offer h ev b).subscribers ≡ b.subscribers
unfolding offer safely_send set_subscriber
offer-subscribers h ev b = elim (Option-cases (b.heap h)) [
  | inl n ↦ rw (offer, n) refl
  | inr (sub, e) ↦ elim (Bool-cases sub.closed) [
    | inl c ↦ rw (offer, e, c) refl
    | inr c ↦ rw (offer, e, c) refl
  ]
]

pub deliver-Sound :
    (hs : List ℕ) (ev : Event) (b : Bus)
    → ((h : ℕ) → has h hs ≡ true → has h (b.subscribers ev.topic) ≡ true)
    → Sound b
    → Sound (deliver hs ev b)
unfolding deliver has
deliver-Sound [] ev b m s = s
deliver-Sound (h ∷ hs) ev b m s =
    deliver-Sound hs ev (offer h ev b)
      (λ k e.
        subst (λ f. has k (f ev.topic) ≡ true) (sym (offer-subscribers h ev b))
          (m k (ground arith)))
      (offer-Sound h ev b (m h (ground arith)) s)
