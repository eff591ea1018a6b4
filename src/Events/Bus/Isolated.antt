-- ===== src/Events/Bus/Isolated.antt =====
-- Channels that stay within their capacity and hold events of their subscriber's topics only.
use Prim.Native.String.{String}
use text.Mathlib.TextEquality.{eq_iff}
use text.Mathlib.TextPositions.{eq_refl}
use mathlib.Core.Path.{subst}
use falx_v.Base.{
  ℕ, ◌≤◌, ◌<◌, ◌≡◌, refl, sym, ap, Bool, true, false, ◌||◌, List, [], ◌∷◌, ◌++◌, none, some, All,
  ◌==◌, if◌then◌else◌, length, arith, Bool-cases, Option-cases, List-cases, inl, inr,
}
use falx_v.Base.Dict.{same, among}
use falx_v.Events.Bus.{
  Event, Subscriber, Bus, new_bus, set_subscriber, register, subscribe, has_id, remove_first,
  unregister, unsubscribe, stamped, publish, receive,
}
use falx_v.Events.Bus.Sound.{has, Fits, Sound, set_subscriber-Sound, deliver-Sound}

-- The calls of the bus and of its readers.
pub data Call : Type 0 where
  subscribes : (id : String) → (buf_size : ℕ) → (topics : List String) → Call
  unsubscribes : ℕ → Call
  publishes : Event → (fresh : String) → (now : ℕ) → Call
  receives : ℕ → Call

-- The bus after the calls; a call that panics leaves it.
unfoldable pub happens : List Call → Bus → Bus
happens [] b = b
happens (subscribes id buf_size topics ∷ cs) b = happens cs (subscribe id buf_size topics b)
happens (unsubscribes h ∷ cs) b = happens cs (elim (unsubscribe h b) [ none ↦ b | some b' ↦ b' ])
happens (publishes ev fresh now ∷ cs) b = happens cs (publish ev fresh now b)
happens (receives h ∷ cs) b = happens cs (receive h b)

-- Fewer registrations.
fewer-Sound :
    (f : String → List ℕ) (b : Bus)
    → ((t : String) (h : ℕ) → has h (f t) ≡ true → has h (b.subscribers t) ≡ true)
    → Sound b
    → Sound (record b { subscribers = f })
fewer-Sound f b less s = record {
  fits = s.fits;
  known = λ t h sub m e. s.known t h sub (less t h m) e;
  below = λ t h m. s.below t h (less t h m);
}

remove_first-has :
    (f : ℕ → Bool) (h : ℕ) (hs : List ℕ) → has h (remove_first f hs) ≡ true → has h hs ≡ true
unfolding remove_first has
remove_first-has f h [] e = e
remove_first-has f h (x ∷ hs) e = ground (arith, remove_first-has f h hs)

unregister-Sound : (id : String) (ts : List String) (b : Bus) → Sound b → Sound (unregister id ts b)
unfolding unregister
unregister-Sound id [] b s = s
unregister-Sound id (t ∷ ts) b s = unregister-Sound id ts _ (
    fewer-Sound _ b
      (λ k h m. elim (Bool-cases (same k t)) [
        | inl e ↦ remove_first-has (has_id b id) h (b.subscribers k) (ground arith)
        | inr e ↦ ground arith
      ])
      s)

has-append : (h k : ℕ) (xs : List ℕ) → has h (xs ++ k ∷ []) ≡ (has h xs || h == k)
unfolding has
has-append h k [] = ground arith
has-append h k (x ∷ xs) = ground (arith, has-append h k xs)

-- One more registration of a subscriber, for one of its topics.
register_one-Sound :
    (h : ℕ) (sub : Subscriber) (t : String) (b : Bus)
    → b.heap h ≡ some sub
    → h < b.next
    → among sub.topics t ≡ true
    → Sound b
    → Sound (record b {
      subscribers = λ k. if same k t then b.subscribers k ++ h ∷ [] else b.subscribers k;
    })
register_one-Sound h sub t b e lt m s = record {
  fits = s.fits;
  known = λ k j x n ex. elim (Bool-cases (has j (b.subscribers k))) [
    | inl old ↦ s.known k j x old ex
    | inr new ↦
        let is : j ≡ h = ground (arith, has-append j h (b.subscribers k)) in
        let key : k ≡ t = ground (arith, eq_iff k t, has-append j h (b.subscribers k)) in
        let same_sub : sub ≡ x = ground (arith, is) in
        subst (λ z. among z.topics k ≡ true) same_sub
          (subst (λ z. among sub.topics z ≡ true) (sym key) m)
  ];
  below = λ k j n. ground (arith, has-append j h (b.subscribers k), s.below k j);
}

register-Sound :
    (h : ℕ) (sub : Subscriber) (ts : List String) (b : Bus)
    → b.heap h ≡ some sub
    → h < b.next
    → All (λ t. among sub.topics t ≡ true) ts
    → Sound b
    → Sound (register h ts b)
unfolding register
register-Sound h sub [] b e lt a s = s
register-Sound h sub (t ∷ ts) b e lt (m, a) s =
    register-Sound h sub ts _ e lt a (register_one-Sound h sub t b e lt m s)

All-among :
    (ts us : List String)
    → ((t : String) → among ts t ≡ true → among us t ≡ true)
    → All (λ t. among us t ≡ true) ts
unfolding among
All-among [] us k = tt
All-among (t ∷ ts) us k =
    (k t (ground (arith, eq_refl t)), All-among ts us (λ x e. k x (ground (arith, e))))

subscribe-Sound :
    (id : String) (buf_size : ℕ) (topics : List String) (b : Bus)
    → Sound b
    → Sound (subscribe id buf_size topics b)
unfolding subscribe set_subscriber
subscribe-Sound id buf_size topics b s =
    let sub : Subscriber = record {
      id = id;
      topics = topics;
      size = buf_size;
      ch = [];
      closed = false;
    } in
    register-Sound b.next sub topics _ (ground arith) (omega arith)
      (All-among topics topics (λ t e. e))
      (record {
        fits = λ k x ex. elim (Bool-cases (k == b.next)) [
          | inl is ↦
              let is' : sub ≡ x = ground arith in
              subst Fits is' (record { within = omega arith; of_topics = tt })
          | inr other ↦ s.fits k x (ground arith)
        ];
        known = λ t k x m ex. s.known t k x m (ground (arith, s.below t k m));
        below = λ t k m. omega (arith, s.below t k m);
      })

unsubscribe-Sound : (h : ℕ) (b b' : Bus) → unsubscribe h b ≡ some b' → Sound b → Sound b'
unfolding unsubscribe
unsubscribe-Sound h b b' e s = elim (Option-cases (b.heap h)) [
  | inl n ↦ absurd (ground arith)
  | inr (sub, f) ↦ elim (Bool-cases sub.closed) [
    | inl c ↦ absurd (ground arith)
    | inr c ↦
        let ended : Subscriber = record sub { closed = true; ch = [] } in
        let is : unregister sub.id sub.topics (set_subscriber h ended b) ≡ b' = ground arith in
        subst Sound is (
          unregister-Sound sub.id sub.topics _ (
            set_subscriber-Sound h sub ended b f refl
              (record { within = omega arith; of_topics = tt }) s))
  ]
]

rest-Fits :
    (sub : Subscriber) (ev : Event) (evs : List Event)
    → sub.ch ≡ ev ∷ evs
    → Fits sub
    → Fits (record sub { ch = evs })
rest-Fits sub ev evs e f = record {
  within = omega (arith, f.within, ap length e);
  of_topics = (subst (All (λ x. among sub.topics x.topic ≡ true)) e f.of_topics).1;
}

receive-Sound : (h : ℕ) (b : Bus) → Sound b → Sound (receive h b)
unfolding receive
receive-Sound h b s = elim (Option-cases (b.heap h)) [
  | inl n ↦ rw (receive, n) s
  | inr (sub, e) ↦ elim (List-cases sub.ch) [
    | inl c ↦ rw (receive, e, c) s
    | inr (ev, evs, c) ↦
        rw (receive, e, c)
          (set_subscriber-Sound h sub (record sub { ch = evs }) b e refl
            (rest-Fits sub ev evs c (s.fits h sub e)) s)
  ]
]

happens-Sound : (cs : List Call) (b : Bus) → Sound b → Sound (happens cs b)
unfolding happens publish stamped
happens-Sound [] b s = s
happens-Sound (subscribes id buf_size topics ∷ cs) b s =
    happens-Sound cs _ (subscribe-Sound id buf_size topics b s)
happens-Sound (unsubscribes h ∷ cs) b s = elim (Option-cases (unsubscribe h b)) [
  | inl n ↦ rw n (happens-Sound cs b s)
  | inr (b', e) ↦ rw e (happens-Sound cs b' (unsubscribe-Sound h b b' e s))
]
happens-Sound (publishes ev fresh now ∷ cs) b s =
    happens-Sound cs _
      (deliver-Sound (b.subscribers ev.topic) (stamped ev fresh now) b (λ h e. e) s)
happens-Sound (receives h ∷ cs) b s = happens-Sound cs _ (receive-Sound h b s)

new_bus-Sound : Sound new_bus
unfolding new_bus has
new_bus-Sound = record {
  fits = λ h sub e. absurd (ground arith);
  known = λ t h sub m e. absurd (ground arith);
  below = λ t h m. absurd (ground arith);
}

-- Whatever calls a new bus gets, every subscriber's channel holds at most as many events as it was made
-- for, and each of them has one of the subscriber's topics.
pub happens-new_bus :
    (cs : List Call) (h : ℕ) (sub : Subscriber)
    → (happens cs new_bus).heap h ≡ some sub
    → (length sub.ch ≤ sub.size) × All (λ ev. among sub.topics ev.topic ≡ true) sub.ch
happens-new_bus cs h sub e =
    let f = (happens-Sound cs new_bus new_bus-Sound).fits h sub e in (f.within, f.of_topics)
