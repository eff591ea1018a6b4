-- ===== src/Events/Bus.antt =====
-- The bus, control-plane/pkg/events/bus.go. A subscriber is known by a number, its address; a call is
-- one step, and no reader waits at a channel. The builders of single events are left out.
pub mod Sound
pub mod Isolated
pub mod Delivered
use Prim.Native.String.{String}
use falx_v.Base.{
  ℕ, ◌+◌, Bool, true, false, not, ◌&&◌, ◌||◌, List, [], ◌∷◌, ◌++◌, Option, none, some, leb, ◌==◌,
  if◌then◌else◌, length,
}
use falx_v.Base.Dict.{same}

pub data Severity : Type 0 where
  info warning error critical : Severity

pub record Event : Type 0 where
  pub id : String
  pub topic : String
  pub timestamp : ℕ
  pub severity : Severity
  pub title : String
  pub message : String
  pub source : String
  pub actor_id : String
  pub meta : List (String × String)

-- The channel with its capacity; it is closed exactly when the flag is set.
pub record Subscriber : Type 0 where
  pub id : String
  pub topics : List String
  pub size : ℕ
  pub ch : List Event
  pub closed : Bool

pub record Bus : Type 0 where
  pub heap : ℕ → Option Subscriber
  pub next : ℕ
  pub subscribers : String → List ℕ
  pub dropped : ℕ

unfoldable pub new_bus : Bus
new_bus = record { heap = λ h. none; next = 0; subscribers = λ t. []; dropped = 0 }

unfoldable pub set_subscriber : ℕ → Subscriber → Bus → Bus
set_subscriber h sub b = record b { heap = λ k. if k == h then some sub else b.heap k }

unfoldable pub register : ℕ → List String → Bus → Bus
register h [] b = b
register h (t ∷ ts) b = register h ts (record b {
  subscribers = λ k. if same k t then b.subscribers k ++ h ∷ [] else b.subscribers k;
})

unfoldable pub subscribe : (id : String) → (buf_size : ℕ) → (topics : List String) → Bus → Bus
subscribe id buf_size topics b =
    let sub : Subscriber = record {
      id = id;
      topics = topics;
      size = buf_size;
      ch = [];
      closed = false;
    } in
    register b.next topics (record (set_subscriber b.next sub b) { next = b.next + 1 })

-- Whether the subscriber behind a number has the id.
unfoldable pub has_id : Bus → String → ℕ → Bool
has_id b id h = elim (b.heap h) [ none ↦ false | some sub ↦ same sub.id id ]

unfoldable pub remove_first : (ℕ → Bool) → List ℕ → List ℕ
remove_first f [] = []
remove_first f (h ∷ hs) = let rest = remove_first f hs in if f h then hs else h ∷ rest

unfoldable pub unregister : String → List String → Bus → Bus
unregister id [] b = b
unregister id (t ∷ ts) b = unregister id ts (record b {
  subscribers =
      λ k. if same k t then remove_first (has_id b id) (b.subscribers k) else b.subscribers k;
})

-- `none` stands for the panic of a channel that is closed twice.
unfoldable pub unsubscribe : ℕ → Bus → Option Bus
unsubscribe h b = elim (b.heap h) [
  | none ↦ none
  | some sub ↦
      if sub.closed
      then none
      else some (
          unregister sub.id sub.topics (set_subscriber h (record sub { closed = true; ch = [] }) b))
]

-- Whether the event went into the channel.
unfoldable pub safely_send : Subscriber → Event → Subscriber × Bool
safely_send sub ev =
    if sub.closed || leb sub.size (length sub.ch)
    then (sub, false)
    else (record sub { ch = sub.ch ++ ev ∷ [] }, true)

unfoldable pub offer : ℕ → Event → Bus → Bus
offer h ev b = elim (b.heap h) [
  | none ↦ b
  | some sub ↦
      if sub.closed
      then b
      else let (sub', sent) = safely_send sub ev in
        record (set_subscriber h sub' b) { dropped = if sent then b.dropped else b.dropped + 1 }
]

unfoldable pub deliver : List ℕ → Event → Bus → Bus
deliver [] ev b = b
deliver (h ∷ hs) ev b = deliver hs ev (offer h ev b)

-- An event without an id or a time gets the ones of the call.
unfoldable pub stamped : Event → (fresh : String) → (now : ℕ) → Event
stamped ev fresh now = record ev {
  id = if same ev.id "" then fresh else ev.id;
  timestamp = if ev.timestamp == 0 then now else ev.timestamp;
}

unfoldable pub publish : Event → (fresh : String) → (now : ℕ) → Bus → Bus
publish ev fresh now b = deliver (b.subscribers ev.topic) (stamped ev fresh now) b

-- A reader takes the first event of a channel.
unfoldable pub receive : ℕ → Bus → Bus
receive h b = elim (b.heap h) [
  | none ↦ b
  | some sub ↦ elim sub.ch [ [] ↦ b | ev ∷ evs ↦ set_subscriber h (record sub { ch = evs }) b ]
]
