-- ===== src/Tests/Bus.antt =====
-- A subscriber of two topics on the bus of events.
use falx_v.Base.{◌≤◌, ◌≡◌, refl, true, false, List, [], ◌∷◌, ◌++◌, some, All, length, arith}
use falx_v.Base.Dict.{among}
use falx_v.Events.Bus.{
  info, Event, Subscriber, Bus, new_bus, set_subscriber, register, subscribe, offer, deliver,
  safely_send, publish, stamped,
}
use falx_v.Events.Bus.Isolated.{Call, subscribes, publishes, happens, happens-new_bus}
use falx_v.Events.Bus.Delivered.{once, publish-delivers}
use falx_v.Events.Bus.Sound.{has}

abbrev blocked_event : Event
blocked_event = record {
  id = "";
  topic = "security.ip.blocked";
  timestamp = 0;
  severity = info;
  title = "IP Address Blocked";
  message = "";
  source = "bpf-maps";
  actor_id = "soc";
  meta = [];
}

abbrev run_calls : List Call
run_calls =
    subscribes "soc" 2 ("security.ip.blocked" ∷ "auth.failed" ∷ [])
    ∷ publishes blocked_event "e1" 5
    ∷ publishes (record blocked_event { topic = "auth.login" }) "e2" 6
    ∷ []

abbrev soc : Subscriber
soc = record {
  id = "soc";
  topics = "security.ip.blocked" ∷ "auth.failed" ∷ [];
  size = 2;
  ch = record blocked_event { id = "e1"; timestamp = 5 } ∷ [];
  closed = false;
}

happens-new_bus_example :
    (length soc.ch ≤ soc.size) × All (λ ev. among soc.topics ev.topic ≡ true) soc.ch
unfolding happens new_bus subscribe register set_subscriber publish deliver offer safely_send
    stamped
happens-new_bus_example = happens-new_bus run_calls 0 soc refl

abbrev ran : Bus
ran = happens run_calls new_bus

publish-delivers_example :
    ((publish blocked_event "e3" 7 ran).heap 0
      ≡ some (record soc { ch = soc.ch ++ stamped blocked_event "e3" 7 ∷ [] }))
    × ((stamped blocked_event "e3" 7).topic ≡ blocked_event.topic)
unfolding happens new_bus subscribe register set_subscriber publish deliver offer safely_send
    stamped once has
publish-delivers_example =
    publish-delivers 0 soc blocked_event "e3" 7 ran refl refl refl (omega arith)
