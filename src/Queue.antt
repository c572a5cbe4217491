-- ===== src/Queue.antt =====
-- telephonist/events.go: an event queue, which subscribes one Go channel to many events.
pub mod Delivery
pub mod Subscribing
pub mod Offers
use telephonist_agent.Base.{
  ℕ, Bytes, [], ◌∷◌, Bool, true, false, Option, none, some, Map, lookup, insert, delete,
  Bytes-discrete, Go, done, ◌>>=◌,
}
use telephonist_agent.Ws.{WsClient, add_event_channel, remove_event_channel}

-- The client that the queue points to is passed beside it.
pub record EventQueue : Type 0 where
  pub channel : ℕ
  pub subscribed : Map Bytes ℕ

-- `NewQueue` of the client; the channel is a new one.
unfoldable pub new_queue : ℕ → EventQueue
new_queue channel = record { channel = channel; subscribed = [] }

abbrev pub found : {A : Type 0} → Option A → Bool
found none = false
found (some _) = true

unfoldable pub is_subscribed : Bytes → EventQueue → Bool
is_subscribed event_key q = found (lookup Bytes-discrete event_key q.subscribed)

subscribe_new : Bytes → EventQueue → WsClient → Go (EventQueue × WsClient × Bool)
subscribe_new event_key q c = do
  (c', id) ← add_event_channel event_key q.channel c
  done (record q { subscribed = insert Bytes-discrete event_key id q.subscribed }, c', false)

-- `Subcribe`: whether the queue was subscribed before the call.
unfoldable pub subscribe_queue : Bytes → EventQueue → WsClient → Go (EventQueue × WsClient × Bool)
unfolding is_subscribed subscribe_new
subscribe_queue event_key q c = elim (is_subscribed event_key q) [
  | true ↦ done (q, c, true)
  | false ↦ subscribe_new event_key q c
]

-- `Unsubscribe`: whether the queue was subscribed before the call.
unfoldable pub unsubscribe_queue : Bytes → EventQueue → WsClient → Go (EventQueue × WsClient × Bool)
unsubscribe_queue event_key q c = elim (lookup Bytes-discrete event_key q.subscribed) [
  | none ↦ done (q, c, false)
  | some id ↦ do
    c' ← remove_event_channel event_key id c
    done (record q { subscribed = delete Bytes-discrete event_key q.subscribed }, c', true)
]

-- The loop of `UnsubscribeAll` over the map.
unfoldable pub unsubscribe_each : Map Bytes ℕ → WsClient → Go WsClient
unsubscribe_each [] c = done c
unsubscribe_each ((event_key, id) ∷ rest) c = do
  c' ← remove_event_channel event_key id c
  unsubscribe_each rest c'

-- `UnsubscribeAll`, which leaves the queue's own map as it is.
unfoldable pub unsubscribe_all : EventQueue → WsClient → Go WsClient
unfolding unsubscribe_each
unsubscribe_all q c = unsubscribe_each q.subscribed c
