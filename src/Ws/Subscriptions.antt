-- ===== src/Ws/Subscriptions.antt =====
-- telephonist/wsclient.go: what the server makes of the subscription messages, against the event
-- channels that the client holds.
use telephonist_agent.Base.{
  ℕ, ◌≡◌, refl, Bytes, List, [], ◌∷◌, Bool, true, false, Option, none, some, Map, keys, lookup,
  Bytes-discrete, ite, done, arith, lookup-insert, lookup-delete,
}
use telephonist_agent.Ws.{
  WsClient, OMessage, set_subscriptions, subscribe, unsubscribe, synchronize, send_log, hello,
  pumped, send, add_event_channel, remove_event_channel, on_greetings,
}

abbrev pub is_some : {A : Type 0} → Option A → Bool
is_some none = false
is_some (some a) = true

pub listed : Bytes → List Bytes → Bool
listed e [] = false
listed e (x ∷ xs) = ite (Bytes-discrete e x) true (listed e xs)

-- Whether the server holds a subscription to the event after the messages, the latest first. The hello of
-- a connection lists the subscriptions that it begins with, so that those of an earlier connection end.
unfoldable pub subscribed_after : List OMessage → Bytes → Bool
unfolding listed
subscribed_after [] e = false
subscribed_after (set_subscriptions es ∷ ms) e = listed e es
subscribed_after (subscribe x ∷ ms) e = ite (Bytes-discrete x e) true (subscribed_after ms e)
subscribed_after (unsubscribe x ∷ ms) e = ite (Bytes-discrete x e) false (subscribed_after ms e)
subscribed_after (synchronize ∷ ms) e = subscribed_after ms e
subscribed_after (send_log l ∷ ms) e = subscribed_after ms e
subscribed_after (hello h ∷ ms) e = listed e h.subscriptions

-- The server holds a subscription to just the events that have an event channel.
abbrev pub IsSynced : WsClient → Type 0
IsSynced c =
    (e : Bytes) → subscribed_after c.sent e ≡ is_some (lookup Bytes-discrete e c.event_channels)

pub listed-keys :
    (e : Bytes) (m : Map Bytes (Map ℕ ℕ)) → listed e (keys m) ≡ is_some (lookup Bytes-discrete e m)
unfolding listed lookup
listed-keys e [] = refl
listed-keys e (x ∷ m) = ground (arith, listed-keys e m)

-- What a send that returns has done.
pub send_returns :
    (m : OMessage) {c c' : WsClient}
    → send m c ≡ done c'
    → (c' ≡ record c { sent = m ∷ c.sent }) × (c.send_messages ≡ pumped)
unfolding send
send_returns m {c} h = ground arith

-- After an answer to the server's greeting that returns, the server holds a subscription to just the
-- events that have an event channel, whatever was sent before.
pub on_greetings-IsSynced : (c c' : WsClient) → on_greetings c ≡ done c' → IsSynced c'
unfolding on_greetings subscribed_after send
on_greetings-IsSynced c c' h e = ground (arith, listed-keys e c.event_channels)

-- If the server holds a subscription to just the events that have an event channel, it does so after
-- a call of `addEventChannel` that returns.
pub add_event_channel-IsSynced :
    (name : Bytes) (channel : ℕ) (c c' : WsClient) (id : ℕ)
    → IsSynced c
    → add_event_channel name channel c ≡ done (c', id)
    → IsSynced c'
unfolding add_event_channel subscribed_after
add_event_channel-IsSynced name channel c c' id s h e = grind (arith, s e, lookup-insert)

-- If the server holds a subscription to just the events that have an event channel, it does so after
-- a call of `removeEventChannel` that returns.
pub remove_event_channel-IsSynced :
    (name : Bytes) (id : ℕ) (c c' : WsClient)
    → IsSynced c
    → remove_event_channel name id c ≡ done c'
    → IsSynced c'
unfolding remove_event_channel subscribed_after
remove_event_channel-IsSynced name id c c' s h e = grind (arith, s e, lookup-insert, lookup-delete)
