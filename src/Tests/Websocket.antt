-- ===== src/Tests/Websocket.antt =====
-- telephonist/wsclient.go and telephonist/events.go at small clients.
use telephonist_agent.Base.{
  ◌≢◌, ◌>>=◌, >>=-eq-done, ℕ, ◌≡◌, refl, codes, Bytes, [], ◌∷◌, true, false, none, some, lookup,
  insert, delete, Bytes-discrete, ℕ_discrete, done, arith,
}
use telephonist_agent.Errors.{message}
use telephonist_agent.Ws.{
  WsClient, ClientState-discrete, connected, disconnected, preparing, pumped, unset,
  set_subscriptions, subscribe, unsubscribe, synchronize, send_log, hello, send, on_greetings,
  add_event_channel, remove_event_channel,
}
use telephonist_agent.Ws.Subscriptions.{
  IsSynced, subscribed_after, add_event_channel-IsSynced, remove_event_channel-IsSynced,
}
use telephonist_agent.Base.{inl, inr}
use telephonist_agent.Ws.Receiving.{Decoders, RawMessage, Callbacks, IsSettled, handle_message}
use mathlib.Core.Path.{subst}
use telephonist_agent.Task.{DefinedTask}
use telephonist_agent.Ws.Reading.{
  read_pump, read_message, unmarshalled, text, not_text, unexpectedly_closed, read_pump-IsSettled,
}
use telephonist_agent.Ws.Writing.{
  MarshalMessage, write_pump, received, writer, channel_closed, tick, none_left, one_more,
  message_served, tick_served, write_pump_delivers,
}
use telephonist_agent.Ws.Lifecycle.{on_disconnect}
use telephonist_agent.Ws.Lifecycle.{on_introduction, write_pump_ends, Host}
use telephonist_agent.Ws.Lifecycle.Connection.{write_pump_ends-reconnects}
use telephonist_agent.Queue.{EventQueue, is_subscribed, subscribe_queue}
use telephonist_agent.Queue.Delivery.{
  entry, IsHeld, IsFresh, subscribe_queue-IsHeld, add_event_channel-keeps,
}

abbrev build : Bytes
build = codes "b"

-- A connected client without event channels.
abbrev idle : WsClient
idle = record {
  state = connected;
  send_messages = pumped;
  sent = [];
  conn_open = true;
  event_channels = [];
  event_channels_seq = 0;
  last_error = none;
}

-- The same with one channel for one event.
abbrev listening : WsClient
listening = record idle {
  sent = subscribe build ∷ [];
  event_channels = (build, (1, 7) ∷ []) ∷ [];
  event_channels_seq = 1;
}

idle-IsSynced : IsSynced idle
unfolding subscribed_after lookup
idle-IsSynced e = refl

add_event_channel-IsSynced_example : IsSynced listening
unfolding add_event_channel send lookup insert
add_event_channel-IsSynced_example =
    add_event_channel-IsSynced build 7 idle listening 1 idle-IsSynced refl

added : add_event_channel build 7 idle ≡ done (listening, 1)
unfolding add_event_channel send lookup insert
added = refl

listening-IsSynced : IsSynced listening
listening-IsSynced = add_event_channel-IsSynced build 7 idle listening 1 idle-IsSynced added

-- The client after the channel is removed.
abbrev silent : WsClient
silent = record listening { sent = unsubscribe build ∷ subscribe build ∷ []; event_channels = [] }

remove_event_channel-IsSynced_example : IsSynced silent
unfolding remove_event_channel send lookup delete Bytes-discrete ℕ_discrete
remove_event_channel-IsSynced_example =
    remove_event_channel-IsSynced build 1 listening silent listening-IsSynced refl

abbrev new_one : EventQueue
new_one = record { channel = 7; subscribed = [] }

abbrev builds : EventQueue
builds = record { channel = 7; subscribed = (build, 1) ∷ [] }

new_one-IsHeld : IsHeld new_one idle
unfolding lookup
new_one-IsHeld e i h = absurd (none-ne-some h)
  where
    none-ne-some : none ≡ some i → ⊥
    none-ne-some q = cc

builds-IsHeld : IsHeld builds listening
unfolding subscribe_queue is_subscribed add_event_channel send lookup insert
builds-IsHeld =
    (subscribe_queue-IsHeld build new_one builds idle listening false new_one-IsHeld idle-IsSynced
      refl).0

idle-IsFresh : IsFresh idle
unfolding lookup entry
idle-IsFresh e i ch h = absurd (none-ne-some h)
  where
    none-ne-some : none ≡ some ch → ⊥
    none-ne-some q = cc

add_event_channel-keeps_example :
    ((e : Bytes) (i ch : ℕ) → entry idle e i ≡ some ch → entry listening e i ≡ some ch)
    × (entry listening build 1 ≡ some 7)
    × IsFresh listening
add_event_channel-keeps_example =
    add_event_channel-keeps build 7 idle listening 1 idle-IsFresh (omega arith) added

-- A client that was started and has no connection.
abbrev offline : WsClient
offline = record idle { state = disconnected; send_messages = unset; conn_open = false }

abbrev no_text : ℕ → Bytes
no_text n = []

abbrev prepared : WsClient
prepared = record offline { state = preparing; conn_open = true; send_messages = pumped }

write_pump_ends-reconnects_example :
    ((write_pump_ends idle).state ≡ disconnected) × ((write_pump_ends idle).conn_open ≡ false)
write_pump_ends-reconnects_example = write_pump_ends-reconnects idle refl

abbrev host : Host
host = record {
  compatibility_key = [];
  os = [];
  connection_uuid = 1;
  pid = 2;
  instance_id = 3;
  machine_id = [];
}

greeted : (c : WsClient) × (on_introduction host prepared ≡ done c)
unfolding on_introduction send ClientState-discrete
greeted = (_, refl)

-- Decoders that take every text for one value.
abbrev decoders : Decoders
decoders = record {
  error_data = λ b. none;
  event = λ b. inr (message []);
  tasks = λ b. inl [];
  task = λ b. inr (message []);
  task_id = λ b. inl 1;
  introduction_data = λ b. none;
  not_a_pointer = message [];
}

abbrev greetings : RawMessage
greetings = record { message_type = codes "greetings"; raw_data = [] }

abbrev renewed : WsClient
renewed = record listening { sent = set_subscriptions (build ∷ []) ∷ subscribe build ∷ [] }

abbrev hung_up : WsClient
hung_up = record renewed { conn_open = false; state = disconnected }

-- A task subscribes to the event; no other callback is set.
abbrev subscribing : Callbacks
subscribing = record {
  on_tasks = none;
  on_task = some (λ task c. add_event_channel build 7 c >>= λ r. done r.0);
  on_task_removed = none;
}

add_event_channel-prepared :
    (c c' : WsClient) (id : ℕ)
    → c.state ≢ preparing
    → add_event_channel build 7 c ≡ done (c', id)
    → c'.state ≢ preparing
unfolding add_event_channel send
add_event_channel-prepared c c' id n h e = n (grind arith)

subscribes :
    (task : DefinedTask) (c c' : WsClient)
    → IsSettled c
    → (add_event_channel build 7 c >>= λ r. done r.0) ≡ done c'
    → IsSettled c'
subscribes task c c' v h =
    let (r, added, same) =
      >>=-eq-done {B = WsClient} (add_event_channel build 7 c) (λ r. done r.0) h in
    let v' : IsSettled r.0 = record {
      synced = add_event_channel-IsSynced build 7 c r.0 r.1 v.synced added;
      prepared = add_event_channel-prepared c r.0 r.1 v.prepared added;
    } in
    subst IsSettled (ground arith) v'

read_pump-IsSettled_example : IsSettled hung_up
unfolding read_pump read_message unmarshalled handle_message on_greetings send on_disconnect
    Bytes-discrete ℕ_discrete
read_pump-IsSettled_example =
    read_pump-IsSettled (λ b rm. (greetings, false)) decoders host subscribing greetings
      (not_text ∷ text [] ∷ unexpectedly_closed ∷ []) listening hung_up [] true tt subscribes tt
      (record { synced = listening-IsSynced; prepared = λ e. cc }) refl

-- Only subscriptions are encoded.
abbrev marshal : MarshalMessage
marshal (subscribe name) = some name
marshal (unsubscribe name) = none
marshal (set_subscriptions names) = none
marshal synchronize = none
marshal (send_log logs) = none
marshal (hello introduction) = none

write_pump_delivers_example :
    write_pump marshal
      (received (subscribe build) (writer true)
        ∷ tick true
        ∷ received (unsubscribe build) (writer true)
        ∷ received (subscribe []) (writer true)
        ∷ channel_closed
        ∷ tick true
        ∷ [])
      idle
    ≡ (write_pump_ends idle, build ∷ [] ∷ [], true)
write_pump_delivers_example =
    write_pump_delivers marshal
      (received (subscribe build) (writer true)
        ∷ tick true
        ∷ received (unsubscribe build) (writer true)
        ∷ received (subscribe []) (writer true)
        ∷ [])
      (tick true ∷ []) idle
      (one_more (message_served (subscribe build)) (
        one_more tick_served (
          one_more (message_served (unsubscribe build))
            (one_more (message_served (subscribe [])) none_left))))
