-- ===== src/Queue/Delivery.antt =====
-- telephonist/events.go with telephonist/wsclient.go: a queue's subscriptions are entries of the
-- client's table of event channels.
use telephonist_agent.Base.{
  ℕ, ◌≡◌, ◌⊎◌, ◌≤◌, ◌<◌, ◌+◌, ◌^◌, ◌%◌, Bytes, Bool, true, false, Option, none, some, lookup,
  insert, delete, Bytes-discrete, ℕ_discrete, ite, done, arith, lookup-insert, lookup-delete,
  lookup_of_empty, Option-cases, Bool-cases, >>=-eq-done, inl, inr,
}
use telephonist_agent.Ws.{WsClient, send, add_event_channel, remove_event_channel}
use telephonist_agent.Ws.Subscriptions.{
  IsSynced, add_event_channel-IsSynced, remove_event_channel-IsSynced,
}
use telephonist_agent.Queue.{
  EventQueue, is_subscribed, subscribe_queue, subscribe_new, unsubscribe_queue,
}

-- The channel that the client's table holds for an event under a number.
unfoldable pub entry : WsClient → Bytes → ℕ → Option ℕ
entry c e i = elim (lookup Bytes-discrete e c.event_channels) [
  | none ↦ none
  | some channels ↦ lookup ℕ_discrete i channels
]

entry-add :
    (name : Bytes) (channel : ℕ) (c c' : WsClient) (id : ℕ) (e : Bytes) (i : ℕ)
    → add_event_channel name channel c ≡ done (c', id)
    → entry c' e i
      ≡ ite
          (Bytes-discrete name e)
          (ite (ℕ_discrete id i) (some channel) (entry c e i))
          (entry c e i)
unfolding entry add_event_channel send lookup
entry-add name channel c c' id e i h = grind (arith, lookup-insert)

entry-remove :
    (name : Bytes) (id : ℕ) (c c' : WsClient) (e : Bytes) (i : ℕ)
    → remove_event_channel name id c ≡ done c'
    → entry c' e i
      ≡ ite (Bytes-discrete name e) (ite (ℕ_discrete id i) none (entry c e i)) (entry c e i)
unfolding entry remove_event_channel send
entry-remove name id c c' e i h =
    grind (arith, lookup-insert, lookup-delete, lookup_of_empty, lookup_of_empty)

-- Every subscription of the queue stands in the client's table, under the queue's channel.
abbrev pub IsHeld : EventQueue → WsClient → Type 0
IsHeld q c =
    (e : Bytes) (i : ℕ)
    → lookup Bytes-discrete e q.subscribed ≡ some i
    → entry c e i ≡ some q.channel

subscribe_queue_new :
    (k : Bytes) (q : EventQueue) (c : WsClient) (r : EventQueue × WsClient × Bool)
    → is_subscribed k q ≡ false
    → subscribe_queue k q c ≡ done r
    → subscribe_new k q c ≡ done r
unfolding subscribe_queue
subscribe_queue_new k q c r fresh h = ground arith

subscribe_queue_cases :
    (event_key : Bytes) (q q' : EventQueue) (c c' : WsClient) (was : Bool)
    → subscribe_queue event_key q c ≡ done (q', c', was)
    → ((q' ≡ q) × (c' ≡ c) × (is_subscribed event_key q ≡ true))
      ⊎ ((id : ℕ) × (add_event_channel event_key q.channel c ≡ done (c', id))
          × (q' ≡ record q { subscribed = insert Bytes-discrete event_key id q.subscribed }))
unfolding subscribe_queue
subscribe_queue_cases k q q' c c' was h = elim (Bool-cases (is_subscribed k q)) [
  | inl there ↦ inl (ground arith, ground arith, there)
  | inr fresh ↦
      let (x, added, e) =
        >>=-eq-done (add_event_channel k q.channel c)
          (λ x.
            done (record q { subscribed = insert Bytes-discrete k x.1 q.subscribed }, x.0, false))
          (subscribe_queue_new k q c _ fresh h) in
      inr (x.1, ground arith, ground arith)
]

unsubscribe_queue_cases :
    (event_key : Bytes) (q q' : EventQueue) (c c' : WsClient) (was : Bool)
    → unsubscribe_queue event_key q c ≡ done (q', c', was)
    → ((q' ≡ q) × (c' ≡ c) × (is_subscribed event_key q ≡ false))
      ⊎ ((id : ℕ) × (remove_event_channel event_key id c ≡ done c')
          × (q' ≡ record q { subscribed = delete Bytes-discrete event_key q.subscribed }))
unfolding unsubscribe_queue is_subscribed
unsubscribe_queue_cases event_key q q' c c' was h =
    elim (Option-cases (lookup Bytes-discrete event_key q.subscribed)) [
      | inl missing ↦ inl (ground arith, ground arith, ground arith)
      | inr (id, there) ↦ inr (id, ground arith, ground arith)
    ]

-- If all the subscriptions of a queue stand in the client's table under the queue's channel, and the
-- server holds a subscription to just the events of that table, both are so after a call of
-- `Subcribe` that returns, and the queue is then subscribed to the event.
pub subscribe_queue-IsHeld :
    (event_key : Bytes) (q q' : EventQueue) (c c' : WsClient) (was : Bool)
    → IsHeld q c
    → IsSynced c
    → subscribe_queue event_key q c ≡ done (q', c', was)
    → IsHeld q' c' × IsSynced c' × (is_subscribed event_key q' ≡ true)
unfolding is_subscribed
subscribe_queue-IsHeld k q q' c c' was held synced h =
    elim (subscribe_queue_cases k q q' c c' was h) [
      | inl (eq, ec, there) ↦
          (λ e i p. ground (arith, held e i), λ e. ground (arith, synced e), ground arith)
      | inr (id, added, eq) ↦ (
        λ e i p. ground (
          arith,
          held e i,
          entry-add k q.channel c c' id e i,
          lookup-insert Bytes-discrete k e id q.subscribed,
        ),
        add_event_channel-IsSynced k q.channel c c' id synced added,
        ground (arith, lookup-insert Bytes-discrete k k id q.subscribed),
      )
    ]

-- If all the subscriptions of a queue stand in the client's table under the queue's channel, and the
-- server holds a subscription to just the events of that table, both are so after a call of
-- `Unsubscribe` that returns, and the queue is then not subscribed to the event.
pub unsubscribe_queue-IsHeld :
    (event_key : Bytes) (q q' : EventQueue) (c c' : WsClient) (was : Bool)
    → IsHeld q c
    → IsSynced c
    → unsubscribe_queue event_key q c ≡ done (q', c', was)
    → IsHeld q' c' × IsSynced c' × (is_subscribed event_key q' ≡ false)
unfolding is_subscribed
unsubscribe_queue-IsHeld k q q' c c' was held synced h =
    elim (unsubscribe_queue_cases k q q' c c' was h) [
      | inl (eq, ec, there) ↦
          (λ e i p. ground (arith, held e i), λ e. ground (arith, synced e), ground arith)
      | inr (id, removed, eq) ↦ (
        λ e i p. ground (
          arith,
          held e i,
          entry-remove k id c c' e i,
          lookup-delete Bytes-discrete k e q.subscribed,
        ),
        remove_event_channel-IsSynced k id c c' synced removed,
        ground (arith, lookup-delete Bytes-discrete k k q.subscribed),
      )
    ]

pub is_subscribed-subscribe_queue :
    (k e : Bytes) (q q' : EventQueue) (c c' : WsClient) (was : Bool)
    → subscribe_queue k q c ≡ done (q', c', was)
    → is_subscribed e q' ≡ ite (Bytes-discrete k e) true (is_subscribed e q)
unfolding is_subscribed
is_subscribed-subscribe_queue k e q q' c c' was h = elim (subscribe_queue_cases k q q' c c' was h) [
  | inl (eq, ec, there) ↦ ground arith
  | inr (id, added, eq) ↦ ground (arith, lookup-insert Bytes-discrete k e id q.subscribed)
]

pub is_subscribed-unsubscribe_queue :
    (k e : Bytes) (q q' : EventQueue) (c c' : WsClient) (was : Bool)
    → unsubscribe_queue k q c ≡ done (q', c', was)
    → is_subscribed e q' ≡ ite (Bytes-discrete k e) false (is_subscribed e q)
unfolding is_subscribed
is_subscribed-unsubscribe_queue k e q q' c c' was h =
    elim (unsubscribe_queue_cases k q q' c c' was h) [
      | inl (eq, ec, missing) ↦ ground arith
      | inr (id, removed, eq) ↦ ground (arith, lookup-delete Bytes-discrete k e q.subscribed)
    ]

-- The numbers in use are not above the counter.
abbrev pub IsFresh : WsClient → Type 0
IsFresh c = (e : Bytes) (i ch : ℕ) → entry c e i ≡ some ch → i ≤ c.event_channels_seq

add_event_channel-id :
    (name : Bytes) (channel : ℕ) (c c' : WsClient) (id : ℕ)
    → add_event_channel name channel c ≡ done (c', id)
    → (id ≡ (c.event_channels_seq + 1) % 2 ^ 32) × (c'.event_channels_seq ≡ id)
unfolding add_event_channel send
add_event_channel-id name channel c c' id h = ground arith

-- As long as the 32-bit counter does not wrap, a new event channel displaces none: the entries of
-- all the events stay, the new one stands under its event, and the numbers stay fresh.
pub add_event_channel-keeps :
    (name : Bytes) (channel : ℕ) (c c' : WsClient) (id : ℕ)
    → IsFresh c
    → c.event_channels_seq + 1 < 2 ^ 32
    → add_event_channel name channel c ≡ done (c', id)
    → ((e : Bytes) (i ch : ℕ) → entry c e i ≡ some ch → entry c' e i ≡ some ch)
      × (entry c' name id ≡ some channel)
      × IsFresh c'
add_event_channel-keeps name channel c c' id fresh small h =
    let (number, counter) = add_event_channel-id name channel c c' id h in
    (
      λ e i ch k. ground (arith, fresh e i ch, entry-add name channel c c' id e i h),
      ground (arith, entry-add name channel c c' id name id h),
      λ e i ch k. ground (arith, fresh e i ch, entry-add name channel c c' id e i h),
    )
