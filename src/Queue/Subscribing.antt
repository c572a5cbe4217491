-- ===== src/Queue/Subscribing.antt =====
-- telephonist/events.go: a subscription returns while the client's messages are sent.
use telephonist_agent.Base.{
  ◌≡◌, Bytes, Bool, true, false, lookup, insert, Bytes-discrete, Option-cases, inl, inr, arith,
  done, >>=-eq-done,
}
use telephonist_agent.Ws.{WsClient, pumped, add_event_channel}
use telephonist_agent.Ws.Sending.{add_event_channel-Returns}
use telephonist_agent.Queue.{EventQueue, is_subscribed, subscribe_queue, subscribe_new}

-- While the client's messages are sent, `Subcribe` returns, and they still are.
pub subscribe_queue-returns :
    (event : Bytes) (q : EventQueue) (c : WsClient)
    → c.send_messages ≡ pumped
    → (r : EventQueue × WsClient × Bool) × (subscribe_queue event q c ≡ done r)
      × (r.1.send_messages ≡ pumped)
unfolding subscribe_queue subscribe_new is_subscribed
subscribe_queue-returns event q c p =
    elim (Option-cases (lookup Bytes-discrete event q.subscribed)) [
      | inr (i, there) ↦ ((q, c, true), ground arith, p)
      | inl absent ↦
          let (c', added, p') = add_event_channel-Returns event q.channel c p in
          let (r, taken, same) =
            >>=-eq-done {B = WsClient} (add_event_channel event q.channel c) (λ r. done r.0)
              added in
          (
            (record q { subscribed = insert Bytes-discrete event r.1 q.subscribed }, r.0, false),
            ground arith,
            ground arith,
          )
    ]
