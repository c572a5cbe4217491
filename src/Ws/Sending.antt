-- ===== src/Ws/Sending.antt =====
-- telephonist/wsclient.go: while `writePump` receives, no call waits on the channel or panics.
use telephonist_agent.Base.{
  ℕ, ◌+◌, ◌%◌, ◌^◌, ◌≡◌, Bytes, [], ◌∷◌, lookup, insert, delete, length, Bytes-discrete, ℕ_discrete,
  keys, Option-cases, inl, inr, arith, Go, done, ◌>>=◌,
}
use telephonist_agent.Ws.{
  WsClient, OMessage, subscribe, unsubscribe, set_subscriptions, pumped, send, add_event_channel,
  remove_event_channel, on_greetings,
}

-- A call that returns and leaves the channel received from.
abbrev pub Returns : Go WsClient → Type 0
Returns m = (c : WsClient) × (m ≡ done c) × (c.send_messages ≡ pumped)

send-Returns : (m : OMessage) (c : WsClient) → c.send_messages ≡ pumped → Returns (send m c)
unfolding send
send-Returns m c p = (record c { sent = m ∷ c.sent }, ground arith, p)

pub remove_event_channel-Returns :
    (name : Bytes) (id : ℕ) (c : WsClient)
    → c.send_messages ≡ pumped
    → Returns (remove_event_channel name id c)
unfolding remove_event_channel
remove_event_channel-Returns name id c p =
    elim (Option-cases (lookup Bytes-discrete name c.event_channels)) [
      | inl absent ↦ (c, ground arith, p)
      | inr (channels, there) ↦
          let rest = delete ℕ_discrete id channels in
          elim (ℕ_discrete (length rest) 0) [
            | yes last ↦
                let (c', sent, p') =
                  send-Returns (unsubscribe name)
                    (record c { event_channels = delete Bytes-discrete name c.event_channels }) p in
                (c', ground arith, p')
            | no more ↦ (
              record c { event_channels = insert Bytes-discrete name rest c.event_channels },
              ground arith,
              p,
            )
          ]
    ]

pub add_event_channel-Returns :
    (name : Bytes) (channel : ℕ) (c : WsClient)
    → c.send_messages ≡ pumped
    → Returns (add_event_channel name channel c >>= λ r. done r.0)
unfolding add_event_channel
add_event_channel-Returns name channel c p =
    let id = (c.event_channels_seq + 1) % 2 ^ 32 in
    elim (Option-cases (lookup Bytes-discrete name c.event_channels)) [
      | inr (channels, there) ↦ (
        record c {
          event_channels_seq = id;
          event_channels =
              insert Bytes-discrete name (insert ℕ_discrete id channel channels) c.event_channels;
        },
        ground arith,
        p,
      )
      | inl absent ↦
          let (c', sent, p') =
            send-Returns (subscribe name)
              (record c {
                event_channels_seq = id;
                event_channels = insert Bytes-discrete name ((id, channel) ∷ []) c.event_channels;
              })
              p in
          (c', ground arith, p')
    ]

-- When the channel `sendMessages` is received from, `addEventChannel`, `removeEventChannel` and
-- `onGreetings` return, without waiting and without a panic, and it is received from after them.
pub pumped-Returns :
    (name : Bytes) (channel id : ℕ) (c : WsClient)
    → c.send_messages ≡ pumped
    → Returns (add_event_channel name channel c >>= λ r. done r.0)
      × Returns (remove_event_channel name id c)
      × Returns (on_greetings c)
unfolding on_greetings
pumped-Returns name channel id c p = (
  add_event_channel-Returns name channel c p,
  remove_event_channel-Returns name id c p,
  send-Returns (set_subscriptions (keys c.event_channels)) c p,
)
