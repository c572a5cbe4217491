-- ===== src/Ws.antt =====
-- telephonist/wsclient.go: the websocket client's state, and the messages that it sends.
pub mod Subscriptions
pub mod Sending
pub mod Lifecycle
pub mod Receiving
pub mod Reading
pub mod Writing
use telephonist_agent.Base.{
  ℕ, ◌+◌, ◌%◌, ◌^◌, Bytes, codes, List, [], ◌∷◌, Bool, true, false, Option, none, some, Map, keys,
  length, lookup, insert, delete, Bytes-discrete, ℕ_discrete, ite, Go, done, panic, blocked, ◌>>=◌,
}
use telephonist_agent.Errors.{Error}

pub data ClientState : Type 0 where
  stopped disconnected connecting preparing connected : ClientState

unfoldable pub ClientState-discrete : Discrete ClientState
ClientState-discrete = hlevel

-- The unbuffered channel `sendMessages`. A send waits for a receiver, which is `writePump`.
pub data Channel : Type 0 where
  unset : Channel  -- nil: no connection was tried
  pumped : Channel  -- `writePump` receives
  unread : Channel  -- made, and no `writePump` receives
  closed : Channel

pub record LogRecord : Type 0 where
  pub time : ℕ
  pub severity : ℕ
  pub body : Bytes

pub record LogMessage : Type 0 where
  pub sequence_id : Bytes
  pub logs : List LogRecord

pub record HelloMessage : Type 0 where
  pub subscriptions : List Bytes
  pub supported_features : List Bytes
  pub client_name : Bytes
  pub client_version : Bytes
  pub compatibility_key : Bytes
  pub os : Bytes
  pub connection_uuid : ℕ
  pub pid : ℕ
  pub instance_id : ℕ
  pub machine_id : Bytes

-- `oRawMessage`: one constructor for each message type, with its data.
pub data OMessage : Type 0 where
  set_subscriptions : List Bytes → OMessage
  subscribe : Bytes → OMessage
  unsubscribe : Bytes → OMessage
  synchronize : OMessage
  send_log : LogMessage → OMessage
  hello : HelloMessage → OMessage

-- `sent` is what went through the channel, the latest first. An event channel is a number.
pub record WsClient : Type 0 where
  pub state : ClientState
  pub send_messages : Channel
  pub sent : List OMessage
  pub conn_open : Bool
  pub event_channels : Map Bytes (Map ℕ ℕ)
  pub event_channels_seq : ℕ
  pub last_error : Option Error

-- `String`
unfoldable pub state_text : ClientState → Bytes
state_text stopped = codes "Stopped"
state_text disconnected = codes "Disconnected"
state_text connecting = codes "Connecting"
state_text preparing = codes "Preparing"
state_text connected = codes "Connected"

-- `IsStarted` and `IsConnected`
unfoldable pub is_started : WsClient → Bool
unfolding ClientState-discrete
is_started c = ite (ClientState-discrete c.state stopped) false true

unfoldable pub is_connected : WsClient → Bool
unfolding ClientState-discrete
is_connected c = ite (ClientState-discrete c.state connected) true false

unfoldable pub new_ws_client : WsClient
new_ws_client = record {
  state = stopped;
  send_messages = unset;
  sent = [];
  conn_open = false;
  event_channels = [];
  event_channels_seq = 0;
  last_error = none;
}

-- `c.sendMessages <- m`
send_on : Channel → OMessage → WsClient → Go WsClient
send_on unset m c = blocked
send_on pumped m c = done (record c { sent = m ∷ c.sent })
send_on unread m c = blocked
send_on closed m c = panic

unfoldable pub send : OMessage → WsClient → Go WsClient
unfolding send_on
send m c = send_on c.send_messages m c

-- `addEventChannel`: the client, and the subscription's number.
unfoldable pub add_event_channel : Bytes → ℕ → WsClient → Go (WsClient × ℕ)
unfolding send
add_event_channel event_name channel c =
    let id = (c.event_channels_seq + 1) % 2 ^ 32 in
    let c' = record c { event_channels_seq = id } in
    elim (lookup Bytes-discrete event_name c.event_channels) [
      | some channels ↦ done (
        record c' {
          event_channels =
              insert Bytes-discrete event_name (insert ℕ_discrete id channel channels)
                c.event_channels;
        },
        id,
      )
      | none ↦ do
        c'' ← send (subscribe event_name) (record c' {
          event_channels = insert Bytes-discrete event_name ((id, channel) ∷ []) c.event_channels;
        })
        done (c'', id)
    ]

-- `removeEventChannel`
unfoldable pub remove_event_channel : Bytes → ℕ → WsClient → Go WsClient
unfolding send
remove_event_channel event_name id c = elim (lookup Bytes-discrete event_name c.event_channels) [
  | none ↦ done c
  | some channels ↦
      let rest = delete ℕ_discrete id channels in
      ite (ℕ_discrete (length rest) 0)
        (send (unsubscribe event_name)
          (record c { event_channels = delete Bytes-discrete event_name c.event_channels }))
        (done
          (record c { event_channels = insert Bytes-discrete event_name rest c.event_channels }))
]

-- `onGreetings`, whose callback does nothing.
unfoldable pub on_greetings : WsClient → Go WsClient
unfolding send
on_greetings c = send (set_subscriptions (keys c.event_channels)) c
