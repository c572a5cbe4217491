-- ===== src/Ws/Lifecycle.antt =====
-- telephonist/wsclient.go: the life of the websocket client's connection.
pub mod Connection
pub mod Loop
use telephonist_agent.Base.{
  ℕ, ◌+◌, Bytes, codes, [], ◌∷◌, ◌++◌, true, false, Option, none, some, ite, show_ℕ, Go, done,
  panic, exit, ◌>>=◌, inl, inr, ◌⊎◌,
}
use telephonist_agent.Errors.{Error, Errors, message, unexpected_status_code, nil, cons, error_text}
use telephonist_agent.Ws.{
  ClientState, ClientState-discrete, stopped, disconnected, connecting, preparing, connected,
  Channel, unset, pumped, unread, closed, OMessage, synchronize, send_log, hello, LogMessage,
  WsClient, send,
}

-- `requireState`, which ends the process when the state is another one.
unfoldable pub require_state : ClientState → WsClient → Go WsClient
require_state expected c = ite (ClientState-discrete c.state expected) (done c) exit

unfoldable pub transition_state : ClientState → ClientState → WsClient → Go WsClient
unfolding require_state
transition_state expected new c = do c' ← require_state expected c; done (record c' { state = new })

numbered : (ℕ → Bytes) → ℕ → Errors → Bytes
numbered strerror index nil = []
numbered strerror index (cons e rest) =
    codes "\n\t"
    ++ show_ℕ (index + 1)
    ++ codes ") "
    ++ error_text strerror e
    ++ numbered strerror (index + 1) rest

-- The error of `connect` when no ticket was issued.
ticket_error : (ℕ → Bytes) → Errors → Error
unfolding numbered
ticket_error strerror (cons (unexpected_status_code status text body) nil) =
    unexpected_status_code status text body
ticket_error strerror (cons e nil) =
    message (codes "failed to issue WS ticket: " ++ error_text strerror e)
ticket_error strerror errors =
    message (codes "failed to issue WS ticket: " ++ numbered strerror 0 errors)

-- `connectWithTicket`, by what the dialer answers: no error, or one.
connect_with_ticket : Option Error → WsClient → Go (WsClient × Option Error)
connect_with_ticket dialed c = do
  c' ← require_state connecting c
  let c'' = record c' { send_messages = unread }
  elim dialed [
    | some err ↦ do
      c₃ ← transition_state connecting disconnected (record c'' { conn_open = false })
      done (c₃, some err)
    | none ↦ do
      c₃ ← transition_state connecting preparing (record c'' { conn_open = true })
      done (c₃, none)
  ]

-- `connect`, by what the server answers to the request for a ticket and what the dialer answers.
unfoldable pub connect :
    (ℕ → Bytes) → Errors ⊎ Bytes → Option Error → WsClient → Go (WsClient × Option Error)
unfolding connect_with_ticket ticket_error require_state
connect strerror ticket dialed c = do
  c' ← transition_state disconnected connecting c
  elim ticket [
    | inl errors ↦ do
      c'' ← transition_state connecting disconnected c'
      done (c'', some (ticket_error strerror errors))
    | inr text ↦ connect_with_ticket dialed c'
  ]

-- What a round of `runLoop` does before the pumps run; they receive when there is no error.
after_connect : WsClient × Option Error → Go WsClient
after_connect (c, some err) = done (record c { last_error = some err })
after_connect (c, none) = do
  c' ← require_state preparing (record c { last_error = none })
  done (record c' { send_messages = pumped })

unfoldable pub round : (ℕ → Bytes) → Errors ⊎ Bytes → Option Error → WsClient → Go WsClient
unfolding connect after_connect require_state
round strerror ticket dialed c = do r ← connect strerror ticket dialed c; after_connect r

-- `onDisconnect`, which a pump calls when it ends.
unfoldable pub on_disconnect : WsClient → WsClient
on_disconnect c = elim c.state [
  | connected ↦ record c { conn_open = false; state = disconnected }
  | preparing ↦ record c { conn_open = false; state = disconnected }
  | stopped ↦ c
  | disconnected ↦ c
  | connecting ↦ c
]

-- The channel when `writePump` no longer receives from it.
pub left : Channel → Channel
left pumped = unread
left channel = channel

-- The end of `writePump`.
unfoldable pub write_pump_ends : WsClient → WsClient
unfolding left on_disconnect
write_pump_ends c = on_disconnect (record c { send_messages = left c.send_messages })

-- `close(c.sendMessages)`
unfoldable pub close_channel : Channel → Go Channel
close_channel unset = panic
close_channel pumped = done closed
close_channel unread = done closed
close_channel closed = panic

-- `Stop`
unfoldable pub stop : WsClient → Go WsClient
unfolding close_channel
stop c = ite (ClientState-discrete c.state stopped) (done c) (do
  channel ← close_channel c.send_messages
  done (record c { state = stopped; send_messages = channel }))

not_connected : Error
not_connected = message (codes "client is not connected")

-- `SendWebsocketMessage`
unfoldable pub send_websocket_message : OMessage → WsClient → Go (WsClient × Option Error)
unfolding not_connected send
send_websocket_message m c =
    ite (ClientState-discrete c.state connected) (do c' ← send m c; done (c', none))
      (done (c, some not_connected))

unfoldable pub send_tasks_sync : WsClient → Go (WsClient × Option Error)
send_tasks_sync c = send_websocket_message synchronize c

unfoldable pub send_logs : LogMessage → WsClient → Go (WsClient × Option Error)
send_logs logs c = send_websocket_message (send_log logs) c

-- What `onIntroduction` reads from the system and from the client's options.
pub record Host : Type 0 where
  pub compatibility_key : Bytes
  pub os : Bytes
  pub connection_uuid : ℕ
  pub pid : ℕ
  pub instance_id : ℕ
  pub machine_id : Bytes

-- `onIntroduction`
unfoldable pub on_introduction : Host → WsClient → Go WsClient
unfolding send
on_introduction host c =
    ite (ClientState-discrete c.state preparing)
      (send
        (hello (record {
          subscriptions = [];
          supported_features =
              codes "settings:sync" ∷ codes "settings" ∷ codes "purpose:application_host" ∷ [];
          client_name = codes "Telephonist Agent";
          client_version = codes "0.3.3";
          compatibility_key = host.compatibility_key;
          os = host.os;
          connection_uuid = host.connection_uuid;
          pid = host.pid;
          instance_id = host.instance_id;
          machine_id = host.machine_id;
        }))
        (record c { state = connected }))
      (done c)
