-- ===== src/Ws/Lifecycle/Loop.antt =====
-- telephonist/wsclient.go: `runLoop`, its pumps, introductions and calls of `Stop` as steps that
-- interleave. No lock guards the state: what checks it and what then sets it are two steps.
pub mod Channels
use telephonist_agent.Base.{ℕ, suc, ◌≡◌, ◌≢◌, ◌⊎◌, true, false, none, some, done}
use telephonist_agent.Errors.{Error}
use telephonist_agent.Ws.{
  ClientState, stopped, disconnected, connecting, preparing, connected, Channel, unread, pumped,
  OMessage, HelloMessage, hello, WsClient, new_ws_client, send,
}
use telephonist_agent.Ws.Lifecycle.{left, close_channel}

-- Where `runLoop` stands. Not running; having checked that it may start; at the head of its loop; in its
-- body; having checked that it may connect; waiting for a ticket; having checked, with no ticket, that it
-- may give up; having checked that it may dial; dialling; having checked, with an error and without one,
-- that it may go on; with a connection; having checked that the connection is being prepared; in
-- `writePump`; having left its loop; and having checked that it is to disconnect.
pub data Phase : Type 0 where
  idle starting at_head looping beginning ticketing giving_up ticketed dialling failing succeeding :
      Phase
  ready prepared pumping leaving disconnecting : Phase

-- The other goroutines, by where they stand: `readPump`s that read, that have checked that an introduction
-- is due, that have set the state for it and that are to disconnect; and calls of `Stop` that have checked
-- the state and that have set it.
pub record Others : Type 0 where
  pub reading : ℕ
  pub introducing : ℕ
  pub greeting : ℕ
  pub ending : ℕ
  pub stopping : ℕ
  pub closing : ℕ

pub data Loop : Type 0 where
  loop : Phase → WsClient → Others → Loop

-- `c.state = state`
unfoldable pub set_state : ClientState → WsClient → WsClient
set_state state c = record c { state = state }

-- The channel once `writePump` receives from it.
unfoldable pub entered : Channel → Channel
entered unread = pumped
entered channel = channel

-- `onDisconnect` is to disconnect.
abbrev pub IsOpen : WsClient → Type 0
IsOpen c = (c.state ≡ connected) ⊎ (c.state ≡ preparing)

-- What may happen next. Any goroutine may hand a message over once `writePump` takes it, whatever it has
-- checked before. The calls of `requireState` that end the process are no steps. Two calls of
-- `onDisconnect` may overlap here, where the code has a lock for them alone.
pub data Step : Loop → Loop → Type 0 where
  may_start :
      (c : WsClient) (o : Others) → c.state ≡ stopped → Step (loop idle c o) (loop starting c o)
  starts :
      (c : WsClient) (o : Others)
      → Step (loop starting c o) (loop at_head (set_state disconnected c) o)
  ends : (c : WsClient) (o : Others) → c.state ≡ stopped → Step (loop at_head c o) (loop idle c o)
  goes_on :
      (c : WsClient) (o : Others) → c.state ≢ stopped → Step (loop at_head c o) (loop looping c o)
  may_begin :
      (c : WsClient) (o : Others)
      → c.state ≡ disconnected
      → Step (loop looping c o) (loop beginning c o)
  begins :
      (c : WsClient) (o : Others)
      → Step (loop beginning c o) (loop ticketing (set_state connecting c) o)
  has_no_ticket :
      (c : WsClient) (o : Others)
      → c.state ≡ connecting
      → Step (loop ticketing c o) (loop giving_up c o)
  gives_up :
      (c : WsClient) (o : Others) (err : Error)
      → Step
          (loop giving_up c o)
          (loop at_head (record (set_state disconnected c) { last_error = some err }) o)
  has_ticket :
      (c : WsClient) (o : Others)
      → c.state ≡ connecting
      → Step (loop ticketing c o) (loop ticketed c o)
  dials :
      (c : WsClient) (o : Others)
      → Step (loop ticketed c o) (loop dialling (record c { send_messages = unread }) o)
  may_fail :
      (c : WsClient) (o : Others)
      → c.state ≡ connecting
      → Step (loop dialling c o) (loop failing (record c { conn_open = false }) o)
  fails :
      (c : WsClient) (o : Others) (err : Error)
      → Step
          (loop failing c o)
          (loop at_head (record (set_state disconnected c) { last_error = some err }) o)
  may_connect :
      (c : WsClient) (o : Others)
      → c.state ≡ connecting
      → Step (loop dialling c o) (loop succeeding (record c { conn_open = true }) o)
  connects :
      (c : WsClient) (o : Others)
      → Step (loop succeeding c o) (loop ready (set_state preparing c) o)
  may_pump :
      (c : WsClient) (o : Others)
      → c.state ≡ preparing
      → Step (loop ready c o) (loop prepared (record c { last_error = none }) o)
  pumps :
      (c : WsClient) (o : Others)
      → Step (loop prepared c o) (
          loop pumping
            (record c { send_messages = entered c.send_messages })
            (record o { reading = suc o.reading }))
  leaves :
      (c : WsClient) (o : Others)
      → Step (loop pumping c o) (loop leaving (record c { send_messages = left c.send_messages }) o)
  has_left : (c : WsClient) (o : Others) → ¬ IsOpen c → Step (loop leaving c o) (loop at_head c o)
  may_disconnect :
      (c : WsClient) (o : Others) → IsOpen c → Step (loop leaving c o) (loop disconnecting c o)
  disconnects :
      (c : WsClient) (o : Others)
      → Step
          (loop disconnecting c o)
          (loop at_head (record (set_state disconnected c) { conn_open = false }) o)
  reader_ends :
      (p : Phase) (c : WsClient) (o : Others) (n : ℕ)
      → o.reading ≡ suc n
      → ¬ IsOpen c
      → Step (loop p c o) (loop p c (record o { reading = n }))
  reader_may_disconnect :
      (p : Phase) (c : WsClient) (o : Others) (n : ℕ)
      → o.reading ≡ suc n
      → IsOpen c
      → Step (loop p c o) (loop p c (record o { reading = n; ending = suc o.ending }))
  reader_disconnects :
      (p : Phase) (c : WsClient) (o : Others) (n : ℕ)
      → o.ending ≡ suc n
      → Step (loop p c o) (
          loop p
            (record (set_state disconnected c) { conn_open = false })
            (record o { ending = n }))
  may_introduce :
      (p : Phase) (c : WsClient) (o : Others) (n : ℕ)
      → o.reading ≡ suc n
      → c.state ≡ preparing
      → Step (loop p c o) (loop p c (record o { reading = n; introducing = suc o.introducing }))
  introduces :
      (p : Phase) (c : WsClient) (o : Others) (n : ℕ)
      → o.introducing ≡ suc n
      → Step
          (loop p c o)
          (loop p (set_state connected c) (record o { introducing = n; greeting = suc o.greeting }))
  greets :
      (p : Phase) (c c' : WsClient) (o : Others) (n : ℕ) (h : HelloMessage)
      → o.greeting ≡ suc n
      → send (hello h) c ≡ done c'
      → Step (loop p c o) (loop p c' (record o { greeting = n; reading = suc o.reading }))
  hands_over :
      (p : Phase) (c c' : WsClient) (o : Others) (m : OMessage)
      → send m c ≡ done c'
      → Step (loop p c o) (loop p c' o)
  may_stop :
      (p : Phase) (c : WsClient) (o : Others)
      → c.state ≢ stopped
      → Step (loop p c o) (loop p c (record o { stopping = suc o.stopping }))
  stops :
      (p : Phase) (c : WsClient) (o : Others) (n : ℕ)
      → o.stopping ≡ suc n
      → Step
          (loop p c o)
          (loop p (set_state stopped c) (record o { stopping = n; closing = suc o.closing }))
  closes :
      (p : Phase) (c : WsClient) (o : Others) (n : ℕ) (channel : Channel)
      → o.closing ≡ suc n
      → close_channel c.send_messages ≡ done channel
      → Step (loop p c o) (loop p (record c { send_messages = channel }) (record o { closing = n }))

-- What a new client comes to.
pub data Reachable : Loop → Type 0 where
  initially : Reachable (
      loop idle new_ws_client (record {
        reading = 0;
        introducing = 0;
        greeting = 0;
        ending = 0;
        stopping = 0;
        closing = 0;
      }))
  next : (l l' : Loop) → Reachable l → Step l l' → Reachable l'
