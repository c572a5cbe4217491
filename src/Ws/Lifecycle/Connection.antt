-- ===== src/Ws/Lifecycle/Connection.antt =====
-- telephonist/wsclient.go: the connection is open exactly while the client is preparing or connected.
use telephonist_agent.Base.{
  ◌∙◌, ap, ℕ, ◌≡◌, ◌≢◌, refl, Bytes, true, false, Bool, Option, none, some, done, panic, exit, inl,
  inr, ◌⊎◌, arith,
}
use telephonist_agent.Errors.{Error, Errors}
use telephonist_agent.Ws.{
  ClientState, stopped, disconnected, connecting, preparing, connected, unset, pumped, unread,
  closed, WsClient, send_on, send,
}
use telephonist_agent.Ws.Lifecycle.{
  require_state, transition_state, ticket_error, connect_with_ticket, connect, after_connect, round,
  on_disconnect, left, write_pump_ends, close_channel, stop, Host, on_introduction,
}

-- The states in which the client holds an open connection.
abbrev pub holds_conn : ClientState → Bool
holds_conn stopped = false
holds_conn disconnected = false
holds_conn connecting = false
holds_conn preparing = true
holds_conn connected = true

pub record IsTracked (c : WsClient) : Type 0 where
  pub tracked : c.conn_open ≡ holds_conn c.state

-- From a disconnected client, when the ticket is issued and the dialer connects, a round of the
-- loop leaves a preparing client with an open connection, a channel that is read and no error.
pub round_connects :
    (strerror : ℕ → Bytes) (ticket : Bytes) (c : WsClient)
    → c.state ≡ disconnected
    → round strerror (inr ticket) none c
      ≡ done (record c {
        state = preparing;
        conn_open = true;
        send_messages = pumped;
        last_error = none;
      })
unfolding round connect after_connect connect_with_ticket transition_state require_state
round_connects strerror ticket c e = ground arith

-- From a disconnected client without an open connection, when there is no ticket or the dialer
-- fails, a round of the loop returns, neither ending the process nor waiting; the client is
-- disconnected again, has no open connection, and the round's error is set.
pub round_fails :
    (strerror : ℕ → Bytes) (ticket : Errors ⊎ Bytes) (dialed : Option Error) (c : WsClient)
    → c.state ≡ disconnected
    → IsTracked c
    → ((text : Bytes) → ticket ≡ inr text → dialed ≢ none)
    → (c' : WsClient) × (round strerror ticket dialed c ≡ done c')
      × (c'.state ≡ disconnected)
      × IsTracked c'
      × (c'.last_error ≢ none)
unfolding round connect after_connect connect_with_ticket transition_state require_state
round_fails strerror (inl errors) dialed c e t h = (
  record c { state = disconnected; last_error = some (ticket_error strerror errors) },
  ground arith,
  refl,
  record { tracked = t.tracked ∙ ap holds_conn e },
  λ g. cc,
)
round_fails strerror (inr text) none c e t h = absurd (h text refl refl)
round_fails strerror (inr text) (some err) c e t h = (
  record c {
    state = disconnected;
    send_messages = unread;
    conn_open = false;
    last_error = some err;
  },
  ground arith,
  refl,
  record { tracked = refl },
  λ g. cc,
)

-- In any state but disconnected a round ends the process.
pub round_exits :
    (strerror : ℕ → Bytes) (ticket : Errors ⊎ Bytes) (dialed : Option Error) (c : WsClient)
    → c.state ≢ disconnected
    → round strerror ticket dialed c ≡ exit
unfolding round connect transition_state require_state
round_exits strerror ticket dialed c h = ground arith

-- When the writer of a preparing or connected client ends, the client is disconnected and its
-- connection is closed.
pub write_pump_ends-reconnects :
    (c : WsClient)
    → holds_conn c.state ≡ true
    → ((write_pump_ends c).state ≡ disconnected) × ((write_pump_ends c).conn_open ≡ false)
unfolding write_pump_ends on_disconnect left
write_pump_ends-reconnects c h = ground arith

-- When a client that holds an open connection is stopped while its channel is open, the end of its
-- writer leaves the connection open and the client stopped.
pub stop_leaves_open :
    (c : WsClient)
    → holds_conn c.state ≡ true
    → c.conn_open ≡ true
    → (c.send_messages ≡ pumped) ⊎ (c.send_messages ≡ unread)
    → (c' : WsClient) × (stop c ≡ done c')
      × ((write_pump_ends c').state ≡ stopped)
      × ((write_pump_ends c').conn_open ≡ true)
unfolding stop close_channel write_pump_ends on_disconnect left
stop_leaves_open c h o ch =
    (record c { state = stopped; send_messages = closed }, ground arith, refl, o)

-- A client that was started and has not yet dialled panics when it is stopped.
pub stop_panics : (c : WsClient) → c.state ≢ stopped → c.send_messages ≡ unset → stop c ≡ panic
unfolding stop close_channel
stop_panics c h e = ground arith

-- When the connection is open exactly in the states that hold one and the handling of an
-- introduction returns, it is still so; a preparing client is now connected, and a client in any
-- other state is as it was.
pub on_introduction_tracks :
    (host : Host) (c c' : WsClient)
    → IsTracked c
    → on_introduction host c ≡ done c'
    → IsTracked c' × (c.state ≡ preparing → c'.state ≡ connected) × (c.state ≢ preparing → c' ≡ c)
unfolding on_introduction send send_on
on_introduction_tracks host c c' t h =
    (record { tracked = ground arith }, λ e. ground arith, λ e. ground arith)
