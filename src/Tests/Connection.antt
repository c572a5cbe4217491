-- ===== src/Tests/Connection.antt =====
-- telephonist/wsclient.go: a call of `Stop` that the loop overwrites.
use telephonist_agent.Base.{ℕ, ◌≡◌, ◌≢◌, refl, [], true, false, none, done, panic}
use telephonist_agent.Ws.{
  stopped, disconnected, connecting, preparing, unset, unread, closed, OMessage, WsClient,
  new_ws_client, send,
}
use telephonist_agent.Ws.Lifecycle.{close_channel}
use telephonist_agent.Ws.Lifecycle.Loop.{
  Others, loop, idle, starting, at_head, looping, beginning, ticketing, ticketed, dialling,
  succeeding, ready, may_start, starts, goes_on, may_begin, begins, has_ticket, dials, may_connect,
  may_stop, stops, connects, closes, set_state, IsOpen, Reachable, initially, next,
}
use telephonist_agent.Ws.Lifecycle.Loop.Channels.{handed_while_pumping}

abbrev made : WsClient
made = record {
  state = stopped;
  send_messages = unset;
  sent = [];
  conn_open = false;
  event_channels = [];
  event_channels_seq = 0;
  last_error = none;
}

abbrev nobody : Others
nobody = record {
  reading = 0;
  introducing = 0;
  greeting = 0;
  ending = 0;
  stopping = 0;
  closing = 0;
}

abbrev begun : WsClient
begun = record made { state = connecting }

abbrev dialled : WsClient
dialled = record begun { send_messages = unread; conn_open = true }

dialled-Reachable : Reachable (loop succeeding dialled nobody)
unfolding new_ws_client set_state
dialled-Reachable =
    next (loop dialling (record begun { send_messages = unread }) nobody) _
      (next (loop ticketed begun nobody) _
        (next (loop ticketing begun nobody) _
          (next (loop beginning (record made { state = disconnected }) nobody) _
            (next (loop looping (record made { state = disconnected }) nobody) _
              (next (loop at_head (record made { state = disconnected }) nobody) _
                (next (loop starting made nobody) _
                  (next (loop idle made nobody) _ initially (may_start made nobody refl))
                  (starts made nobody))
                (goes_on (record made { state = disconnected }) nobody (λ e. cc)))
              (may_begin (record made { state = disconnected }) nobody refl))
            (begins (record made { state = disconnected }) nobody))
          (has_ticket begun nobody refl))
        (dials begun nobody))
      (may_connect (record begun { send_messages = unread }) nobody refl)

-- The client was stopped between the loop's check of the state and its setting: it is preparing again,
-- over a closed channel.
abbrev overwritten : WsClient
overwritten = record dialled { state = preparing; send_messages = closed }

overwritten-Reachable : Reachable (loop ready overwritten nobody)
unfolding set_state close_channel
overwritten-Reachable =
    next (loop ready (record dialled { state = preparing }) (record nobody { closing = 1 })) _
      (next (loop succeeding (record dialled { state = stopped }) (record nobody { closing = 1 })) _
        (next (loop succeeding dialled (record nobody { stopping = 1 })) _
          (next (loop succeeding dialled nobody) _ dialled-Reachable
            (may_stop succeeding dialled nobody (λ e. cc)))
          (stops succeeding dialled (record nobody { stopping = 1 }) 0 refl))
        (connects (record dialled { state = stopped }) (record nobody { closing = 1 })))
      (closes ready (record dialled { state = preparing }) (record nobody { closing = 1 }) 0 closed
        refl refl)

handed_while_pumping_example :
    ((m : OMessage) (c' : WsClient) → send m overwritten ≡ done c' → false ≡ true)
    × (IsOpen overwritten → closed ≢ unset)
    × (close_channel closed ≡ panic → closed ≢ closed → (false ≡ true) × (◌≡◌ {A = ℕ} 0 0))
handed_while_pumping_example = handed_while_pumping ready overwritten nobody overwritten-Reachable
