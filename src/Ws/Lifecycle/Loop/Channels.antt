-- ===== src/Ws/Lifecycle/Loop/Channels.antt =====
-- telephonist/wsclient.go: the channel of messages in every interleaving of the loop.
use telephonist_agent.Base.{◌≡◌, ◌≢◌, refl, Bool, true, false, done, panic, arith}
use telephonist_agent.Ws.{
  Channel, unset, unread, pumped, closed, OMessage, hello, WsClient, new_ws_client, send, send_on,
}
use telephonist_agent.Ws.Subscriptions.{send_returns}
use telephonist_agent.Ws.Lifecycle.{left, close_channel}
use telephonist_agent.Ws.Lifecycle.Loop.{
  Phase, idle, starting, at_head, looping, beginning, ticketing, giving_up, ticketed, dialling,
  failing, succeeding, ready, prepared, pumping, leaving, disconnecting, Others, Loop, loop,
  set_state, entered, IsOpen, Step, ends, has_left, may_start, starts, goes_on, may_begin, begins,
  has_no_ticket, gives_up, has_ticket, dials, may_fail, fails, may_connect, connects, may_pump,
  pumps, leaves, may_disconnect, disconnects, reader_ends, reader_may_disconnect,
  reader_disconnects, may_introduce, introduces, greets, hands_over, may_stop, stops, closes,
  Reachable, initially, next,
}

-- `writePump` receives.
abbrev pub receives : Phase → Bool
receives pumping = true
receives idle = false
receives starting = false
receives at_head = false
receives looping = false
receives beginning = false
receives ticketing = false
receives giving_up = false
receives ticketed = false
receives dialling = false
receives failing = false
receives succeeding = false
receives ready = false
receives prepared = false
receives leaving = false
receives disconnecting = false

-- The loop has not come to dialling in this round.
abbrev pub is_early : Phase → Bool
is_early idle = true
is_early starting = true
is_early at_head = true
is_early looping = true
is_early beginning = true
is_early ticketing = true
is_early giving_up = true
is_early ticketed = true
is_early dialling = false
is_early failing = false
is_early succeeding = false
is_early ready = false
is_early prepared = false
is_early pumping = false
is_early leaving = false
is_early disconnecting = false

-- The channel is received from in `writePump` only, and it is nil only where the loop has not dialled and no
-- `readPump` runs.
pub record IsChannelled (p : Phase) (channel : Channel) (o : Others) : Type 0 where
  pub received : channel ≡ pumped → receives p ≡ true
  pub early : channel ≡ unset → is_early p ≡ true
  pub unread_by :
      channel ≡ unset → (o.reading ≡ 0) × (o.introducing ≡ 0) × (o.greeting ≡ 0) × (o.ending ≡ 0)

abbrev pub Channels : Loop → Type 0
Channels (loop p c o) = IsChannelled p c.send_messages o

left-unpumped : (channel : Channel) → left channel ≢ pumped
unfolding left
left-unpumped unset e = ground arith
left-unpumped unread e = ground arith
left-unpumped pumped e = ground arith
left-unpumped closed e = ground arith

left-unset : (channel : Channel) → left channel ≡ unset → channel ≡ unset
unfolding left
left-unset unset e = refl
left-unset unread e = e
left-unset pumped e = absurd (ground arith)
left-unset closed e = e

entered-unset : (channel : Channel) → entered channel ≡ unset → channel ≡ unset
unfolding entered
entered-unset unset e = refl
entered-unset unread e = absurd (ground arith)
entered-unset pumped e = e
entered-unset closed e = e

close_channel-closed :
    (channel channel' : Channel) → close_channel channel ≡ done channel' → channel' ≡ closed
unfolding close_channel
close_channel-closed unset channel' h = absurd (ground arith)
close_channel-closed unread channel' h = ground arith
close_channel-closed pumped channel' h = ground arith
close_channel-closed closed channel' h = absurd (ground arith)

kept :
    (p p' : Phase) (channel : Channel) (o : Others)
    → receives p ≡ receives p'
    → is_early p ≡ is_early p'
    → IsChannelled p channel o
    → IsChannelled p' channel o
kept p p' channel o r i v = record {
  received = λ e. ground (arith, v.received e);
  early = λ e. ground (arith, v.early e);
  unread_by = v.unread_by;
}

step-Channels : (l l' : Loop) → Channels l → Step l l' → Channels l'
unfolding set_state entered left close_channel send send_on
step-Channels l l' v (may_start c o h) = kept idle starting c.send_messages o refl refl v
step-Channels l l' v (starts c o) = kept starting at_head c.send_messages o refl refl v
step-Channels l l' v (ends c o h) = kept at_head idle c.send_messages o refl refl v
step-Channels l l' v (goes_on c o h) = kept at_head looping c.send_messages o refl refl v
step-Channels l l' v (may_begin c o h) = kept looping beginning c.send_messages o refl refl v
step-Channels l l' v (begins c o) = kept beginning ticketing c.send_messages o refl refl v
step-Channels l l' v (has_no_ticket c o h) = kept ticketing giving_up c.send_messages o refl refl v
step-Channels l l' v (gives_up c o err) = kept giving_up at_head c.send_messages o refl refl v
step-Channels l l' v (has_ticket c o h) = kept ticketing ticketed c.send_messages o refl refl v
step-Channels l l' v (dials c o) = record {
  received = λ e. ground arith;
  early = λ e. ground arith;
  unread_by = λ e. ground arith;
}
step-Channels l l' v (may_fail c o h) = kept dialling failing c.send_messages o refl refl v
step-Channels l l' v (fails c o err) = record {
  received = v.received;
  early = λ e. refl;
  unread_by = v.unread_by;
}
step-Channels l l' v (may_connect c o h) = kept dialling succeeding c.send_messages o refl refl v
step-Channels l l' v (connects c o) = kept succeeding ready c.send_messages o refl refl v
step-Channels l l' v (may_pump c o h) = kept ready prepared c.send_messages o refl refl v
step-Channels l l' v (pumps c o) = record {
  received = λ e. refl;
  early = λ e. absurd (ground (arith, v.early (entered-unset c.send_messages e)));
  unread_by = λ e. absurd (ground (arith, v.early (entered-unset c.send_messages e)));
}
step-Channels l l' v (leaves c o) = record {
  received = λ e. absurd (left-unpumped c.send_messages e);
  early = λ e. absurd (ground (arith, v.early (left-unset c.send_messages e)));
  unread_by = λ e. v.unread_by (left-unset c.send_messages e);
}
step-Channels l l' v (has_left c o h) = record {
  received = v.received;
  early = λ e. refl;
  unread_by = v.unread_by;
}
step-Channels l l' v (may_disconnect c o h) =
    kept leaving disconnecting c.send_messages o refl refl v
step-Channels l l' v (disconnects c o) = record {
  received = v.received;
  early = λ e. refl;
  unread_by = v.unread_by;
}
step-Channels l l' v (reader_ends p c o n r h) = record {
  received = v.received;
  early = v.early;
  unread_by = λ e. ground (arith, v.unread_by e);
}
step-Channels l l' v (reader_may_disconnect p c o n r h) = record {
  received = v.received;
  early = v.early;
  unread_by = λ e. ground (arith, v.unread_by e);
}
step-Channels l l' v (reader_disconnects p c o n r) = record {
  received = v.received;
  early = v.early;
  unread_by = λ e. ground (arith, v.unread_by e);
}
step-Channels l l' v (may_introduce p c o n r h) = record {
  received = v.received;
  early = v.early;
  unread_by = λ e. ground (arith, v.unread_by e);
}
step-Channels l l' v (introduces p c o n r) = record {
  received = v.received;
  early = v.early;
  unread_by = λ e. ground (arith, v.unread_by e);
}
step-Channels l l' v (greets p c c' o n m r h) =
    let (same, sends) = send_returns (hello m) h in
    record {
      received = λ e. v.received sends;
      early = λ e. absurd (ground arith);
      unread_by = λ e. absurd (ground arith);
    }
step-Channels l l' v (hands_over p c c' o m h) =
    let (same, taken) = send_returns m h in
    record {
      received = λ e. v.received taken;
      early = λ e. absurd (ground arith);
      unread_by = λ e. absurd (ground arith);
    }
step-Channels l l' v (may_stop p c o h) = record {
  received = v.received;
  early = v.early;
  unread_by = v.unread_by;
}
step-Channels l l' v (stops p c o n r) = record {
  received = v.received;
  early = v.early;
  unread_by = v.unread_by;
}
step-Channels l l' v (closes p c o n channel r h) =
    let shut = close_channel-closed c.send_messages channel h in
    record {
      received = λ e. absurd (ground arith);
      early = λ e. absurd (ground arith);
      unread_by = λ e. absurd (ground arith);
    }

-- In every interleaving of the loop, the pumps, introductions and calls of `Stop` that begins with a new
-- client, with each check of the state and each change of it a step of its own: the channel of messages is
-- received from only where the loop is in `writePump`; and it is nil only where the loop has not come to
-- dialling in its round and no `readPump` runs.
pub Reachable-Channels : (l : Loop) → Reachable l → Channels l
unfolding new_ws_client
Reachable-Channels l initially = record {
  received = λ e. absurd (ground arith);
  early = λ e. refl;
  unread_by = λ e. (refl, refl, refl, refl);
}
Reachable-Channels l (next l1 l2 r s) = step-Channels l1 l2 (Reachable-Channels l1 r) s

-- Where the channel is nil, the connection is neither being prepared nor connected.
abbrev pub IsShut : Loop → Type 0
IsShut (loop p c o) = c.send_messages ≡ unset → ¬ IsOpen c

step-IsShut : (l l' : Loop) → Channels l → IsShut l → Step l l' → IsShut l'
unfolding set_state close_channel
step-IsShut l l' w v (may_start c o h) = λ e i. v e i
step-IsShut l l' w v (starts c o) = λ e i. ground arith
step-IsShut l l' w v (ends c o h) = λ e i. v e i
step-IsShut l l' w v (goes_on c o h) = λ e i. v e i
step-IsShut l l' w v (may_begin c o h) = λ e i. v e i
step-IsShut l l' w v (begins c o) = λ e i. ground arith
step-IsShut l l' w v (has_no_ticket c o h) = λ e i. v e i
step-IsShut l l' w v (gives_up c o err) = λ e i. ground arith
step-IsShut l l' w v (has_ticket c o h) = λ e i. v e i
step-IsShut l l' w v (dials c o) = λ e i. absurd (ground arith)
step-IsShut l l' w v (may_fail c o h) = λ e i. v e i
step-IsShut l l' w v (fails c o err) = λ e i. ground arith
step-IsShut l l' w v (may_connect c o h) = λ e i. v e i
step-IsShut l l' w v (connects c o) = λ e i. absurd (ground (arith, w.early e))
step-IsShut l l' w v (may_pump c o h) = λ e i. v e i
step-IsShut l l' w v (pumps c o) = λ e i. v (entered-unset c.send_messages e) i
step-IsShut l l' w v (leaves c o) = λ e i. v (left-unset c.send_messages e) i
step-IsShut l l' w v (has_left c o h) = λ e i. v e i
step-IsShut l l' w v (may_disconnect c o h) = λ e i. v e i
step-IsShut l l' w v (disconnects c o) = λ e i. ground arith
step-IsShut l l' w v (reader_ends p c o n r h) = λ e i. v e i
step-IsShut l l' w v (reader_may_disconnect p c o n r h) = λ e i. v e i
step-IsShut l l' w v (reader_disconnects p c o n r) = λ e i. ground arith
step-IsShut l l' w v (may_introduce p c o n r h) = λ e i. v e i
step-IsShut l l' w v (introduces p c o n r) = λ e i. absurd (ground (arith, w.unread_by e))
step-IsShut l l' w v (greets p c c' o n m r h) =
    λ e i. absurd (ground (arith, send_returns (hello m) h))
step-IsShut l l' w v (hands_over p c c' o m h) = λ e i. absurd (ground (arith, send_returns m h))
step-IsShut l l' w v (may_stop p c o h) = λ e i. v e i
step-IsShut l l' w v (stops p c o n r) = λ e i. ground arith
step-IsShut l l' w v (closes p c o n channel r h) =
    λ e i. absurd (ground (arith, close_channel-closed c.send_messages channel h))

Reachable-IsShut : (l : Loop) → Reachable l → IsShut l
unfolding new_ws_client
Reachable-IsShut l initially = λ e i. ground arith
Reachable-IsShut l (next l1 l2 r s) =
    step-IsShut l1 l2 (Reachable-Channels l1 r) (Reachable-IsShut l1 r) s

nil_of_panic :
    (channel : Channel) → close_channel channel ≡ panic → channel ≢ closed → channel ≡ unset
unfolding close_channel
nil_of_panic unset h n = refl
nil_of_panic unread h n = absurd (ground arith)
nil_of_panic pumped h n = absurd (ground arith)
nil_of_panic closed h n = absurd (n refl)

-- In every such interleaving a message is handed over, by whatever goroutine, only while the loop is in
-- `writePump`. While the state is preparing or connected the channel is not nil, so that what is sent then
-- does not wait on a nil channel for ever. `Stop` meets a nil channel, whose closing panics, only where
-- the loop has not come to dialling in its round and no `readPump` runs.
pub handed_while_pumping :
    (p : Phase) (c : WsClient) (o : Others)
    → Reachable (loop p c o)
    → ((m : OMessage) (c' : WsClient) → send m c ≡ done c' → receives p ≡ true)
      × (IsOpen c → c.send_messages ≢ unset)
      × (close_channel c.send_messages ≡ panic
          → c.send_messages ≢ closed
          → (is_early p ≡ true) × (o.reading ≡ 0))
unfolding close_channel
handed_while_pumping p c o r =
    let v = Reachable-Channels (loop p c o) r in
    (
      λ m c' h. v.received (send_returns m h).1,
      λ i e. Reachable-IsShut (loop p c o) r e i,
      λ h n. let e = nil_of_panic c.send_messages h n in (v.early e, (v.unread_by e).0),
    )
