-- ===== src/Queue/Offers.antt =====
-- telephonist/wsclient.go and telephonist/events.go: a queue is offered the events it subscribed to.
use mathlib.Core.List.{mem-cons_self, mem-cons_of_mem}
use telephonist_agent.Base.{
  ℕ, ◌≡◌, [], ◌∷◌, true, some, Map, Mem, lookup, Bytes-discrete, ℕ_discrete, Option-cases, inl, inr,
  arith,
}
use telephonist_agent.Task.{Event}
use telephonist_agent.Ws.{WsClient}
use telephonist_agent.Ws.Receiving.{offered, offers, on_new_event}
use telephonist_agent.Queue.{EventQueue, is_subscribed}
use telephonist_agent.Queue.Delivery.{entry, IsHeld}

mem-offers :
    (d : Event) (id ch : ℕ) (m : Map ℕ ℕ)
    → lookup ℕ_discrete id m ≡ some ch
    → Mem (offered ch d) (offers d m)
unfolding lookup offers
mem-offers d id ch [] h = absurd (ground arith)
mem-offers d id ch ((i, x) ∷ m) h = elim (ℕ_discrete id i) [
  | yes p ↦ let q : ch ≡ x = ground arith in rw q mem-cons_self
  | no p ↦ mem-cons_of_mem _ (mem-offers d id ch m (ground arith))
]

mem-on_new_event :
    (d : Event) (c : WsClient) (id ch : ℕ)
    → entry c d.event_key id ≡ some ch
    → Mem (offered ch d) (on_new_event d c)
unfolding entry on_new_event
mem-on_new_event d c id ch h =
    elim (Option-cases (lookup Bytes-discrete d.event_key c.event_channels)) [
      | inl absent ↦ absurd (ground arith)
      | inr (channels, there) ↦
          rw (there, on_new_event) (mem-offers d id ch channels (rw (there, entry) at h))
    ]

-- If all the subscriptions of a queue stand in the client's table under the queue's channel, an event
-- to which the queue is subscribed is offered to that channel.
pub on_new_event-offers :
    (d : Event) (q : EventQueue) (c : WsClient)
    → IsHeld q c
    → is_subscribed d.event_key q ≡ true
    → Mem (offered q.channel d) (on_new_event d c)
unfolding is_subscribed
on_new_event-offers d q c held on =
    elim (Option-cases (lookup Bytes-discrete d.event_key q.subscribed)) [
      | inl absent ↦ absurd (ground arith)
      | inr (id, there) ↦ mem-on_new_event d c id q.channel (held d.event_key id there)
    ]
