-- ===== src/Triggers/OnEvent/Taking.antt =====
-- taskscheduler/trigger_scheduler.go: the event scheduler takes a trigger while its queue and its
-- client work.
use telephonist_agent.Base.{
  ℕ, ◌≡◌, Bytes, some, none, lookup, insert, ◌+◌, Bytes-discrete, Option-cases, inl, inr, arith,
  done,
}
use telephonist_agent.Task.{TaskTrigger, UnmarshalString, trigger_event}
use telephonist_agent.Ws.{pumped}
use telephonist_agent.Queue.{EventQueue}
use telephonist_agent.Queue.Subscribing.{subscribe_queue-returns}
use telephonist_agent.Triggers.OnEvent.{
  TelephonistScheduler, queue_subscribe, count_up, add_trigger, schedule_by_id,
}

count_up-returns :
    (event : Bytes) (e : TelephonistScheduler) (q : EventQueue)
    → e.queue ≡ some q
    → e.client.send_messages ≡ pumped
    → (e' : TelephonistScheduler) × (count_up event e ≡ done e')
      × (q' : EventQueue) × (e'.queue ≡ some q')
      × (e'.client.send_messages ≡ pumped)
unfolding count_up queue_subscribe
count_up-returns event e q on p =
    elim (Option-cases (lookup Bytes-discrete event e.subscriptions_counters)) [
      | inr (n, there) ↦ (
        record e {
          subscriptions_counters = insert Bytes-discrete event (n + 1) e.subscriptions_counters;
        },
        ground arith,
        q,
        on,
        p,
      )
      | inl absent ↦
          let (r, subscribed, p') = subscribe_queue-returns event q e.client p in
          (
            record e {
              subscriptions_counters = insert Bytes-discrete event 1 e.subscriptions_counters;
              client = r.1;
              queue = some r.0;
            },
            ground arith,
            r.0,
            ground arith,
            p',
          )
    ]

-- With a queue and a client whose messages are sent, `ScheduleByID` of a trigger on an event returns
-- without an error, and the queue is still there and the messages are
-- still sent.
pub schedule_by_id-takes :
    (unmarshal : UnmarshalString) (id : ℕ) (t : TaskTrigger) (event : Bytes)
    (e : TelephonistScheduler) (q : EventQueue)
    → t.name ≡ trigger_event
    → unmarshal t.body ≡ some event
    → e.queue ≡ some q
    → e.client.send_messages ≡ pumped
    → (e' : TelephonistScheduler) × (schedule_by_id unmarshal id t e ≡ done (e', id, none))
      × (q' : EventQueue) × (e'.queue ≡ some q')
      × (e'.client.send_messages ≡ pumped)
unfolding schedule_by_id add_trigger
schedule_by_id-takes unmarshal id t event e q name body on p =
    let (e', counted, q', on', p') = count_up-returns event (add_trigger id t event e) q on p in
    (e', ground arith, q', on', p')
