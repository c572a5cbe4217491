-- ===== src/Triggers/OnEvent.antt =====
-- taskscheduler/trigger_scheduler.go: `TelephonistScheduler`, which runs tasks on events that the
-- server reports. The websocket client that it points to is part of its state.
pub mod Counters
pub mod Agreement
pub mod Consistency
pub mod Taking
pub mod Holding
pub mod Restart
use telephonist_agent.Base.{
  ℕ, ◌+◌, ◌-◌, Bytes, codes, List, [], ◌∷◌, Bool, true, false, Option, none, some, Map, map, length,
  lookup, insert, delete, Bytes-discrete, ℕ_discrete, ite, Go, done, panic, ◌>>=◌, must,
}
use telephonist_agent.Errors.{Error}
use telephonist_agent.Task.{must_string, TaskTrigger, UnmarshalString, trigger_event, Event}
use telephonist_agent.Task.Id.{trigger_id}
use telephonist_agent.Ws.{WsClient}
use telephonist_agent.Queue.{
  EventQueue, new_queue, subscribe_queue, unsubscribe_queue, unsubscribe_all, found,
}
use telephonist_agent.Triggers.{TriggeredEvent, TriggersScheduler}

-- A counter is an `int`. `next_channel` numbers the channels that `make` gives.
pub record TelephonistScheduler : Type 0 where
  pub client : WsClient
  pub next_channel : ℕ
  pub queue : Option EventQueue
  pub subscriptions_counters : Map Bytes ℕ
  pub triggers : Map ℕ TaskTrigger
  pub event_triggers : Map Bytes (Map ℕ TaskTrigger)
  pub has_callback : Bool

unfoldable pub new_telephonist_scheduler : WsClient → TelephonistScheduler
new_telephonist_scheduler client = record {
  client = client;
  next_channel = 0;
  queue = none;
  subscriptions_counters = [];
  triggers = [];
  event_triggers = [];
  has_callback = false;
}

-- `e.queue.Subcribe(event)`, which needs a queue.
unfoldable pub queue_subscribe : Bytes → TelephonistScheduler → Go TelephonistScheduler
queue_subscribe event e = do
  q ← must e.queue
  (q', client', _) ← subscribe_queue event q e.client
  done (record e { client = client'; queue = some q' })

-- `e.queue.Unsubscribe(event)`
unfoldable pub queue_unsubscribe : Bytes → TelephonistScheduler → Go TelephonistScheduler
queue_unsubscribe event e = do
  q ← must e.queue
  (q', client', _) ← unsubscribe_queue event q e.client
  done (record e { client = client'; queue = some q' })

-- The trigger joins those of its event.
unfoldable pub add_trigger : ℕ → TaskTrigger → Bytes → TelephonistScheduler → TelephonistScheduler
add_trigger id trigger event e = record e {
  triggers = insert ℕ_discrete id trigger e.triggers;
  event_triggers = elim (lookup Bytes-discrete event e.event_triggers) [
    | some triggers ↦
        insert Bytes-discrete event (insert ℕ_discrete id trigger triggers) e.event_triggers
    | none ↦ insert Bytes-discrete event ((id, trigger) ∷ []) e.event_triggers
  ];
}

-- One more trigger counts on the event; the first one subscribes to it.
unfoldable pub count_up : Bytes → TelephonistScheduler → Go TelephonistScheduler
unfolding queue_subscribe
count_up event e = elim (lookup Bytes-discrete event e.subscriptions_counters) [
  | some count ↦ done (record e {
    subscriptions_counters = insert Bytes-discrete event (count + 1) e.subscriptions_counters;
  })
  | none ↦
      queue_subscribe event (record e {
        subscriptions_counters = insert Bytes-discrete event 1 e.subscriptions_counters;
      })
]

-- The trigger leaves those of its event, and the last one takes the event along.
unfoldable pub drop_trigger : ℕ → Bytes → TelephonistScheduler → TelephonistScheduler
drop_trigger id event e = record e {
  triggers = delete ℕ_discrete id e.triggers;
  event_triggers = elim (lookup Bytes-discrete event e.event_triggers) [
    | none ↦ e.event_triggers
    | some triggers ↦
        let rest = delete ℕ_discrete id triggers in
        ite (ℕ_discrete (length rest) 0) (delete Bytes-discrete event e.event_triggers)
          (insert Bytes-discrete event rest e.event_triggers)
  ];
}

-- A missing counter reads 0. It never is 0 or missing where the code comes here, so that `-` is
-- exact; the theorems carry that as an invariant.
unfoldable pub counter : Bytes → TelephonistScheduler → ℕ
counter event e = elim (lookup Bytes-discrete event e.subscriptions_counters) [
  | none ↦ 0
  | some count ↦ count
]

-- One trigger less counts on the event; the last one gives the subscription up.
unfoldable pub count_down : Bytes → TelephonistScheduler → Go TelephonistScheduler
unfolding counter queue_unsubscribe
count_down event e =
    ite (ℕ_discrete (counter event e) 1)
      (queue_unsubscribe event (record e {
        subscriptions_counters = delete Bytes-discrete event e.subscriptions_counters;
      }))
      (done (record e {
        subscriptions_counters =
            insert Bytes-discrete event (counter event e - 1) e.subscriptions_counters;
      }))

unfoldable pub can_schedule : TelephonistScheduler → Bytes → Bool
can_schedule e trigger_type = ite (Bytes-discrete trigger_type trigger_event) true false

module _ (unmarshal : UnmarshalString) where
  unfoldable pub schedule_by_id :
      ℕ → TaskTrigger → TelephonistScheduler → Go (TelephonistScheduler × ℕ × Option Error)
  schedule_by_id id trigger e =
      ite (Bytes-discrete trigger.name trigger_event)
        (do
          event ← must_string unmarshal trigger
          e' ← count_up event (add_trigger id trigger event e)
          done (e', id, none))
        panic

  unfoldable pub schedule :
      TaskTrigger → TelephonistScheduler → Go (TelephonistScheduler × ℕ × Option Error)
  unfolding schedule_by_id
  schedule trigger e = schedule_by_id (trigger_id trigger) trigger e

  unfoldable pub unschedule :
      ℕ → TelephonistScheduler → Go (TelephonistScheduler × Option Error × Bool)
  unschedule id e = elim (lookup ℕ_discrete id e.triggers) [
    | none ↦ done (e, none, false)
    | some trigger ↦ do
      event ← must_string unmarshal trigger
      e' ← count_down event (drop_trigger id event e)
      done (e', none, true)
  ]

-- `Start` makes a queue at the first call.
unfoldable pub start : TelephonistScheduler → Go (TelephonistScheduler × Option Error)
start e = elim e.queue [
  | some q ↦ done (e, none)
  | none ↦ done (
    record e { queue = some (new_queue e.next_channel); next_channel = e.next_channel + 1 },
    none,
  )
]

-- `Stop` gives every subscription up and forgets the queue; the counters stay.
unfoldable pub stop : TelephonistScheduler → Go TelephonistScheduler
stop e = elim e.queue [
  | none ↦ done e
  | some q ↦ do
    client' ← unsubscribe_all q e.client
    done (record e { client = client'; queue = none })
]

-- One round of `drain`: the calls of the callback for an event of the queue.
unfoldable pub drain_event : Event → TelephonistScheduler → List TriggeredEvent
drain_event event e = elim e.has_callback [
  | false ↦ []
  | true ↦ elim (lookup Bytes-discrete event.event_key e.event_triggers) [
    | none ↦ []
    | some triggers ↦
        map
          (λ t.
            let r : TriggeredEvent = record {
              trigger_id = t.0;
              trigger = t.1;
              params = (codes "EVENT_ID", event.id) ∷ [];
            } in
            r)
          triggers
  ]
]

unfoldable pub telephonist_triggers_scheduler :
    UnmarshalString → TriggersScheduler TelephonistScheduler
unfolding can_schedule schedule schedule_by_id unschedule start stop add_trigger count_up
    drop_trigger count_down
telephonist_triggers_scheduler unmarshal = record {
  can_schedule = can_schedule;
  schedule = schedule unmarshal;
  schedule_by_id = schedule_by_id unmarshal;
  unschedule = unschedule unmarshal;
  start = start;
  stop = stop;
  is_running = λ e. found e.queue;
  set_callback = λ set e. record e { has_callback = set };
}
