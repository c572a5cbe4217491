-- ===== src/Tests/Events.antt =====
-- taskscheduler/trigger_scheduler.go: the event scheduler with one trigger.
use telephonist_agent.Base.{
  arith, ◌≡◌, refl, codes, Bytes, [], ◌∷◌, true, false, none, some, lookup, insert, delete,
  Bytes-discrete, ℕ_discrete, done,
}
use telephonist_agent.Task.{TaskTrigger, UnmarshalString, trigger_event}
use telephonist_agent.Ws.{
  WsClient, connected, pumped, subscribe, unsubscribe, send, add_event_channel,
  remove_event_channel,
}
use telephonist_agent.Queue.{EventQueue, is_subscribed, subscribe_queue, unsubscribe_queue}
use telephonist_agent.Triggers.OnEvent.{
  TelephonistScheduler, schedule_by_id, unschedule, add_trigger, count_up, drop_trigger, count_down,
  counter,
}
use telephonist_agent.Triggers.OnEvent.Counters.{triggers_of}
use telephonist_agent.Triggers.OnEvent.Agreement.{IsConsistent}
use telephonist_agent.Triggers.OnEvent.Consistency.{
  schedule_by_id-IsConsistent, unschedule-IsConsistent,
}

-- JSON texts are taken without their quotes.
abbrev pub plain : UnmarshalString
plain b = some b

abbrev pub build : Bytes
build = codes "b"

abbrev pub on_build : TaskTrigger
on_build = record { name = trigger_event; body = build; disabled = false }

abbrev idle : WsClient
idle = record {
  state = connected;
  send_messages = pumped;
  sent = [];
  conn_open = true;
  event_channels = [];
  event_channels_seq = 0;
  last_error = none;
}

abbrev pub started : TelephonistScheduler
started = record {
  client = idle;
  next_channel = 1;
  queue = some (record { channel = 0; subscribed = [] });
  subscriptions_counters = [];
  triggers = [];
  event_triggers = [];
  has_callback = true;
}

abbrev one_queue : EventQueue
one_queue = record { channel = 0; subscribed = (build, 1) ∷ [] }

-- The scheduler with a trigger.
abbrev pub one : TelephonistScheduler
one = record started {
  client = record idle {
    sent = subscribe build ∷ [];
    event_channels = (build, (1, 0) ∷ []) ∷ [];
    event_channels_seq = 1;
  };
  queue = some one_queue;
  subscriptions_counters = (build, 1) ∷ [];
  triggers = (9, on_build) ∷ [];
  event_triggers = (build, (9, on_build) ∷ []) ∷ [];
}

-- The scheduler after the trigger is given up.
abbrev none_left : TelephonistScheduler
none_left = record started {
  client = record idle { sent = unsubscribe build ∷ subscribe build ∷ []; event_channels_seq = 1 };
}

pub started-IsConsistent : IsConsistent plain started
unfolding counter triggers_of is_subscribed lookup
started-IsConsistent = record {
  counts = λ ev. refl;
  positive = λ ev q. cc;
  distinct = λ ev. tt;
  filed = λ id t q. absurd (none-ne-some t q);
  registered = λ ev id t q. absurd (none-ne-some t q);
  subscribed = λ q e ev. ground arith;
}
  where
    none-ne-some : (t : TaskTrigger) → none ≡ some t → ⊥
    none-ne-some t q = cc

scheduled : schedule_by_id plain 9 on_build started ≡ done (one, 9, none)
unfolding schedule_by_id count_up add_trigger subscribe_queue is_subscribed add_event_channel send
    lookup insert Bytes-discrete
scheduled = refl

unscheduled : unschedule plain 9 one ≡ done (none_left, none, true)
unfolding unschedule count_down drop_trigger counter unsubscribe_queue remove_event_channel send
    lookup delete Bytes-discrete ℕ_discrete
unscheduled = refl

one-IsConsistent : IsConsistent plain one
unfolding lookup
one-IsConsistent =
    schedule_by_id-IsConsistent plain 9 on_build started one 9 none started-IsConsistent refl
      scheduled

schedule_by_id-IsConsistent_example : IsConsistent plain one
unfolding lookup
schedule_by_id-IsConsistent_example =
    schedule_by_id-IsConsistent plain 9 on_build started one 9 none started-IsConsistent refl
      scheduled

unschedule-IsConsistent_example : IsConsistent plain none_left
unschedule-IsConsistent_example =
    unschedule-IsConsistent plain 9 one none_left none true one-IsConsistent unscheduled

-- The scheduler after `Stop`.
abbrev stopped_one : TelephonistScheduler
stopped_one = record one {
  client = record idle { sent = unsubscribe build ∷ subscribe build ∷ []; event_channels_seq = 1 };
  queue = none;
}
