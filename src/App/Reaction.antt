-- ===== src/App/Reaction.antt =====
-- From the schedule of a task to its run at an event: taskscheduler/task_scheduler.go over the three
-- schedulers of taskscheduler/scheduler.go and the websocket client's queue.
use telephonist_agent.Base.{ℕ, ◌≡◌, [], ◌∷◌, true, some, none, done, lookup, ℕ_discrete, Mem, arith}
use telephonist_agent.Task.{Event, TaskTrigger, DefinedTask, UnmarshalString, trigger_event}
use telephonist_agent.Task.Id.{trigger_id}
use telephonist_agent.Ws.{pumped}
use telephonist_agent.Ws.Receiving.{offered, on_new_event}
use telephonist_agent.Queue.{EventQueue, is_subscribed}
use telephonist_agent.Queue.Offers.{on_new_event-offers}
use telephonist_agent.Triggers.{TriggeredEvent}
use telephonist_agent.Triggers.Cron.{Gocron, CronTriggersScheduler}
use telephonist_agent.Triggers.Fs.{Watcher, FsTriggersScheduler}
use telephonist_agent.Triggers.OnEvent.{TelephonistScheduler, drain_event}
use telephonist_agent.Triggers.OnEvent.Agreement.{IsConsistent}
use telephonist_agent.Triggers.OnEvent.Consistency.{
  schedule_by_id-IsConsistent, schedule_by_id-files,
}
use telephonist_agent.Triggers.OnEvent.Holding.{IsAttached, schedule_by_id-IsAttached}
use telephonist_agent.Triggers.Composite.{CompositeTriggersScheduler, composite_triggers_scheduler}
use telephonist_agent.Triggers.Children.{Child, cron, on_event, fs, trigger_executor}
use telephonist_agent.Triggers.Children.Reaching.{subscribed-filed}
use telephonist_agent.Triggers.Children.Taking.{schedule_by_id-takes_event}
use telephonist_agent.Tasks.{TaskScheduler, TaskTriggeredEvent, schedule, on_trigger}
use telephonist_agent.Tasks.Single.{schedule_single}
use telephonist_agent.App.Delivery.{event_runs_task}

-- Over the three schedulers, with both callbacks set, an event child that is consistent and has a queue
-- that stands in its client's table, and a client that sends, whose table is what the server holds
-- subscriptions to, `Schedule` of a new task whose one trigger is a new one on an event returns. The event
-- child then has a queue that is subscribed to the event and stands in the table, and the server holds
-- subscriptions to just the events of that. When the client receives an event of the trigger's key, it
-- offers the event to the queue; a round of `drain` with the event calls back with the trigger; and that
-- call makes the task scheduler call back with the task.
pub new_task_runs :
    {G J W : Type 0} (gocron : Gocron G J) (fsnotify : Watcher W) (unmarshal : UnmarshalString)
    (e : TaskScheduler (CompositeTriggersScheduler (Child G J W))) (c : CronTriggersScheduler G J)
    (t : TelephonistScheduler) (f : FsTriggersScheduler W) (q : EventQueue) (d : DefinedTask)
    (trigger : TaskTrigger) (event : Event) (now : ℕ)
    → e.triggers_scheduler.child_schedulers ≡ cron c ∷ on_event t ∷ fs f ∷ []
    → e.has_callback ≡ true
    → t.has_callback ≡ true
    → IsConsistent unmarshal t
    → t.queue ≡ some q
    → t.client.send_messages ≡ pumped
    → IsAttached t
    → d.triggers ≡ trigger ∷ []
    → trigger.name ≡ trigger_event
    → unmarshal trigger.body ≡ some event.event_key
    → lookup ℕ_discrete d.id e.tasks ≡ none
    → lookup ℕ_discrete (trigger_id trigger) t.triggers ≡ none
    → (e' : TaskScheduler (CompositeTriggersScheduler (Child G J W))) × (t' : TelephonistScheduler)
      × (q' : EventQueue) × (schedule (trigger_executor gocron fsnotify unmarshal) d e ≡ done e')
      × (e'.triggers_scheduler.child_schedulers ≡ cron c ∷ on_event t' ∷ fs f ∷ [])
      × (t'.queue ≡ some q')
      × (is_subscribed event.event_key q' ≡ true)
      × IsAttached t'
      × Mem (offered q'.channel event) (on_new_event event t'.client)
      × (te : TriggeredEvent) × Mem te (drain_event event t')
      × (te.trigger ≡ trigger)
      × (call : TaskTriggeredEvent) × Mem call (on_trigger now te e')
      × (call.task ≡ d)
      × (call.trigger_event ≡ te)
unfolding trigger_executor composite_triggers_scheduler
new_task_runs gocron fsnotify unmarshal e c t f q d trigger event now children set set' v on p att
      one name body new fresh =
    let id = trigger_id trigger in
    let (x, t', q', taken, after, called, on', _) =
      schedule_by_id-takes_event gocron fsnotify unmarshal e.triggers_scheduler c t f children id
        trigger event.event_key q name body on p in
    let (filed, _, _, callback) = schedule_by_id-files unmarshal id trigger t t' id none called in
    let v' = schedule_by_id-IsConsistent unmarshal id trigger t t' id none v fresh called in
    let (e', scheduled, left, kept, run) =
      schedule_single (trigger_executor gocron fsnotify unmarshal) d trigger e x id one new taken in
    let subscribed =
      subscribed-filed unmarshal t' id trigger event.event_key q' v' filed body on' in
    let att' = schedule_by_id-IsAttached unmarshal id trigger t t' id none att called in
    let (te, drained, same, call, made, task, of) =
      event_runs_task unmarshal t' event id trigger e' d.id now d v' (ground arith) filed body
        (ground arith) run in
    (
      e',
      t',
      q',
      scheduled,
      rw left after,
      on',
      subscribed,
      att',
      on_new_event-offers event q' t'.client (att'.held q' on') subscribed,
      te,
      drained,
      same,
      call,
      made,
      task,
      of,
    )
