-- ===== src/App/Delivery.antt =====
-- From an event of the queue to the runs of the tasks: taskscheduler/trigger_scheduler.go and
-- taskscheduler/task_scheduler.go.
use mathlib.Core.Path.{subst}
use mathlib.Core.List.{mem-cons_self, mem-cons_of_mem, mem-map_of_mem}
use telephonist_agent.Base.{
  ℕ, ◌≡◌, refl, sym, codes, [], ◌∷◌, true, some, Map, Mem, lookup, mem_of_lookup, Bytes-discrete,
  ℕ_discrete, Option-cases, inl, inr, arith,
}
use telephonist_agent.Task.{Event, TaskTrigger, DefinedTask, UnmarshalString}
use telephonist_agent.Triggers.{TriggeredEvent}
use telephonist_agent.Triggers.OnEvent.{TelephonistScheduler, drain_event}
use telephonist_agent.Triggers.OnEvent.Counters.{triggers_of}
use telephonist_agent.Triggers.OnEvent.Agreement.{IsConsistent}
use telephonist_agent.Tasks.{TaskScheduler, TaskTriggeredEvent, task_calls, on_trigger}
use telephonist_agent.Tasks.Links.{runs}

mem-task_calls :
    (now : ℕ) (te : TriggeredEvent) (id : ℕ) (d : DefinedTask) (m : Map ℕ DefinedTask)
    → lookup ℕ_discrete id m ≡ some d
    → (call : TaskTriggeredEvent) × Mem call (task_calls now te m)
      × (call.task ≡ d)
      × (call.trigger_event ≡ te)
unfolding lookup task_calls
mem-task_calls now te id d [] h = absurd (ground arith)
mem-task_calls now te id d ((i, x) ∷ m) h = elim (ℕ_discrete id i) [
  | yes p ↦ (_, mem-cons_self, ground arith, refl)
  | no p ↦
      let (call, there, same, of) = mem-task_calls now te id d m (ground arith) in
      (call, mem-cons_of_mem _ there, same, of)
]

pub mem-on_trigger :
    {S : Type 0} (now : ℕ) (te : TriggeredEvent) (ts : TaskScheduler S) (id : ℕ) (d : DefinedTask)
    → ts.has_callback ≡ true
    → runs ts te.trigger_id id ≡ some d
    → (call : TaskTriggeredEvent) × Mem call (on_trigger now te ts)
      × (call.task ≡ d)
      × (call.trigger_event ≡ te)
unfolding runs on_trigger
mem-on_trigger now te ts id d set h =
    elim (Option-cases (lookup ℕ_discrete te.trigger_id ts.trigger_tasks)) [
      | inl absent ↦ absurd (ground arith)
      | inr (m, there) ↦ rw (set, there, on_trigger) (mem-task_calls now te id d m (ground arith))
    ]

mem-drain_event :
    (event : Event) (e : TelephonistScheduler) (id : ℕ) (t : TaskTrigger)
    → e.has_callback ≡ true
    → lookup ℕ_discrete id (triggers_of e event.event_key) ≡ some t
    → (te : TriggeredEvent) × Mem te (drain_event event e) × (te.trigger_id ≡ id) × (te.trigger ≡ t)
unfolding drain_event triggers_of lookup
mem-drain_event event e id t set h =
    elim (Option-cases (lookup Bytes-discrete event.event_key e.event_triggers)) [
      | inl absent ↦ absurd (ground arith)
      | inr (m, there) ↦ (
        record { trigger_id = id; trigger = t; params = (codes "EVENT_ID", event.id) ∷ [] },
        rw (set, there, drain_event)
            (mem-map_of_mem _ (mem_of_lookup ℕ_discrete id t m (ground arith))),
        refl,
        refl,
      )
    ]

-- When the event scheduler's counters agree with its triggers and subscriptions, both schedulers
-- have their callbacks, a trigger on the event's key is filed, and the task scheduler runs a task on that
-- trigger, then a round of `drain` with the event calls back with the trigger, and that call makes the
-- task scheduler call back with the task.
pub event_runs_task :
    {S : Type 0} (unmarshal : UnmarshalString) (e : TelephonistScheduler) (event : Event) (id : ℕ)
    (t : TaskTrigger) (ts : TaskScheduler S) (task_id now : ℕ) (d : DefinedTask)
    → IsConsistent unmarshal e
    → e.has_callback ≡ true
    → lookup ℕ_discrete id e.triggers ≡ some t
    → unmarshal t.body ≡ some event.event_key
    → ts.has_callback ≡ true
    → runs ts id task_id ≡ some d
    → (te : TriggeredEvent) × Mem te (drain_event event e)
      × (te.trigger ≡ t)
      × (call : TaskTriggeredEvent) × Mem call (on_trigger now te ts)
      × (call.task ≡ d)
      × (call.trigger_event ≡ te)
event_runs_task unmarshal e event id t ts task_id now d v set filed body set' r =
    let (ev, read, there) = v.filed id t filed in
    let key : ev ≡ event.event_key = ground arith in
    let (te, drained, same, trigger) =
      mem-drain_event event e id t set
        (subst (λ x. lookup ℕ_discrete id (triggers_of e x) ≡ some t) key there) in
    let (call, called, task, of) =
      mem-on_trigger now te ts task_id d set'
        (subst (λ i. runs ts i task_id ≡ some d) (sym same) r) in
    (te, drained, trigger, call, called, task, of)
