-- ===== src/Tasks/Single.antt =====
-- taskscheduler/task_scheduler.go: `Schedule` of a new task with one trigger.
use telephonist_agent.Base.{
  ℕ, ◌≡◌, refl, [], ◌∷◌, none, some, lookup, insert, ℕ_discrete, lookup-insert, lookup-singleton,
  done, ◌>>=◌, arith,
}
use telephonist_agent.Task.{TaskTrigger, DefinedTask}
use telephonist_agent.Task.Id.{trigger_id}
use telephonist_agent.Triggers.{TriggersScheduler}
use telephonist_agent.Tasks.{
  TaskScheduler, ScheduledTask, schedule, schedule_new, update_each, update_trigger, linked,
}
use telephonist_agent.Tasks.Links.{runs}

module _ {S : Type 0} (ops : TriggersScheduler S) where
  linked-single :
      (t : TaskTrigger) (st : ScheduledTask) (task_id : ℕ) (e : TaskScheduler S) (s : S) (i : ℕ)
      → let r = linked ops task_id (trigger_id t) t st e (s, i, none) in
        (r.0.triggers_scheduler ≡ s)
        × (r.0.has_callback ≡ e.has_callback)
        × (runs r.0 (trigger_id t) task_id ≡ some st.defined_task)
  unfolding linked runs
  linked-single t st task_id e s i = (refl, refl, grind (arith, lookup-insert, lookup-singleton))

  abbrev fresh_task : DefinedTask → ScheduledTask
  fresh_task d = record { defined_task = d; scheduled_triggers = [] }

  abbrev with_task : DefinedTask → TaskScheduler S → TaskScheduler S
  with_task d e = record e { tasks = insert ℕ_discrete d.id (fresh_task d) e.tasks }

  fresh_there :
      (d : DefinedTask) (e : TaskScheduler S)
      → lookup ℕ_discrete d.id (with_task d e).tasks ≡ some (fresh_task d)
  fresh_there d e = grind (arith, lookup-insert)

  update_fresh :
      (d : DefinedTask) (t : TaskTrigger) (e : TaskScheduler S)
      → update_trigger ops d.id t (with_task d e) ≡ (
          ops.schedule_by_id (trigger_id t) t e.triggers_scheduler >>= λ r.
          done (linked ops d.id (trigger_id t) t (fresh_task d) (with_task d e) r))
  unfolding update_trigger lookup
  update_fresh d t e = ground (arith, fresh_there d e)

  -- When the scheduler of triggers takes the trigger without an error, `Schedule` of a new task with that
  -- one trigger returns, leaves that scheduler as the call left it, keeps the callback, and makes the
  -- trigger run the task.
  pub schedule_single :
      (d : DefinedTask) (t : TaskTrigger) (e : TaskScheduler S) (s : S) (i : ℕ)
      → d.triggers ≡ t ∷ []
      → lookup ℕ_discrete d.id e.tasks ≡ none
      → ops.schedule_by_id (trigger_id t) t e.triggers_scheduler ≡ done (s, i, none)
      → (e' : TaskScheduler S) × (schedule ops d e ≡ done e')
        × (e'.triggers_scheduler ≡ s)
        × (e'.has_callback ≡ e.has_callback)
        × (runs e' (trigger_id t) d.id ≡ some d)
  unfolding schedule schedule_new update_each
  schedule_single d t e s i one new called =
      let (left, callback, run) = linked-single t (fresh_task d) d.id (with_task d e) s i in
      (_, ground (arith, update_fresh d t e), left, callback, run)
