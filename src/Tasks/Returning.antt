-- ===== src/Tasks/Returning.antt =====
-- taskscheduler/task_scheduler.go: scheduling a new task returns.
use telephonist_agent.Base.{
  ℕ, ◌≡◌, ◌≢◌, refl, List, [], ◌∷◌, Option, none, some, lookup, insert, ℕ_discrete, lookup-insert,
  done, arith, Option-cases, inl, inr,
}
use telephonist_agent.Errors.{Error}
use telephonist_agent.Task.{TaskTrigger, DefinedTask}
use telephonist_agent.Task.Id.{trigger_id}
use telephonist_agent.Triggers.{TriggersScheduler}
use telephonist_agent.Tasks.Updating.{AllOk, Takes}
use telephonist_agent.Tasks.{
  TaskScheduler, ScheduledTask, ScheduledTrigger, linked, update_trigger, update_each, note,
  schedule_new, schedule,
}

-- Every trigger that a task lists as scheduled has an entry in `triggerTasks`.
abbrev pub IsLinked : {S : Type 0} → TaskScheduler S → Type 0
IsLinked e =
    (task_id id : ℕ) (st : ScheduledTask) (x : ScheduledTrigger)
    → lookup ℕ_discrete task_id e.tasks ≡ some st
    → lookup ℕ_discrete id st.scheduled_triggers ≡ some x
    → lookup ℕ_discrete id e.trigger_tasks ≢ none

-- A task that lists no trigger as scheduled adds no condition.
added :
    {S : Type 0} (task : DefinedTask) (e : TaskScheduler S)
    → IsLinked e
    → IsLinked (record e {
      tasks =
          insert ℕ_discrete task.id
            (record { defined_task = task; scheduled_triggers = [] })
            e.tasks;
    })
unfolding lookup
added task e v k id st x h1 h2 = grind (arith, lookup-insert, v k id st x)

module _ {S : Type 0} (ops : TriggersScheduler S) (Good : S → Type 0) (Ok : TaskTrigger → Type 0)
    (takes : Takes ops Good Ok) where
  linked-IsLinked :
      (task_id : ℕ) (t : TaskTrigger) (st : ScheduledTask) (e : TaskScheduler S)
      (r : S × ℕ × Option Error)
      → IsLinked e
      → lookup ℕ_discrete task_id e.tasks ≡ some st
      → IsLinked (linked ops task_id (trigger_id t) t st e r).0
        × ((st' : ScheduledTask) × (lookup ℕ_discrete task_id
                (linked ops task_id (trigger_id t) t st e r).0.tasks
              ≡ some st'))
  unfolding linked
  linked-IsLinked task_id t st e (s, n, some err) v there = (v, (st, there))
  linked-IsLinked task_id t st e (s, n, none) v there = (
    λ k id st' x h1 h2. grind (arith, lookup-insert, v k id st' x, v task_id id st x),
    (
      record st {
        scheduled_triggers =
            insert ℕ_discrete (trigger_id t) (record { trigger = t; scheduling_error = none })
              st.scheduled_triggers;
      },
      grind (arith, lookup-insert),
    ),
  )

  update_trigger-returns :
      (task_id : ℕ) (t : TaskTrigger) (st : ScheduledTask) (e : TaskScheduler S)
      → Good e.triggers_scheduler
      → Ok t
      → IsLinked e
      → lookup ℕ_discrete task_id e.tasks ≡ some st
      → (r : TaskScheduler S × ℕ × Option Error) × (update_trigger ops task_id t e ≡ done r)
        × Good r.0.triggers_scheduler
        × IsLinked r.0
        × ((st' : ScheduledTask) × (lookup ℕ_discrete task_id r.0.tasks ≡ some st'))
  unfolding update_trigger linked
  update_trigger-returns task_id t st e good ok v there =
      elim (Option-cases (lookup ℕ_discrete (trigger_id t) st.scheduled_triggers)) [
        | inl new ↦
            let (s, i, called, good') = takes t e.triggers_scheduler good ok in
            let (v', there') = linked-IsLinked task_id t st e (s, i, none) v there in
            (linked ops task_id (trigger_id t) t st e (s, i, none), ground arith, good', v', there')
        | inr (x, has) ↦ elim (Option-cases (lookup ℕ_discrete (trigger_id t) e.trigger_tasks)) [
          | inl gone ↦ absurd (v task_id (trigger_id t) st x there has gone)
          | inr (tasks, kept) ↦ (
            (
              record e {
                trigger_tasks =
                    insert ℕ_discrete (trigger_id t)
                      (insert ℕ_discrete task_id st.defined_task tasks) e.trigger_tasks;
              },
              trigger_id t,
              none,
            ),
            ground arith,
            good,
            λ k id st' y h1 h2. grind (arith, lookup-insert, v k id st' y),
            (st, there),
          )
        ]
      ]

  update_each-returns :
      (task_id : ℕ) (ts : List TaskTrigger) (st : ScheduledTask) (e : TaskScheduler S)
      → Good e.triggers_scheduler
      → AllOk Ok ts
      → IsLinked e
      → lookup ℕ_discrete task_id e.tasks ≡ some st
      → (r : TaskScheduler S × List ℕ) × (update_each ops task_id ts e ≡ done r)
        × Good r.0.triggers_scheduler
        × IsLinked r.0
  unfolding update_each
  update_each-returns task_id [] st e good oks v there = ((e, []), refl, good, v)
  update_each-returns task_id (t ∷ ts) st e good (ok, oks) v there =
      let (r, updated, good', v', (st', there')) =
        update_trigger-returns task_id t st e good ok v there in
      let (r', others, good'', v'') = update_each-returns task_id ts st' r.0 good' oks v' there' in
      ((r'.0, note r.2 r.1 r'.1), ground arith, good'', v'')

  -- If the scheduler of triggers is in a good state, the triggers of the task are fit, every trigger that
  -- a task lists as scheduled has an entry in `triggerTasks`, and the task is a new one, `Schedule`
  -- returns; the state is good and every scheduled trigger has an entry then.
  pub schedule-returns :
      (task : DefinedTask) (e : TaskScheduler S)
      → Good e.triggers_scheduler
      → AllOk Ok task.triggers
      → IsLinked e
      → lookup ℕ_discrete task.id e.tasks ≡ none
      → (e' : TaskScheduler S) × (schedule ops task e ≡ done e')
        × Good e'.triggers_scheduler
        × IsLinked e'
  unfolding schedule schedule_new
  schedule-returns task e good oks v new =
      let st : ScheduledTask = record { defined_task = task; scheduled_triggers = [] } in
      let e0 = record e { tasks = insert ℕ_discrete task.id st e.tasks } in
      let (r, updated, good', v') =
        update_each-returns task.id task.triggers st e0 good oks (added task e v)
          (ground (arith, lookup-insert ℕ_discrete task.id task.id st e.tasks)) in
      (r.0, ground arith, good', v')
