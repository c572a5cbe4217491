-- ===== src/Tasks/Links.antt =====
-- taskscheduler/task_scheduler.go: which task a trigger runs.
use telephonist_agent.Base.{
  ℕ, ◌≡◌, refl, ◌≢◌, [], ◌∷◌, Bool, Option, none, some, lookup, insert, delete, ℕ_discrete,
  lookup-insert, lookup-delete, lookup-singleton, done, panic, arith, >>=-eq-done, Option-cases,
  inl, inr,
}
use telephonist_agent.Errors.{Error}
use telephonist_agent.Task.{TaskTrigger, DefinedTask}
use telephonist_agent.Task.Id.{trigger_id}
use telephonist_agent.Triggers.{TriggersScheduler}
use telephonist_agent.Tasks.{
  TaskScheduler, ScheduledTask, ScheduledTrigger, remove_trigger, update_trigger, unschedule,
  linked,
}

-- The definition that a trigger runs for a task.
unfoldable pub runs : {S : Type 0} → TaskScheduler S → ℕ → ℕ → Option DefinedTask
runs e id task_id = elim (lookup ℕ_discrete id e.trigger_tasks) [
  | none ↦ none
  | some tasks ↦ lookup ℕ_discrete task_id tasks
]

module _ {S : Type 0} (ops : TriggersScheduler S) where
  -- An update without an error makes the trigger run the task as it is now defined.
  pub update_trigger-runs :
      (task_id : ℕ) (t : TaskTrigger) (st : ScheduledTask) (e e' : TaskScheduler S) (id : ℕ)
      → lookup ℕ_discrete task_id e.tasks ≡ some st
      → update_trigger ops task_id t e ≡ done (e', id, none)
      → (id ≡ trigger_id t) × (runs e' (trigger_id t) task_id ≡ some st.defined_task)
  unfolding update_trigger runs
  update_trigger-runs task_id t st e e' id there h =
      (grind arith, grind (arith, lookup-insert, lookup-singleton))

  -- The other triggers of the task run what they ran, whether there was an error or not.
  pub update_trigger-keeps :
      (task_id : ℕ) (t : TaskTrigger) (e e' : TaskScheduler S) (id : ℕ) (err : Option Error)
      (i j : ℕ)
      → i ≢ trigger_id t
      → update_trigger ops task_id t e ≡ done (e', id, err)
      → runs e' i j ≡ runs e i j
  unfolding update_trigger runs
  update_trigger-keeps task_id t e e' id err i j other h = grind (arith, lookup-insert)

  linked-task :
      (task_id : ℕ) (t : TaskTrigger) (st : ScheduledTask) (e e' : TaskScheduler S)
      (r : S × ℕ × Option Error) (id : ℕ) (err : Option Error)
      → lookup ℕ_discrete task_id e.tasks ≡ some st
      → linked ops task_id (trigger_id t) t st e r ≡ (e', id, err)
      → (st' : ScheduledTask) × (lookup ℕ_discrete task_id e'.tasks ≡ some st')
        × (st'.defined_task ≡ st.defined_task)
  unfolding linked
  linked-task task_id t st e e' (s, n, some x) id err there h = (st, ground arith, refl)
  linked-task task_id t st e e' (s, n, none) id err there h = (
    record st {
      scheduled_triggers =
          insert ℕ_discrete (trigger_id t) (record { trigger = t; scheduling_error = none })
            st.scheduled_triggers;
    },
    grind (arith, lookup-insert),
    refl,
  )

  -- The task stays defined as it is.
  pub update_trigger-task :
      (task_id : ℕ) (t : TaskTrigger) (st : ScheduledTask) (e e' : TaskScheduler S) (id : ℕ)
      (err : Option Error)
      → lookup ℕ_discrete task_id e.tasks ≡ some st
      → update_trigger ops task_id t e ≡ done (e', id, err)
      → (st' : ScheduledTask) × (lookup ℕ_discrete task_id e'.tasks ≡ some st')
        × (st'.defined_task ≡ st.defined_task)
  unfolding update_trigger
  update_trigger-task task_id t st e e' id err there h =
      elim (Option-cases (lookup ℕ_discrete (trigger_id t) st.scheduled_triggers)) [
        | inr (x, has) ↦ (st, grind arith, refl)
        | inl new ↦
            let (r, called, l) =
              >>=-eq-done {B = TaskScheduler S × ℕ × Option Error}
                (ops.schedule_by_id (trigger_id t) t e.triggers_scheduler)
                (λ r. done (linked ops task_id (trigger_id t) t st e r)) {b = (e', id, err)}
                (ground arith) in
            linked-task task_id t st e e' r id err there (ground arith)
      ]

  -- An update without an error by which a task that is kept takes up a trigger that it did not have
  -- leaves no other task that the trigger runs.
  pub update_trigger_steals :
      (task_id other : ℕ) (t : TaskTrigger) (st : ScheduledTask) (e e' : TaskScheduler S) (id : ℕ)
      → lookup ℕ_discrete task_id e.tasks ≡ some st
      → lookup ℕ_discrete (trigger_id t) st.scheduled_triggers ≡ none
      → other ≢ task_id
      → update_trigger ops task_id t e ≡ done (e', id, none)
      → runs e' id other ≡ none
  unfolding update_trigger runs
  update_trigger_steals task_id other t st e e' id there new differs h =
      grind (arith, lookup-insert, lookup-singleton)

  -- After `removeTrigger` took a trigger from its only task, which is kept and still lists the trigger
  -- as scheduled, an update of the task with the trigger panics.
  pub update_removed_panics :
      (task_id : ℕ) (t : TaskTrigger) (st : ScheduledTask) (x : ScheduledTrigger) (d : DefinedTask)
      (e e' : TaskScheduler S)
      → lookup ℕ_discrete task_id e.tasks ≡ some st
      → lookup ℕ_discrete (trigger_id t) st.scheduled_triggers ≡ some x
      → lookup ℕ_discrete (trigger_id t) e.trigger_tasks ≡ some ((task_id, d) ∷ [])
      → remove_trigger ops task_id (trigger_id t) e ≡ done e'
      → update_trigger ops task_id t e' ≡ panic
  unfolding update_trigger remove_trigger delete
  update_removed_panics task_id t st x d e e' there scheduled only h = grind (arith, lookup-delete)

  -- A call of `Unschedule` that returns leaves every trigger running what it ran, for the removed task
  -- too, and the task is no longer kept.
  pub unschedule-runs :
      (task_id : ℕ) (e e' : TaskScheduler S) (was : Bool)
      → unschedule ops task_id e ≡ done (e', was)
      → ((i j : ℕ) → runs e' i j ≡ runs e i j) × (lookup ℕ_discrete task_id e'.tasks ≡ none)
  unfolding unschedule runs
  unschedule-runs task_id e e' was h = (λ i j. grind arith, grind (arith, lookup-delete))

  pub update_trigger-still :
      (task_id : ℕ) (t : TaskTrigger) (st : ScheduledTask) (e e' : TaskScheduler S) (id : ℕ)
      (err : Option Error) (i : ℕ)
      → lookup ℕ_discrete task_id e.tasks ≡ some st
      → runs e i task_id ≡ some st.defined_task
      → update_trigger ops task_id t e ≡ done (e', id, err)
      → runs e' i task_id ≡ some st.defined_task
  unfolding update_trigger runs
  update_trigger-still task_id t st e e' id err i there now h =
      grind (arith, lookup-insert, lookup-singleton)

  -- Nothing that a removal of another trigger does changes what a trigger runs.
  pub remove_trigger-keeps :
      (task_id id i j : ℕ) (e e' : TaskScheduler S)
      → i ≢ id
      → remove_trigger ops task_id id e ≡ done e'
      → runs e' i j ≡ runs e i j
  unfolding remove_trigger runs
  remove_trigger-keeps task_id id i j e e' other h = grind (arith, lookup-insert, lookup-delete)

  pub remove_trigger-tasks :
      (task_id id : ℕ) (e e' : TaskScheduler S)
      → remove_trigger ops task_id id e ≡ done e'
      → e'.tasks ≡ e.tasks
  unfolding remove_trigger
  remove_trigger-tasks task_id id e e' h = grind arith
