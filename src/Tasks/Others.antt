-- ===== src/Tasks/Others.antt =====
-- taskscheduler/task_scheduler.go: `Schedule` of a task leaves the other tasks as they are.
use telephonist_agent.Base.{
  ℕ, ◌≡◌, ◌≢◌, refl, ◌∙◌, List, [], ◌∷◌, Option, some, none, keys, must, lookup, insert, ℕ_discrete,
  lookup-insert, done, ◌>>=◌, arith, >>=-eq-done, Option-cases, inl, inr,
}
use telephonist_agent.Errors.{Error}
use telephonist_agent.Task.{TaskTrigger, DefinedTask}
use telephonist_agent.Task.Id.{trigger_id}
use telephonist_agent.Triggers.{TriggersScheduler}
use telephonist_agent.Tasks.{
  TaskScheduler, ScheduledTask, linked, update_trigger, update_each, remove_old, reschedule,
  schedule_new, schedule,
}
use telephonist_agent.Tasks.Updating.{update_each_cons}
use telephonist_agent.Tasks.Schedule.{remove_old-tasks}

module _ {S : Type 0} (ops : TriggersScheduler S) where
  linked-others :
      (task_id j : ℕ) (t : TaskTrigger) (st : ScheduledTask) (e : TaskScheduler S)
      (r : S × ℕ × Option Error)
      → j ≢ task_id
      → lookup ℕ_discrete j (linked ops task_id (trigger_id t) t st e r).0.tasks
        ≡ lookup ℕ_discrete j e.tasks
  unfolding linked
  linked-others task_id j t st e (s, i, some err) other = refl
  linked-others task_id j t st e (s, i, none) other = grind (arith, lookup-insert)

  update_trigger-others :
      (task_id j : ℕ) (t : TaskTrigger) (e : TaskScheduler S)
      (r : TaskScheduler S × ℕ × Option Error)
      → j ≢ task_id
      → update_trigger ops task_id t e ≡ done r
      → lookup ℕ_discrete j r.0.tasks ≡ lookup ℕ_discrete j e.tasks
  unfolding update_trigger
  update_trigger-others task_id j t e r other h = grind (arith, linked-others)

  update_each-others :
      (task_id j : ℕ) (ts : List TaskTrigger) (e e' : TaskScheduler S) (ids : List ℕ)
      → j ≢ task_id
      → update_each ops task_id ts e ≡ done (e', ids)
      → lookup ℕ_discrete j e'.tasks ≡ lookup ℕ_discrete j e.tasks
  unfolding update_each
  update_each-others task_id j [] e e' ids other h = ground arith
  update_each-others task_id j (t ∷ ts) e e' ids other h =
      let (r, rest, first, others, _) = update_each_cons ops task_id t ts e e' ids h in
      update_each-others task_id j ts r.0 e' rest other others
      ∙ update_trigger-others task_id j t e r other first

  -- A call of `Schedule` that returns leaves every other task kept as it was.
  pub schedule-others :
      (task : DefinedTask) (j : ℕ) (e e' : TaskScheduler S)
      → j ≢ task.id
      → schedule ops task e ≡ done e'
      → lookup ℕ_discrete j e'.tasks ≡ lookup ℕ_discrete j e.tasks
  unfolding schedule schedule_new reschedule
  schedule-others task j e e' other h = elim (Option-cases (lookup ℕ_discrete task.id e.tasks)) [
    | inl new ↦
        let e0 = record e {
          tasks =
              insert ℕ_discrete task.id (record { defined_task = task; scheduled_triggers = [] })
                e.tasks;
        } in
        let (r, updated, same) =
          >>=-eq-done (update_each ops task.id task.triggers e0) (λ r. done r.0)
            (rw (new, schedule) at h) in
        let there = update_each-others task.id j task.triggers e0 r.0 r.1 other updated in
        grind (arith, lookup-insert)
    | inr (st, there) ↦
        let e0 = record e {
          tasks = insert ℕ_discrete task.id (record st { defined_task = task }) e.tasks;
        } in
        let (r, updated, more) =
          >>=-eq-done (update_each ops task.id task.triggers e0)
            (λ r. must (lookup ℕ_discrete task.id r.0.tasks) >>= λ st'.
              remove_old ops task.id r.1 (keys st'.scheduled_triggers) r.0)
            (rw (there, schedule) at h) in
        let (st', kept, last) =
          >>=-eq-done (must (lookup ℕ_discrete task.id r.0.tasks))
            (λ st'. remove_old ops task.id r.1 (keys st'.scheduled_triggers) r.0) more in
        let before = update_each-others task.id j task.triggers e0 r.0 r.1 other updated in
        let tasks = remove_old-tasks ops task.id r.1 (keys st'.scheduled_triggers) r.0 e' last in
        grind (arith, lookup-insert)
  ]
