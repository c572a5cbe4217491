-- ===== src/Tasks/Schedule.antt =====
-- taskscheduler/task_scheduler.go: `Schedule` makes the triggers of a task run it.
use telephonist_agent.Base.{
  ◌≢◌, insert, false, refl, keys, must, Bool-cases, inl, inr, ◌⊎◌, lookup-insert, ℕ, ◌≡◌, ◌∙◌, List,
  [], ◌∷◌, true, some, lookup, ℕ_discrete, done, ◌>>=◌, arith, >>=-eq-done, Option-cases,
}
use telephonist_agent.Task.{TaskTrigger, DefinedTask}
use telephonist_agent.Task.Id.{trigger_id}
use telephonist_agent.Triggers.{TriggersScheduler}
use telephonist_agent.Tasks.{
  schedule, schedule_new, reschedule, remove_old, remove_trigger, TaskScheduler, ScheduledTask,
  update_each, member,
}
use telephonist_agent.Tasks.Links.{remove_trigger-tasks, runs, remove_trigger-keeps}
use telephonist_agent.Tasks.Updating.{AllRun, AllOk, Takes, update_each-AllRun}

-- Each of the triggers runs a task as it is defined.
abbrev pub AllRunNow : {S : Type 0} → TaskScheduler S → ℕ → DefinedTask → List TaskTrigger → Type 0
AllRunNow e task_id d [] = Unit {0}
AllRunNow e task_id d (t ∷ ts) = (runs e (trigger_id t) task_id ≡ some d) × AllRunNow e task_id d ts

differs : (i k : ℕ) (ids : List ℕ) → member i ids ≡ true → member k ids ≡ false → i ≢ k
differs i k ids a b e = cc

module _ {S : Type 0} (ops : TriggersScheduler S) where
  remove_old-step :
      (task_id k : ℕ) (ids ks : List ℕ) (e e' : TaskScheduler S)
      → remove_old ops task_id ids (k ∷ ks) e ≡ done e'
      → (e1 : TaskScheduler S) × (remove_old ops task_id ids ks e1 ≡ done e')
        × ((e1 ≡ e) ⊎ ((member k ids ≡ false) × (remove_trigger ops task_id k e ≡ done e1)))
  unfolding remove_old
  remove_old-step task_id k ids ks e e' h = elim (Bool-cases (member k ids)) [
    | inl kept ↦ (e, rw (kept, remove_old) at h, inl refl)
    | inr old ↦
        let (e1, removed, rest) =
          >>=-eq-done (remove_trigger ops task_id k e) (remove_old ops task_id ids ks)
            (rw (old, remove_old) at h) in
        (e1, rest, inr (old, removed))
  ]

  pub remove_old-tasks :
      (task_id : ℕ) (ids ks : List ℕ) (e e' : TaskScheduler S)
      → remove_old ops task_id ids ks e ≡ done e'
      → e'.tasks ≡ e.tasks
  unfolding remove_old
  remove_old-tasks task_id ids [] e e' h = ground arith
  remove_old-tasks task_id ids (k ∷ ks) e e' h =
      let (e1, rest, step) = remove_old-step task_id k ids ks e e' h in
      let later = remove_old-tasks task_id ids ks e1 e' rest in
      elim step [
        | inl same ↦ ground arith
        | inr (old, removed) ↦ later ∙ remove_trigger-tasks ops task_id k e e1 removed
      ]

  remove_old-keeps :
      (task_id : ℕ) (ids ks : List ℕ) (e e' : TaskScheduler S) (i j : ℕ)
      → member i ids ≡ true
      → remove_old ops task_id ids ks e ≡ done e'
      → runs e' i j ≡ runs e i j
  unfolding remove_old
  remove_old-keeps task_id ids [] e e' i j listed h = ground arith
  remove_old-keeps task_id ids (k ∷ ks) e e' i j listed h =
      let (e1, rest, step) = remove_old-step task_id k ids ks e e' h in
      let later = remove_old-keeps task_id ids ks e1 e' i j listed rest in
      elim step [
        | inl same ↦ ground arith
        | inr (old, removed) ↦
            later ∙ remove_trigger-keeps ops task_id k i j e e1 (differs i k ids listed old) removed
      ]

  AllRun-now :
      (e e' : TaskScheduler S) (task_id : ℕ) (d : DefinedTask) (ids : List ℕ)
      (ts : List TaskTrigger)
      → ((i : ℕ) → member i ids ≡ true → runs e' i task_id ≡ runs e i task_id)
      → AllRun e task_id d ids ts
      → AllRunNow e' task_id d ts
  AllRun-now e e' task_id d ids [] k a = tt
  AllRun-now e e' task_id d ids (t ∷ ts) k a =
      (k (trigger_id t) a.0.1 ∙ a.0.0, AllRun-now e e' task_id d ids ts k a.1)

  module _ (Good : S → Type 0) (Ok : TaskTrigger → Type 0) (takes : Takes ops Good Ok) where
    AllKept : DefinedTask → TaskScheduler S → Type 0
    AllKept task e' =
        ((st : ScheduledTask) × (lookup ℕ_discrete task.id e'.tasks ≡ some st)
          × (st.defined_task ≡ task))
        × AllRunNow e' task.id task task.triggers

    schedule_new-AllKept :
        (task : DefinedTask) (e e' : TaskScheduler S)
        → Good e.triggers_scheduler
        → AllOk Ok task.triggers
        → schedule_new ops task e ≡ done e'
        → AllKept task e'
    unfolding schedule_new AllKept
    schedule_new-AllKept task e e' good oks h =
        let st : ScheduledTask = record { defined_task = task; scheduled_triggers = [] } in
        let e0 = record e { tasks = insert ℕ_discrete task.id st e.tasks } in
        let (r, updated, last) =
          >>=-eq-done (update_each ops task.id task.triggers e0) (λ r. done r.0) h in
        let (all, more) =
          update_each-AllRun ops Good Ok takes task.id task.triggers st e0 r.0 r.1 good oks
            (ground (arith, lookup-insert ℕ_discrete task.id task.id st e.tasks)) updated in
        let same : r.0 ≡ e' = ground arith in
        (
          (more.0, ground (arith, more.1), more.2),
          AllRun-now r.0 e' task.id task r.1 task.triggers (λ i m. ground arith) all,
        )

    reschedule-AllKept :
        (task : DefinedTask) (st : ScheduledTask) (e e' : TaskScheduler S)
        → Good e.triggers_scheduler
        → AllOk Ok task.triggers
        → reschedule ops task st e ≡ done e'
        → AllKept task e'
    unfolding reschedule AllKept
    reschedule-AllKept task st e e' good oks h =
        let st0 : ScheduledTask = record st { defined_task = task } in
        let e0 = record e { tasks = insert ℕ_discrete task.id st0 e.tasks } in
        let (r, updated, h1) =
          >>=-eq-done (update_each ops task.id task.triggers e0)
            (λ r. must (lookup ℕ_discrete task.id r.0.tasks) >>= λ st'.
              remove_old ops task.id r.1 (keys st'.scheduled_triggers) r.0)
            h in
        let (st', there, h2) =
          >>=-eq-done (must (lookup ℕ_discrete task.id r.0.tasks))
            (λ st'. remove_old ops task.id r.1 (keys st'.scheduled_triggers) r.0) h1 in
        let (all, more) =
          update_each-AllRun ops Good Ok takes task.id task.triggers st0 e0 r.0 r.1 good oks
            (ground (arith, lookup-insert ℕ_discrete task.id task.id st0 e.tasks)) updated in
        (
          (
            more.0,
            rw (remove_old-tasks task.id r.1 (keys st'.scheduled_triggers) r.0 e' h2) more.1,
            more.2,
          ),
          AllRun-now r.0 e' task.id task r.1 task.triggers
              (λ i m.
                (remove_old-keeps task.id r.1 (keys st'.scheduled_triggers) r.0 e' i task.id m h2))
              all,
        )

    -- If the scheduler of triggers is in a good state and the triggers of the task are fit, a call of
    -- `Schedule` that returns leaves the task kept under its identifier with the new definition, and each
    -- of its triggers runs that.
    pub schedule-runs :
        (task : DefinedTask) (e e' : TaskScheduler S)
        → Good e.triggers_scheduler
        → AllOk Ok task.triggers
        → schedule ops task e ≡ done e'
        → ((st : ScheduledTask) × (lookup ℕ_discrete task.id e'.tasks ≡ some st)
            × (st.defined_task ≡ task))
          × AllRunNow e' task.id task task.triggers
    unfolding schedule AllKept
    schedule-runs task e e' good oks h = elim (Option-cases (lookup ℕ_discrete task.id e.tasks)) [
      | inl new ↦ schedule_new-AllKept task e e' good oks (ground arith)
      | inr (st, there) ↦ reschedule-AllKept task st e e' good oks (ground arith)
    ]
