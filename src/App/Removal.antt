-- ===== src/App/Removal.antt =====
-- scheduler.go: what the task scheduler keeps of the tasks that the server lists no longer.
use mathlib.Core.Path.{subst}
use telephonist_agent.Base.{
  ◌≢◌, ◌∙◌, ap, Bool-cases, ℕ, ◌≡◌, refl, List, [], ◌∷◌, none, some, Map, lookup, insert,
  ℕ_discrete, lookup-insert, Option-cases, inl, inr, done, arith, >>=-eq-done,
}
use telephonist_agent.Task.{DefinedTask, TaskTrigger}
use telephonist_agent.Triggers.{TriggersScheduler}
use telephonist_agent.Tasks.{schedule}
use telephonist_agent.Shell.{can_execute}
use telephonist_agent.Tasks.Others.{schedule-others}
use telephonist_agent.Tasks.Updating.{AllOk, Takes}
use telephonist_agent.Tasks.Schedule.{AllRunNow, schedule-runs}
use telephonist_agent.App.{
  ApplicationScheduler, TasksJson, tasks_onto, save, get_tasks_map, on_task_removed, remove_missing,
  on_task, take_each, on_tasks,
}

-- Every task stands under its identifier.
IsKeyed : Map ℕ DefinedTask → Type 0
IsKeyed [] = Unit {0}
IsKeyed ((id, task) ∷ rest) = (id ≡ task.id) × IsKeyed rest

insert-IsKeyed :
    (task : DefinedTask) (m : Map ℕ DefinedTask)
    → IsKeyed m
    → IsKeyed (insert ℕ_discrete task.id task m)
unfolding insert IsKeyed
insert-IsKeyed task [] keyed = (refl, tt)
insert-IsKeyed task ((id, t) ∷ rest) keyed = elim (ℕ_discrete task.id id) [
  | yes p ↦ ground arith
  | no p ↦ ground (arith, insert-IsKeyed task rest keyed.1)
]

tasks_onto-IsKeyed :
    (tasks : List DefinedTask) (m : Map ℕ DefinedTask) → IsKeyed m → IsKeyed (tasks_onto tasks m)
unfolding tasks_onto
tasks_onto-IsKeyed [] m keyed = keyed
tasks_onto-IsKeyed (task ∷ tasks) m keyed =
    tasks_onto-IsKeyed tasks (insert ℕ_discrete task.id task m) (insert-IsKeyed task m keyed)

get_tasks_map-IsKeyed : (tasks : List DefinedTask) → IsKeyed (get_tasks_map tasks)
unfolding get_tasks_map IsKeyed
get_tasks_map-IsKeyed tasks = tasks_onto-IsKeyed tasks [] tt

module _ {S : Type 0} (json : TasksJson) where
  on_task_removed-scheduler :
      (id : ℕ) (e : ApplicationScheduler S)
      → (on_task_removed json id e).task_scheduler ≡ e.task_scheduler
  unfolding on_task_removed save
  on_task_removed-scheduler id e = ground arith

  remove_missing-scheduler :
      (new_map old : Map ℕ DefinedTask) (e : ApplicationScheduler S)
      → (remove_missing json new_map old e).task_scheduler ≡ e.task_scheduler
  unfolding remove_missing
  remove_missing-scheduler new_map [] e = refl
  remove_missing-scheduler new_map (x ∷ rest) e =
      elim (Option-cases (lookup ℕ_discrete x.0 new_map)) [
        | inl gone ↦ ground (
          arith,
          remove_missing-scheduler new_map rest (on_task_removed json x.1.id e),
          on_task_removed-scheduler x.1.id e,
        )
        | inr (t, stays) ↦ ground (arith, remove_missing-scheduler new_map rest e)
      ]

module _ {S : Type 0} (ops : TriggersScheduler S) (json : TasksJson) where
  on_task-others :
      (task : DefinedTask) (j : ℕ) (e e' : ApplicationScheduler S)
      → j ≢ task.id
      → on_task ops json task e ≡ done e'
      → lookup ℕ_discrete j e'.task_scheduler.tasks ≡ lookup ℕ_discrete j e.task_scheduler.tasks
  unfolding on_task save
  on_task-others task j e e' other h =
      let (scheduler, called, last) =
        >>=-eq-done {B = ApplicationScheduler S} (schedule ops task e.task_scheduler)
          (λ x. done (
            save json
              (record e { task_scheduler = x; config = insert ℕ_discrete task.id task e.config })))
          h in
      ground (arith, schedule-others ops task j e.task_scheduler scheduler other called)

  take_each-others :
      (m : Map ℕ DefinedTask) (j : ℕ) (e e' : ApplicationScheduler S)
      → IsKeyed m
      → lookup ℕ_discrete j m ≡ none
      → take_each ops json m e ≡ done e'
      → lookup ℕ_discrete j e'.task_scheduler.tasks ≡ lookup ℕ_discrete j e.task_scheduler.tasks
  unfolding take_each lookup IsKeyed
  take_each-others [] j e e' keyed gone h = ground arith
  take_each-others ((id, task) ∷ rest) j e e' (same_id, keyed) gone h =
      let other : j ≢ task.id = λ p. ground arith in
      let gone' : lookup ℕ_discrete j rest ≡ none = ground arith in
      elim (Bool-cases (can_execute task)) [
        | inl able ↦
            let (e1, taken, more) =
              >>=-eq-done (on_task ops json task e) (take_each ops json rest)
                (rw (able, take_each) at h) in
            take_each-others rest j e1 e' keyed gone' more ∙ on_task-others task j e e1 other taken
        | inr unable ↦ take_each-others rest j e e' keyed gone' (rw (unable, take_each) at h)
      ]

  -- A call of `onTasks` that returns leaves the task scheduler as the calls of `onTask` for the new
  -- tasks left it: every task that the server does not list is kept there just as it was before. In the
  -- configuration it keeps just the listed tasks, each under its identifier.
  pub on_tasks-scheduler :
      (tasks : List DefinedTask) (e e' : ApplicationScheduler S)
      → on_tasks ops json tasks e ≡ done e'
      → (taken : ApplicationScheduler S) × (take_each ops json (get_tasks_map tasks) e ≡ done taken)
        × (e'.task_scheduler ≡ taken.task_scheduler)
        × (e'.config ≡ get_tasks_map tasks)
        × ((j : ℕ)
            → lookup ℕ_discrete j (get_tasks_map tasks) ≡ none
            → lookup ℕ_discrete j e'.task_scheduler.tasks
              ≡ lookup ℕ_discrete j e.task_scheduler.tasks)
  unfolding on_tasks save
  on_tasks-scheduler tasks e e' h =
      let m = get_tasks_map tasks in
      let (taken, called, last) =
        >>=-eq-done (take_each ops json m e)
          (λ x. done (save json (record (remove_missing json m x.config x) { config = m }))) h in
      let same : e'.task_scheduler ≡ taken.task_scheduler =
        ground (arith, remove_missing-scheduler json m taken.config taken) in
      (
        taken,
        called,
        same,
        ground arith,
        λ j gone.
            ap (λ x. lookup ℕ_discrete j x.tasks) same
            ∙ take_each-others m j e taken (get_tasks_map-IsKeyed tasks) gone called,
      )

  -- If the scheduler of triggers is in a good state and the triggers of the task are fit, a call of
  -- `onTask` that returns leaves the task in the configuration and each of its triggers running it.
  pub on_task-runs :
      (Good : S → Type 0) (Ok : TaskTrigger → Type 0)
      → Takes ops Good Ok
      → (task : DefinedTask) (e e' : ApplicationScheduler S)
      → Good e.task_scheduler.triggers_scheduler
      → AllOk Ok task.triggers
      → on_task ops json task e ≡ done e'
      → (lookup ℕ_discrete task.id e'.config ≡ some task)
        × AllRunNow e'.task_scheduler task.id task task.triggers
  unfolding on_task save
  on_task-runs Good Ok takes task e e' good oks h =
      let (scheduler, called, last) =
        >>=-eq-done {B = ApplicationScheduler S} (schedule ops task e.task_scheduler)
          (λ x. done (
            save json
              (record e { task_scheduler = x; config = insert ℕ_discrete task.id task e.config })))
          h in
      let kept : save json (record e {
        task_scheduler = scheduler;
        config = insert ℕ_discrete task.id task e.config;
      })
          ≡ e' =
        ground arith in
      (
        grind (arith, lookup-insert),
        subst (λ x. AllRunNow x.task_scheduler task.id task task.triggers) kept
            (schedule-runs ops Good Ok takes task e.task_scheduler scheduler good oks called).1,
      )
