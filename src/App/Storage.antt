-- ===== src/App/Storage.antt =====
-- scheduler.go: `ExecutorConfigFile`, and what the file holds when the agent starts again.
use telephonist_agent.Base.{
  ℕ, ◌≡◌, refl, Bytes, List, [], ◌∷◌, Option, none, some, Map, lookup, insert, ℕ_discrete,
  Option-cases, inl, inr, done, arith, Bool-cases, >>=-eq-done,
}
use telephonist_agent.Errors.{Error}
use telephonist_agent.Task.{DefinedTask}
use telephonist_agent.Triggers.{TriggersScheduler}
use telephonist_agent.Tasks.{schedule}
use telephonist_agent.Shell.{can_execute}
use telephonist_agent.Config.{File, load, write, loaded, not_exist, failed}
use telephonist_agent.Config.Saving.{load-write}
use telephonist_agent.App.{
  ApplicationScheduler, TasksJson, save, get_tasks_map, on_task_removed, remove_missing, on_task,
  take_each, on_tasks,
}

-- `NewSchedulerConfig` makes an empty map of tasks.
abbrev pub new_scheduler_config : Map ℕ DefinedTask
new_scheduler_config = []

-- `LoadOrWrite`: the value, the file and the error.
unfoldable pub load_or_write :
    TasksJson → Map ℕ DefinedTask → File → Map ℕ DefinedTask × File × Option Error
unfolding load write
load_or_write json value f = elim (load json value f) [
  | loaded value' ↦ (value', f, none)
  | failed err ↦ (value, f, some err)
  | not_exist ↦ let (f', err) = write json value f in (value, f', err)
]

-- The second file is opened and written as the first one is.
abbrev pub SameAccess : File → File → Type 0
SameAccess f f' =
    (f'.open_error ≡ f.open_error)
    × (f'.write_error ≡ f.write_error)
    × (f'.seek_error ≡ f.seek_error)

module _ (json : TasksJson) where
  write-SameAccess : (value : Map ℕ DefinedTask) (f : File) → SameAccess f (write json value f).0
  unfolding write
  write-SameAccess value f = ground arith

  module _ {S : Type 0} where
    on_task_removed-SameAccess :
        (id : ℕ) (e : ApplicationScheduler S) → SameAccess e.file (on_task_removed json id e).file
    unfolding on_task_removed save
    on_task_removed-SameAccess id e = elim (Option-cases (lookup ℕ_discrete id e.config)) [
      | inl gone ↦ rw (gone, on_task_removed) (refl, refl, refl)
      | inr (t, there) ↦ rw (there, on_task_removed) (write-SameAccess _ e.file)
    ]

    remove_missing-SameAccess :
        (new_map old : Map ℕ DefinedTask) (e : ApplicationScheduler S)
        → SameAccess e.file (remove_missing json new_map old e).file
    unfolding remove_missing
    remove_missing-SameAccess new_map [] e = (refl, refl, refl)
    remove_missing-SameAccess new_map (x ∷ rest) e =
        elim (Option-cases (lookup ℕ_discrete x.0 new_map)) [
          | inl gone ↦ ground (
            arith,
            remove_missing-SameAccess new_map rest (on_task_removed json x.1.id e),
            on_task_removed-SameAccess x.1.id e,
          )
          | inr (t, stays) ↦ ground (arith, remove_missing-SameAccess new_map rest e)
        ]

  module _ {S : Type 0} (ops : TriggersScheduler S) where
    on_task-SameAccess :
        (task : DefinedTask) (e e' : ApplicationScheduler S)
        → on_task ops json task e ≡ done e'
        → SameAccess e.file e'.file
    unfolding on_task save
    on_task-SameAccess task e e' h =
        let (scheduler, called, last) =
          >>=-eq-done {B = ApplicationScheduler S} (schedule ops task e.task_scheduler)
            (λ x. done (
              save json (record e {
                task_scheduler = x;
                config = insert ℕ_discrete task.id task e.config;
              })))
            h in
        ground (arith, write-SameAccess (insert ℕ_discrete task.id task e.config) e.file)

    take_each-SameAccess :
        (m : Map ℕ DefinedTask) (e e' : ApplicationScheduler S)
        → take_each ops json m e ≡ done e'
        → SameAccess e.file e'.file
    unfolding take_each
    take_each-SameAccess [] e e' h = ground arith
    take_each-SameAccess ((id, task) ∷ rest) e e' h = elim (Bool-cases (can_execute task)) [
      | inl able ↦
          let (x, called, more) =
            >>=-eq-done (on_task ops json task e) (λ x. take_each ops json rest x)
              (rw (able, take_each) at h) in
          ground (arith, on_task-SameAccess task e x called, take_each-SameAccess rest x e' more)
      | inr other ↦ take_each-SameAccess rest e e' (rw (other, take_each) at h)
    ]

    -- When the file of the configuration opens for reading and for writing, its offset is found, and the
    -- text of the listed tasks decodes to them whatever it is decoded into, then after a call of `onTasks`
    -- that returns, `LoadOrWrite` of an agent that starts on the same file gives just the listed tasks,
    -- without an error, and leaves the file as it is.
    pub on_tasks-load_or_write :
        (tasks : List DefinedTask) (e e' : ApplicationScheduler S) (value : Map ℕ DefinedTask)
        (text : Bytes)
        → on_tasks ops json tasks e ≡ done e'
        → e.file.open_error ≡ none
        → e.file.write_error ≡ none
        → e.file.seek_error ≡ none
        → json.encode (get_tasks_map tasks) ≡ inl text
        → json.decode text value ≡ inl (get_tasks_map tasks)
        → load_or_write json value e'.file ≡ (get_tasks_map tasks, e'.file, none)
    unfolding on_tasks save load_or_write
    on_tasks-load_or_write tasks e e' value text h reads opens seeks encodes decodes =
        let m = get_tasks_map tasks in
        let (x, called, last) =
          >>=-eq-done (take_each ops json m e)
            (λ x. done (save json (record (remove_missing json m x.config x) { config = m }))) h in
        let before = (remove_missing json m x.config x).file in
        let taken = take_each-SameAccess m e x called in
        let removed = remove_missing-SameAccess m x.config x in
        let read : load json value (write json m before).0 ≡ loaded m =
          load-write json m value text before (ground arith) (ground arith) (ground arith) encodes
            decodes in
        let same : (write json m before).0 ≡ e'.file = ground arith in
        let read' : load json value e'.file ≡ loaded m = ground arith in rw (read', load_or_write)
