-- ===== src/App.antt =====
-- scheduler.go: the tasks that the application keeps, in memory and in a file, and schedules.
pub mod Removal
pub mod Running
pub mod Instance
pub mod Delivery
pub mod Reaction
pub mod Scheduling
pub mod Storage
pub mod Lifecycle
pub mod Answer
pub mod Hello
use telephonist_agent.Base.{
  ℕ, List, [], ◌∷◌, true, false, none, some, Map, lookup, insert, delete, ℕ_discrete, Go, done,
  ◌>>=◌,
}
use telephonist_agent.Task.{DefinedTask}
use telephonist_agent.Triggers.{TriggersScheduler}
use telephonist_agent.Tasks.{TaskScheduler, schedule}
use telephonist_agent.Shell.{can_execute}
use telephonist_agent.Config.{File, Json, write}

-- `config` is `e.config.Value.Tasks`, a map that the handlers share, and `file` the file of
-- `e.config`.
pub record ApplicationScheduler (S : Type 0) : Type 0 where
  pub task_scheduler : TaskScheduler S
  pub config : Map ℕ DefinedTask
  pub file : File

tasks_onto : List DefinedTask → Map ℕ DefinedTask → Map ℕ DefinedTask
tasks_onto [] m = m
tasks_onto (task ∷ tasks) m = tasks_onto tasks (insert ℕ_discrete task.id task m)

-- `getTasksMap`
unfoldable pub get_tasks_map : List DefinedTask → Map ℕ DefinedTask
unfolding tasks_onto
get_tasks_map tasks = tasks_onto tasks []

-- JSON of an `ExecutorConfig`.
abbrev pub TasksJson : Type 0
TasksJson = Json (Map ℕ DefinedTask)

module _ {S : Type 0} (json : TasksJson) where
  -- `e.config.Write()`, whose error is dropped.
  unfoldable pub save : ApplicationScheduler S → ApplicationScheduler S
  save e = record e { file = (write json e.config e.file).0 }

  -- `onTaskRemoved`
  unfoldable pub on_task_removed : ℕ → ApplicationScheduler S → ApplicationScheduler S
  unfolding save
  on_task_removed id e = elim (lookup ℕ_discrete id e.config) [
    | none ↦ e
    | some task ↦ save (record e { config = delete ℕ_discrete id e.config })
  ]

  -- The loop of `onTasks` over the old tasks.
  unfoldable pub remove_missing :
      Map ℕ DefinedTask → Map ℕ DefinedTask → ApplicationScheduler S → ApplicationScheduler S
  remove_missing new_map [] e = e
  remove_missing new_map ((id, task) ∷ rest) e = elim (lookup ℕ_discrete id new_map) [
    | some _ ↦ remove_missing new_map rest e
    | none ↦ remove_missing new_map rest (on_task_removed task.id e)
  ]

module _ {S : Type 0} (ops : TriggersScheduler S) (json : TasksJson) where
  -- `onTask`
  unfoldable pub on_task : DefinedTask → ApplicationScheduler S → Go (ApplicationScheduler S)
  unfolding save
  on_task task e = do
    scheduler ← schedule ops task e.task_scheduler
    done (
        save json (record e {
          task_scheduler = scheduler;
          config = insert ℕ_discrete task.id task e.config;
        }))

  -- The loop of `onTasks` over the new tasks.
  unfoldable pub take_each :
      Map ℕ DefinedTask → ApplicationScheduler S → Go (ApplicationScheduler S)
  take_each [] e = done e
  take_each ((id, task) ∷ rest) e = do
    e' ← elim (can_execute task) [ true ↦ on_task task e | false ↦ done e ]
    take_each rest e'

  -- `onTasks`; its `oldTasks` is the map that `onTask` writes to.
  unfoldable pub on_tasks : List DefinedTask → ApplicationScheduler S → Go (ApplicationScheduler S)
  unfolding get_tasks_map save
  on_tasks tasks e = do
    e' ← take_each (get_tasks_map tasks) e
    done (
        save json (record (remove_missing json (get_tasks_map tasks) e'.config e') {
          config = get_tasks_map tasks;
        }))
