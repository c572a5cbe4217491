-- ===== src/Tasks.antt =====
-- taskscheduler/task_scheduler.go: `taskScheduler`, which keeps the tasks and their triggers, over
-- any scheduler of triggers.
pub mod Links
pub mod Updating
pub mod Schedule
pub mod Returning
pub mod AddTaskError
pub mod Single
pub mod Others
use telephonist_agent.Base.{
  ℕ, Bytes, codes, List, [], ◌∷◌, Bool, true, false, Option, none, some, Map, keys, length, lookup,
  insert, delete, ℕ_discrete, ite, Go, done, ◌>>=◌, must,
}
use telephonist_agent.Errors.{Error, chain_error}
use telephonist_agent.Task.{TaskTrigger, DefinedTask}
use telephonist_agent.Task.Id.{trigger_id}
use telephonist_agent.Triggers.{TriggersScheduler, TriggeredEvent}

-- A parameter of a run, by its Go type. An `int` is a sign and a magnitude.
pub data Param : Type 0 where
  text : Bytes → Param
  int : Bool → ℕ → Param
  uuid : ℕ → Param
  int64 : ℕ → Param
  null : Param

pub record TaskTriggeredEvent : Type 0 where
  pub trigger_event : TriggeredEvent
  pub task : DefinedTask
  pub params : Map Bytes Param

pub record ScheduledTrigger : Type 0 where
  pub trigger : TaskTrigger
  pub scheduling_error : Option Error

pub record ScheduledTask : Type 0 where
  pub defined_task : DefinedTask
  pub scheduled_triggers : Map ℕ ScheduledTrigger

pub record TaskScheduler (S : Type 0) : Type 0 where
  pub triggers_scheduler : S
  pub tasks : Map ℕ ScheduledTask
  pub has_callback : Bool
  pub trigger_tasks : Map ℕ (Map ℕ DefinedTask)

-- An error is logged; without one the identifier joins `newTriggers`.
abbrev pub note : Option Error → ℕ → List ℕ → List ℕ
note none id ids = id ∷ ids
note (some err) id ids = ids

unfoldable pub member : ℕ → List ℕ → Bool
member id [] = false
member id (i ∷ ids) = ite (ℕ_discrete id i) true (member id ids)

-- The calls of the callback for the tasks of one trigger, at a Unix time.
unfoldable pub task_calls : ℕ → TriggeredEvent → Map ℕ DefinedTask → List TaskTriggeredEvent
task_calls now event [] = []
task_calls now event ((_, task) ∷ rest) =
    record {
      trigger_event = event;
      task = task;
      params =
          (codes "TASK_ID", uuid task.id)
          ∷ (codes "TASK_NAME", text task.name)
          ∷ (codes "TRIGGERED_AT", int64 now)
          ∷ [];
    }
    ∷ task_calls now event rest

module _ {S : Type 0} (ops : TriggersScheduler S) where
  unfoldable pub new_task_scheduler : S → TaskScheduler S
  new_task_scheduler s = record {
    triggers_scheduler = ops.set_callback true s;
    tasks = [];
    has_callback = false;
    trigger_tasks = [];
  }

  -- `removeTrigger`
  unfoldable pub remove_trigger : ℕ → ℕ → TaskScheduler S → Go (TaskScheduler S)
  remove_trigger task_id id e = elim (lookup ℕ_discrete id e.trigger_tasks) [
    | none ↦ done e
    | some tasks ↦
        let rest = delete ℕ_discrete task_id tasks in
        ite (ℕ_discrete (length rest) 0)
          (do
            (s, _, _) ← ops.unschedule id e.triggers_scheduler
            done (record e {
              triggers_scheduler = s;
              trigger_tasks = delete ℕ_discrete id e.trigger_tasks;
            }))
          (done (record e { trigger_tasks = insert ℕ_discrete id rest e.trigger_tasks }))
  ]

  -- What `updateTrigger` makes of the scheduler's answer for a trigger new to the task.
  linked :
      ℕ
      → ℕ
      → TaskTrigger
      → ScheduledTask
      → TaskScheduler S
      → S × ℕ × Option Error
      → TaskScheduler S × ℕ × Option Error
  linked task_id id trigger st e (s, _, some err) = (
    record e { triggers_scheduler = s },
    0,
    some (chain_error (codes "failed to schedule trigger") err),
  )
  linked task_id id trigger st e (s, _, none) = (
    record e {
      triggers_scheduler = s;
      tasks =
          insert ℕ_discrete task_id
            (record st {
              scheduled_triggers =
                  insert ℕ_discrete id (record { trigger = trigger; scheduling_error = none })
                    st.scheduled_triggers;
            })
            e.tasks;
      trigger_tasks = insert ℕ_discrete id ((task_id, st.defined_task) ∷ []) e.trigger_tasks;
    },
    id,
    none,
  )

  -- `updateTrigger`; a write to a map that is not there panics.
  unfoldable pub update_trigger :
      ℕ → TaskTrigger → TaskScheduler S → Go (TaskScheduler S × ℕ × Option Error)
  unfolding linked
  update_trigger task_id trigger e = do
    st ← must (lookup ℕ_discrete task_id e.tasks)
    elim (lookup ℕ_discrete (trigger_id trigger) st.scheduled_triggers) [
      | none ↦ do
        r ← ops.schedule_by_id (trigger_id trigger) trigger e.triggers_scheduler
        done (linked task_id (trigger_id trigger) trigger st e r)
      | some _ ↦ do
        tasks ← must (lookup ℕ_discrete (trigger_id trigger) e.trigger_tasks)
        done (
          record e {
            trigger_tasks =
                insert ℕ_discrete (trigger_id trigger)
                  (insert ℕ_discrete task_id st.defined_task tasks) e.trigger_tasks;
          },
          trigger_id trigger,
          none,
        )
    ]

  -- The loop over a task's triggers, with the identifiers that were updated.
  unfoldable pub update_each :
      ℕ → List TaskTrigger → TaskScheduler S → Go (TaskScheduler S × List ℕ)
  update_each task_id [] e = done (e, [])
  update_each task_id (trigger ∷ rest) e = do
    (e', id, err) ← update_trigger task_id trigger e
    (e'', ids) ← update_each task_id rest e'
    done (e'', note err id ids)

  -- The loop over the scheduled triggers that removes those that are not new.
  unfoldable pub remove_old : ℕ → List ℕ → List ℕ → TaskScheduler S → Go (TaskScheduler S)
  unfolding member
  remove_old task_id new_ids [] e = done e
  remove_old task_id new_ids (id ∷ rest) e = do
    e' ← elim (member id new_ids) [ true ↦ done e | false ↦ remove_trigger task_id id e ]
    remove_old task_id new_ids rest e'

  -- `Schedule` of a task that is there.
  unfoldable pub reschedule : DefinedTask → ScheduledTask → TaskScheduler S → Go (TaskScheduler S)
  reschedule task st e = do
    (e', ids) ←
        update_each task.id task.triggers (record e {
          tasks = insert ℕ_discrete task.id (record st { defined_task = task }) e.tasks;
        })
    st' ← must (lookup ℕ_discrete task.id e'.tasks)
    remove_old task.id ids (keys st'.scheduled_triggers) e'

  -- `Schedule` of a task that is not.
  unfoldable pub schedule_new : DefinedTask → TaskScheduler S → Go (TaskScheduler S)
  schedule_new task e = do
    (e', _) ← update_each task.id task.triggers (record e {
      tasks =
          insert ℕ_discrete task.id (record { defined_task = task; scheduled_triggers = [] })
            e.tasks;
    })
    done e'

  -- `Schedule`, whose error is always nil.
  unfoldable pub schedule : DefinedTask → TaskScheduler S → Go (TaskScheduler S)
  schedule task e = elim (lookup ℕ_discrete task.id e.tasks) [
    | some st ↦ reschedule task st e
    | none ↦ schedule_new task e
  ]

  -- The loop of `Unschedule` over a task's triggers.
  unfoldable pub unschedule_each : List ℕ → S → Go S
  unschedule_each [] s = done s
  unschedule_each (id ∷ rest) s = do (s', _, _) ← ops.unschedule id s; unschedule_each rest s'

  -- `Unschedule`, whose error is always nil: whether the task was there.
  unfoldable pub unschedule : ℕ → TaskScheduler S → Go (TaskScheduler S × Bool)
  unfolding unschedule_each
  unschedule id e = elim (lookup ℕ_discrete id e.tasks) [
    | none ↦ done (e, false)
    | some st ↦ do
      s ← unschedule_each (keys st.scheduled_triggers) e.triggers_scheduler
      done (record e { triggers_scheduler = s; tasks = delete ℕ_discrete id e.tasks }, true)
  ]

  -- The loop of `UnscheduleTask`.
  unfoldable pub remove_each : ℕ → List ℕ → TaskScheduler S → Go (TaskScheduler S)
  remove_each task_id [] e = done e
  remove_each task_id (id ∷ rest) e = do
    e' ← remove_trigger task_id id e
    remove_each task_id rest e'

  unfoldable pub unschedule_task : ℕ → TaskScheduler S → Go (TaskScheduler S)
  unfolding remove_each
  unschedule_task task_id e = elim (lookup ℕ_discrete task_id e.tasks) [
    | none ↦ done e
    | some st ↦ do
      e' ← remove_each task_id (keys st.scheduled_triggers) e
      done (record e' { tasks = delete ℕ_discrete task_id e'.tasks })
  ]

  unfoldable pub start : TaskScheduler S → Go (TaskScheduler S × Option Error)
  start e = do
    (s, err) ← ops.start e.triggers_scheduler
    done (record e { triggers_scheduler = s }, err)

  unfoldable pub stop : TaskScheduler S → Go (TaskScheduler S)
  stop e = do s ← ops.stop e.triggers_scheduler; done (record e { triggers_scheduler = s })

module _ {S : Type 0} where
  unfoldable pub set_callback : Bool → TaskScheduler S → TaskScheduler S
  set_callback callback e = record e { has_callback = callback }

  -- `onTrigger`
  unfoldable pub on_trigger : ℕ → TriggeredEvent → TaskScheduler S → List TaskTriggeredEvent
  unfolding task_calls
  on_trigger now event e = elim e.has_callback [
    | false ↦ []
    | true ↦ elim (lookup ℕ_discrete event.trigger_id e.trigger_tasks) [
      | none ↦ []
      | some tasks ↦ task_calls now event tasks
    ]
  ]
