-- ===== src/Tests/Assignments.antt =====
-- taskscheduler/task_scheduler.go: tasks that share a trigger, over a scheduler of triggers that
-- accepts everything.
use telephonist_agent.Base.{
  inl, Bytes-discrete, ℕ, suc, ◌≡◌, refl, codes, [], ◌∷◌, true, false, none, some, Map, lookup,
  insert, delete, ℕ_discrete, done,
}
use telephonist_agent.App.{
  ApplicationScheduler, TasksJson, save, on_tasks, take_each, get_tasks_map, remove_missing,
  on_task_removed, on_task,
}
use telephonist_agent.Shell.{can_execute}
use telephonist_agent.App.Storage.{on_tasks-load_or_write, load_or_write}
use telephonist_agent.Config.{File, write}
use telephonist_agent.App.Removal.{on_tasks-scheduler}
use telephonist_agent.Task.{TaskTrigger, DefinedTask, task_type_exec}
use telephonist_agent.Task.Id.{trigger_id}
use telephonist_agent.Triggers.{TriggersScheduler}
use telephonist_agent.Tasks.{
  TaskScheduler, ScheduledTask, ScheduledTrigger, schedule, schedule_new, update_each,
  update_trigger,
}

-- The state counts the triggers.
abbrev accepting : TriggersScheduler ℕ
accepting = record {
  can_schedule = λ s name. true;
  schedule = λ t s. done (suc s, 4, none);
  schedule_by_id = λ id t s. done (suc s, id, none);
  unschedule = λ id s. done (s, none, true);
  start = λ s. done (s, none);
  stop = λ s. done s;
  is_running = λ s. true;
  set_callback = λ b s. s;
}

abbrev tick : TaskTrigger
tick = record { name = codes "cron"; body = codes "*"; disabled = false }

abbrev task_of : ℕ → DefinedTask
task_of id = record {
  name = codes "t";
  description = [];
  body = record { value = codes "ls"; body_type = task_type_exec };
  env = [];
  tags = [];
  triggers = tick ∷ [];
  id = id;
  last_updated = 0;
  disabled = false;
}

abbrev kept_task : ℕ → Map ℕ ScheduledTrigger → ScheduledTask
kept_task id triggers = record { defined_task = task_of id; scheduled_triggers = triggers }

abbrev kept : Map ℕ ScheduledTrigger
kept = (trigger_id tick, record { trigger = tick; scheduling_error = none }) ∷ []

abbrev nothing : TaskScheduler ℕ
nothing = record { triggers_scheduler = 0; tasks = []; has_callback = true; trigger_tasks = [] }

-- The first task has the trigger.
abbrev first : TaskScheduler ℕ
first = record nothing {
  triggers_scheduler = 1;
  tasks = (1, kept_task 1 kept) ∷ [];
  trigger_tasks = (trigger_id tick, (1, task_of 1) ∷ []) ∷ [];
}

-- So has the second, from which the trigger is then taken.
abbrev both : TaskScheduler ℕ
both = record first { tasks = (1, kept_task 1 kept) ∷ (2, kept_task 2 []) ∷ [] }

scheduled : schedule accepting (task_of 1) nothing ≡ done first
unfolding schedule schedule_new update_each update_trigger lookup insert ℕ_discrete
scheduled = refl

-- The second task took the trigger up.
abbrev second : TaskScheduler ℕ
second = record both {
  triggers_scheduler = 2;
  tasks = (1, kept_task 1 kept) ∷ (2, kept_task 2 kept) ∷ [];
  trigger_tasks = (trigger_id tick, (2, task_of 2) ∷ []) ∷ [];
}

abbrev removed : TaskScheduler ℕ
removed = record first { trigger_tasks = [] }

abbrev forgotten : TaskScheduler ℕ
forgotten = record first { tasks = [] }

-- One text stands for every map of tasks, and is read as that of one task.
abbrev tasks_json : TasksJson
tasks_json = record { encode = λ m. inl (codes "{}"); decode = λ text m. inl ((1, task_of 1) ∷ []) }

abbrev tasks_file : File
tasks_file = record { open_error = none; write_error = none; seek_error = none; content = none }

abbrev written_file : File
written_file = record tasks_file { content = some (codes "{}") }

abbrev app : ApplicationScheduler ℕ
app = record { task_scheduler = nothing; config = []; file = tasks_file }

abbrev app_first : ApplicationScheduler ℕ
app_first = record { task_scheduler = first; config = (1, task_of 1) ∷ []; file = tasks_file }

-- The server lists no task any more.
abbrev app_emptied : ApplicationScheduler ℕ
app_emptied = record { task_scheduler = first; config = []; file = written_file }

on_tasks-scheduler_example :
    (taken : ApplicationScheduler ℕ) × (take_each accepting tasks_json (get_tasks_map []) app_first
      ≡ done taken)
    × (first ≡ taken.task_scheduler)
    × ([] ≡ get_tasks_map [])
    × ((j : ℕ)
        → lookup ℕ_discrete j (get_tasks_map []) ≡ none
        → lookup ℕ_discrete j first.tasks ≡ lookup ℕ_discrete j first.tasks)
unfolding on_tasks take_each remove_missing on_task_removed save write get_tasks_map lookup delete
    ℕ_discrete
on_tasks-scheduler_example = on_tasks-scheduler accepting tasks_json [] app_first app_emptied refl

abbrev app_kept : ApplicationScheduler ℕ
app_kept = record app_first { file = written_file }

-- The agent that starts again holds nothing before it reads the file.
on_tasks-load_or_write_example :
    load_or_write tasks_json [] written_file ≡ ((1, task_of 1) ∷ [], written_file, none)
unfolding on_tasks take_each save write get_tasks_map on_task remove_missing can_execute schedule
    schedule_new update_each update_trigger lookup insert ℕ_discrete Bytes-discrete
on_tasks-load_or_write_example =
    on_tasks-load_or_write tasks_json accepting (task_of 1 ∷ []) app app_kept [] (codes "{}") refl
      refl refl refl refl refl
