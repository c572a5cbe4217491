-- ===== src/Tests/Reactions.antt =====
-- taskscheduler/task_scheduler.go over the three schedulers of taskscheduler/scheduler.go: a task
-- on an event.
use telephonist_agent.Base.{
  arith, ℕ, ◌≡◌, refl, codes, [], ◌∷◌, true, false, none, some, lookup, done, inl, Mem,
}
use telephonist_agent.Task.{DefinedTask, Event}
use telephonist_agent.Ws.Receiving.{offered, on_new_event}
use telephonist_agent.Ws.Subscriptions.{subscribed_after}
use telephonist_agent.Triggers.OnEvent.Holding.{IsAttached}
use telephonist_agent.Queue.{EventQueue, is_subscribed}
use telephonist_agent.Triggers.{TriggeredEvent}
use telephonist_agent.Triggers.OnEvent.{TelephonistScheduler, drain_event}
use telephonist_agent.Triggers.Cron.{Gocron, CronTriggersScheduler}
use telephonist_agent.Triggers.Fs.{Watcher, FsTriggersScheduler}
use telephonist_agent.Triggers.Composite.{CompositeTriggersScheduler}
use telephonist_agent.Triggers.Children.{Child, cron, on_event, fs, trigger_executor}
use telephonist_agent.Tasks.{TaskScheduler, TaskTriggeredEvent, schedule, on_trigger}
use telephonist_agent.App.Reaction.{new_task_runs}
use telephonist_agent.Tests.Events.{plain, build, on_build, started, started-IsConsistent}

-- A cron scheduler and a file watcher that do nothing.
abbrev pub no_cron : Gocron ℕ ℕ
no_cron = record {
  cron_do = λ expression id t g. (g, inl 0);
  remove_by_reference = λ j g. g;
  start_async = λ g. g;
  stop = λ g. g;
  is_running = λ g. true;
}

abbrev pub no_watcher : Watcher ℕ
no_watcher = record { add = λ path w. (w, none); remove = λ path w. (w, none); close = λ w. w }

abbrev pub no_jobs : CronTriggersScheduler ℕ ℕ
no_jobs = record { cron_scheduler = 0; has_callback = true; jobs = [] }

abbrev pub no_paths : FsTriggersScheduler ℕ
no_paths = record {
  watcher = 0;
  path_triggers = [];
  triggers = [];
  has_callback = true;
  is_running = true;
}

abbrev pub over : TelephonistScheduler → CompositeTriggersScheduler (Child ℕ ℕ ℕ)
over t = record {
  child_schedulers = cron no_jobs ∷ on_event t ∷ fs no_paths ∷ [];
  executor_index_bits = 2;
  is_running = true;
  ids = [];
}

abbrev pub build_task : DefinedTask
build_task = record {
  name = codes "t";
  description = [];
  body = record { value = codes "ls"; body_type = codes "script" };
  env = [];
  tags = [];
  triggers = on_build ∷ [];
  id = 7;
  last_updated = 0;
  disabled = false;
}

abbrev pub built : Event
built = record { id = codes "1"; app_id = []; event_key = build; event_type = [] }

-- A task scheduler over the three, without a task.
abbrev pub no_task : TaskScheduler (CompositeTriggersScheduler (Child ℕ ℕ ℕ))
no_task = record {
  triggers_scheduler = over started;
  tasks = [];
  has_callback = true;
  trigger_tasks = [];
}

started-IsAttached : IsAttached started
unfolding lookup subscribed_after
started-IsAttached = record { held = λ q on e i there. absurd (ground arith); synced = λ e. refl }

new_task_runs_example :
    (e' : TaskScheduler (CompositeTriggersScheduler (Child ℕ ℕ ℕ))) × (t' : TelephonistScheduler)
    × (q' : EventQueue) × (schedule (trigger_executor no_cron no_watcher plain) build_task no_task
        ≡ done e')
    × (e'.triggers_scheduler.child_schedulers ≡ cron no_jobs ∷ on_event t' ∷ fs no_paths ∷ [])
    × (t'.queue ≡ some q')
    × (is_subscribed build q' ≡ true)
    × IsAttached t'
    × Mem (offered q'.channel built) (on_new_event built t'.client)
    × (te : TriggeredEvent) × Mem te (drain_event built t')
    × (te.trigger ≡ on_build)
    × (call : TaskTriggeredEvent) × Mem call (on_trigger 5 te e')
    × (call.task ≡ build_task)
    × (call.trigger_event ≡ te)
unfolding lookup
new_task_runs_example =
    new_task_runs no_cron no_watcher plain no_task no_jobs started no_paths
      (record { channel = 0; subscribed = [] }) build_task on_build built 5 refl refl refl
      started-IsConsistent refl refl started-IsAttached refl refl refl refl refl
