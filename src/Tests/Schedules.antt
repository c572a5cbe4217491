-- ===== src/Tests/Schedules.antt =====
-- taskscheduler/task_scheduler.go over the three schedulers: tasks with one trigger and with three.
use telephonist_agent.Base.{
  ℕ, ◌≡◌, refl, codes, [], ◌∷◌, true, false, none, some, lookup, insert, Bytes-discrete, ℕ_discrete,
  done, inl, inr,
}
use telephonist_agent.Task.{TaskTrigger, DefinedTask, trigger_cron, trigger_fsnotify}
use telephonist_agent.Task.Id.{trigger_id}
use telephonist_agent.Ws.{send, add_event_channel}
use telephonist_agent.Queue.{is_subscribed, subscribe_queue}
use telephonist_agent.Triggers.OnEvent.{TelephonistScheduler, schedule_by_id, count_up, add_trigger}
use telephonist_agent.Triggers.Composite.{CompositeTriggersScheduler, composite_triggers_scheduler}
use telephonist_agent.Triggers.Children.{
  Child, child_scheduler, child_can_schedule, child_schedule_by_id, scheduled_as, trigger_executor,
}
use telephonist_agent.Triggers.Cron as Cron
use telephonist_agent.Triggers.OnEvent as OnEvent
use telephonist_agent.Triggers.Composite as Composite
use telephonist_agent.Tasks.{
  TaskScheduler, ScheduledTask, schedule, schedule_new, update_each, update_trigger,
}
use telephonist_agent.Tasks.Schedule.{AllRunNow}
use telephonist_agent.Tasks.Returning.{IsLinked}
use telephonist_agent.App.Scheduling.{IsReady, executor_schedule-runs, executor_schedule-returns}
use telephonist_agent.Tests.Events.{plain, build, on_build, started, one}
use telephonist_agent.Tests.Reactions.{
  no_cron, no_watcher, no_jobs, no_paths, over, no_task, build_task,
}

-- The event scheduler with the trigger under its own identifier.
abbrev own : TelephonistScheduler
own = record one {
  triggers = (trigger_id on_build, on_build) ∷ [];
  event_triggers = (build, (trigger_id on_build, on_build) ∷ []) ∷ [];
}

abbrev with_build : TaskScheduler (CompositeTriggersScheduler (Child ℕ ℕ ℕ))
with_build = record {
  triggers_scheduler = record (over own) { ids = (trigger_id on_build, 1) ∷ [] };
  tasks =
      (
        7,
        record {
          defined_task = build_task;
          scheduled_triggers =
              (trigger_id on_build, record { trigger = on_build; scheduling_error = none }) ∷ [];
        },
      )
      ∷ [];
  has_callback = true;
  trigger_tasks = (trigger_id on_build, (7, build_task) ∷ []) ∷ [];
}

scheduled :
    schedule (trigger_executor no_cron no_watcher plain) build_task no_task ≡ done with_build
unfolding schedule schedule_new update_each update_trigger lookup insert ℕ_discrete Bytes-discrete
    trigger_executor composite_triggers_scheduler Composite.schedule_by_id Composite.first_able
    Composite.routed child_scheduler child_can_schedule child_schedule_by_id scheduled_as
    Cron.can_schedule OnEvent.can_schedule schedule_by_id count_up add_trigger subscribe_queue
    is_subscribed add_event_channel send
scheduled = refl

started-IsReady : IsReady (over started)
started-IsReady =
    (no_jobs, started, no_paths, record { channel = 0; subscribed = [] }, refl, refl, refl)

executor_schedule-runs_example :
    ((st : ScheduledTask) × (lookup ℕ_discrete 7 with_build.tasks ≡ some st)
      × (st.defined_task ≡ build_task))
    × AllRunNow with_build 7 build_task (on_build ∷ [])
executor_schedule-runs_example =
    executor_schedule-runs no_cron no_watcher plain build_task no_task with_build started-IsReady
      (inl (refl, (build, refl)), tt) scheduled

abbrev hourly : TaskTrigger
hourly = record { name = trigger_cron; body = codes "@hourly"; disabled = false }

abbrev on_files : TaskTrigger
on_files = record { name = trigger_fsnotify; body = codes "/a"; disabled = false }

abbrev busy_task : DefinedTask
busy_task = record build_task { triggers = on_build ∷ hourly ∷ on_files ∷ [] }

no_task-IsLinked : IsLinked no_task
unfolding lookup
no_task-IsLinked task_id id st x h1 h2 e = none-ne-some h1
  where
    none-ne-some : none ≡ some st → ⊥
    none-ne-some q = cc

executor_schedule-returns_example :
    (e' : TaskScheduler (CompositeTriggersScheduler (Child ℕ ℕ ℕ))) × (schedule
        (trigger_executor no_cron no_watcher plain)
        busy_task
        no_task
      ≡ done e')
    × IsReady e'.triggers_scheduler
    × IsLinked e'
unfolding lookup
executor_schedule-returns_example =
    executor_schedule-returns no_cron no_watcher plain busy_task no_task started-IsReady
      (
        inl (refl, (build, refl)),
        (
          inr (inl (refl, (codes "@hourly", refl, (λ g. (g, 0, refl))))),
          (inr (inr (refl, (codes "/a", refl, (λ w. (_, refl))))), tt),
        ),
      )
      no_task-IsLinked refl
