-- ===== src/App/Lifecycle/Timing.antt =====
-- scheduler.go: from `Start` of the application to the run of a task at its times.
use mathlib.Core.List.{mem-cons_self}
use telephonist_agent.Base.{
  ℕ, ◌≡◌, refl, Bytes, [], ◌∷◌, inl, true, false, none, some, Map, Mem, lookup, insert, ℕ_discrete,
  done, arith, lookup-insert,
}
use telephonist_agent.Task.{TaskTrigger, DefinedTask, trigger_cron}
use telephonist_agent.Task.Id.{trigger_id}
use telephonist_agent.Rest.{Client}
use telephonist_agent.Ws.{new_ws_client}
use telephonist_agent.Triggers.{TriggeredEvent}
use telephonist_agent.Triggers.Cron.{CronTriggersScheduler, trigger_job}
use telephonist_agent.Triggers.Children.{cron, on_event, fs, trigger_executor}
use telephonist_agent.Triggers.Children.Taking.{schedule_by_id-takes_cron}
use telephonist_agent.Triggers.Composite.{composite_triggers_scheduler}
use telephonist_agent.Tasks.{TaskScheduler, TaskTriggeredEvent, on_trigger}
use telephonist_agent.Tasks.Single.{schedule_single}
use telephonist_agent.Config.{File}
use telephonist_agent.App.Storage.{load_or_write}
use telephonist_agent.App.Delivery.{mem-on_trigger}
use telephonist_agent.App.Lifecycle.{
  Agent, Executor, Environment, all_parts, ops, start, agent_on_task,
}
use telephonist_agent.App.Lifecycle.Starting.{
  has_scheduler, running, running_cron, running_events, running_files, without_tasks, start_runs,
}
use telephonist_agent.App.Lifecycle.Reacting.{on_task-parts}

module _ {G J W : Type 0} (env : Environment G J W) where
  -- For an agent with a REST client and without a task scheduler, when the configuration is read, or is not
  -- there and is written, without an error and the file watcher is made, `Start` returns without an error,
  -- and so does `onTask` of a task whose one trigger is on a cron expression that the started cron library
  -- takes. The job is then kept under the trigger's identifier. Each time that the library calls `trigger`
  -- for it, that calls back with the trigger, and that call makes the task scheduler call back with the task.
  pub started_agent_keeps_time :
      (e : Agent G J W) (cl : Client) (w : W) (config : Map ℕ DefinedTask) (file : File)
      (d : DefinedTask) (trigger : TaskTrigger) (expression : Bytes) (g : G) (job : J) (now : ℕ)
      → has_scheduler e.parts ≡ false
      → e.client ≡ some cl
      → env.new_watcher ≡ inl w
      → load_or_write env.json e.config e.file ≡ (config, file, none)
      → d.triggers ≡ trigger ∷ []
      → trigger.name ≡ trigger_cron
      → env.unmarshal trigger.body ≡ some expression
      → env.gocron.cron_do expression
          (trigger_id trigger)
          trigger
          (env.gocron.start_async env.new_gocron)
        ≡ (g, inl job)
      → (e1 : Agent G J W) × (e2 : Agent G J W) × (ts : TaskScheduler (Executor G J W))
        × (c : CronTriggersScheduler G J) × (start env e ≡ done (e1, none))
        × (agent_on_task env d e1 ≡ done e2)
        × (e2.parts ≡ all_parts ts)
        × (ts.triggers_scheduler.child_schedulers
            ≡ cron c
              ∷ on_event (running_events (env.ran new_ws_client))
              ∷ fs (running_files w)
              ∷ [])
        × (c.cron_scheduler ≡ g)
        × (lookup ℕ_discrete (trigger_id trigger) c.jobs ≡ some job)
        × (te : TriggeredEvent) × Mem te
            (trigger_job env.gocron env.unmarshal (trigger_id trigger) trigger c)
        × (te.trigger ≡ trigger)
        × (call : TaskTriggeredEvent) × Mem call (on_trigger now te ts)
        × (call.task ≡ d)
        × (call.trigger_event ≡ te)
  unfolding lookup trigger_job trigger_executor composite_triggers_scheduler
  started_agent_keeps_time e cl w config file d trigger expression g job now fresh set watched read
        one name body accepted =
      let id = trigger_id trigger in
      let events = running_events (env.ran new_ws_client) in
      let timed : CronTriggersScheduler G J = record {
        cron_scheduler = g;
        has_callback = true;
        jobs = insert ℕ_discrete id job [];
      } in
      let te : TriggeredEvent = record { trigger_id = id; trigger = trigger; params = [] } in
      let executor = running env.gocron env.new_gocron (env.ran new_ws_client) w in
      let idle = without_tasks executor in
      let (e1, started, _, _, parts) = start_runs env e cl w config file fresh set watched read in
      let (x, taken, children) =
        schedule_by_id-takes_cron env.gocron env.fsnotify env.unmarshal executor
          (running_cron env.gocron env.new_gocron) events (running_files w) refl id trigger
          expression g job name body accepted in
      let (ts, scheduled, left, kept, run) =
        schedule_single (ops env) d trigger idle x id one refl taken in
      let (e2, given, parts') = on_task-parts env d e1 idle ts parts scheduled in
      let (call, made, task, of) = mem-on_trigger now te ts d.id d kept run in
      (
        e1,
        e2,
        ts,
        timed,
        started,
        given,
        parts',
        rw left children,
        refl,
        grind (arith, lookup-insert),
        te,
        mem-cons_self,
        refl,
        call,
        made,
        task,
        of,
      )
