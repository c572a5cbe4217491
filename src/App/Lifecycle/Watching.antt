-- ===== src/App/Lifecycle/Watching.antt =====
-- scheduler.go: from `Start` of the application to the run of a task on a file.
use mathlib.Core.Path.{subst, sym}
use telephonist_agent.Base.{
  ℕ, ◌≡◌, refl, Bytes, [], ◌∷◌, inl, true, false, Option, none, some, Map, Mem, lookup, insert,
  done, arith,
}
use telephonist_agent.Task.{TaskTrigger, DefinedTask, trigger_fsnotify}
use telephonist_agent.Task.Id.{trigger_id}
use telephonist_agent.Rest.{Client}
use telephonist_agent.Ws.{new_ws_client}
use telephonist_agent.Triggers.{TriggeredEvent}
use telephonist_agent.Triggers.Fs.{FsTriggersScheduler, FsEvent, dispatch_event, meta_of}
use telephonist_agent.Triggers.Fs.Paths.{normalize_path, matches_path}
use telephonist_agent.Triggers.Fs.Dispatch.{dispatch_event_iff, IsTable, watched}
use telephonist_agent.Triggers.Children.{cron, on_event, fs, trigger_executor}
use telephonist_agent.Triggers.Children.Taking.{schedule_by_id-takes_file}
use telephonist_agent.Triggers.Composite.{composite_triggers_scheduler}
use telephonist_agent.Tasks.{TaskScheduler, TaskTriggeredEvent, on_trigger}
use telephonist_agent.Tasks.Links.{runs}
use telephonist_agent.Tasks.Single.{schedule_single}
use telephonist_agent.Config.{File}
use telephonist_agent.App.Storage.{load_or_write}
use telephonist_agent.App.Delivery.{mem-on_trigger}
use telephonist_agent.App.Lifecycle.{
  Agent, Executor, Environment, all_parts, ops, start, agent_on_task,
}
use telephonist_agent.App.Lifecycle.Starting.{
  has_scheduler, running, running_cron, running_events, running_files, without_tasks, start_runs,
}
use telephonist_agent.App.Lifecycle.Reacting.{on_task-parts}

single-IsTable : (root : Bytes) (id : ℕ) (t : TaskTrigger) → IsTable ((root, (id, t) ∷ []) ∷ [])
unfolding lookup
single-IsTable root id t = (refl, (refl, tt), (λ e. cc), tt)

watched-single :
    (root : Bytes) (id : ℕ) (t : TaskTrigger) → watched ((root, (id, t) ∷ []) ∷ []) root id ≡ some t
unfolding watched lookup
watched-single root id t = ground arith

-- A file event under the one path that is watched calls back with the trigger on the path.
mem-dispatch_event :
    {W : Type 0} (abs : Bytes → Option Bytes) (event : FsEvent) (f : FsTriggersScheduler W)
    (root path : Bytes) (id : ℕ) (t : TaskTrigger)
    → f.has_callback ≡ true
    → f.path_triggers ≡ (root, (id, t) ∷ []) ∷ []
    → abs event.name ≡ some path
    → matches_path root path ≡ true
    → (te : TriggeredEvent) × Mem te (dispatch_event abs event f)
      × (te.trigger_id ≡ id)
      × (te.trigger ≡ t)
      × (te.params ≡ meta_of path event)
mem-dispatch_event abs event f root path id t set table absolute under =
    let te : TriggeredEvent = record {
      trigger_id = id;
      trigger = t;
      params = meta_of path event;
    } in
    (
      te,
      (dispatch_event_iff abs event f te (subst IsTable (sym table) (single-IsTable root id t))).1
          ∣ (
            path,
            root,
            set,
            absolute,
            (
              under,
              subst (λ m. watched m root id ≡ some t) (sym table) (watched-single root id t),
              refl,
            ),
          ) ∣₁,
      refl,
      refl,
      refl,
    )

module _ {G J W : Type 0} (env : Environment G J W) where
  -- For an agent with a REST client and without a task scheduler, when the configuration is read, or is not
  -- there and is written, without an error and the file watcher is made, `Start` returns without an error,
  -- and so does `onTask` of a task whose one trigger is on a path that the watcher takes. A file event whose
  -- absolute path begins with the normalised path then calls back with the trigger, the event's path and its
  -- operation, and that call makes the task scheduler call back with the task.
  pub started_agent_watches :
      (e : Agent G J W) (cl : Client) (w w' : W) (config : Map ℕ DefinedTask) (file : File)
      (d : DefinedTask) (trigger : TaskTrigger) (text path : Bytes) (abs : Bytes → Option Bytes)
      (event : FsEvent) (now : ℕ)
      → has_scheduler e.parts ≡ false
      → e.client ≡ some cl
      → env.new_watcher ≡ inl w
      → load_or_write env.json e.config e.file ≡ (config, file, none)
      → d.triggers ≡ trigger ∷ []
      → trigger.name ≡ trigger_fsnotify
      → env.unmarshal trigger.body ≡ some text
      → env.fsnotify.add (normalize_path text) w ≡ (w', none)
      → abs event.name ≡ some path
      → matches_path (normalize_path text) path ≡ true
      → (e1 : Agent G J W) × (e2 : Agent G J W) × (ts : TaskScheduler (Executor G J W))
        × (f : FsTriggersScheduler W) × (start env e ≡ done (e1, none))
        × (agent_on_task env d e1 ≡ done e2)
        × (e2.parts ≡ all_parts ts)
        × (ts.triggers_scheduler.child_schedulers
            ≡ cron (running_cron env.gocron env.new_gocron)
              ∷ on_event (running_events (env.ran new_ws_client))
              ∷ fs f
              ∷ [])
        × (te : TriggeredEvent) × Mem te (dispatch_event abs event f)
        × (te.trigger ≡ trigger)
        × (te.params ≡ meta_of path event)
        × (call : TaskTriggeredEvent) × Mem call (on_trigger now te ts)
        × (call.task ≡ d)
        × (call.trigger_event ≡ te)
  unfolding lookup insert trigger_executor composite_triggers_scheduler
  started_agent_watches e cl w w' config file d trigger text path abs event now fresh set watched
        read one name body added absolute under =
      let id = trigger_id trigger in
      let c = env.ran new_ws_client in
      let idle = without_tasks (running env.gocron env.new_gocron c w) in
      let (e1, started, _, _, parts) = start_runs env e cl w config file fresh set watched read in
      let (x, f, taken, children, table, callback) =
        schedule_by_id-takes_file env.gocron env.fsnotify env.unmarshal
          (running env.gocron env.new_gocron c w) (running_cron env.gocron env.new_gocron)
          (running_events c) (running_files w) refl id trigger text w' name body refl added in
      let (ts, scheduled, left, kept, run) =
        schedule_single (ops env) d trigger idle x id one refl taken in
      let (e2, given, parts') = on_task-parts env d e1 idle ts parts scheduled in
      let (te, dispatched, same_id, same, params) =
        mem-dispatch_event abs event f (normalize_path text) path id trigger callback table absolute
          under in
      let (call, made, task, of) =
        mem-on_trigger now te ts d.id d kept
          (subst (λ i. runs ts i d.id ≡ some d) (sym same_id) run) in
      (
        e1,
        e2,
        ts,
        f,
        started,
        given,
        parts',
        rw left children,
        te,
        dispatched,
        same,
        params,
        call,
        made,
        task,
        of,
      )
