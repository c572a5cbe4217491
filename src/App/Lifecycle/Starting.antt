-- ===== src/App/Lifecycle/Starting.antt =====
-- scheduler.go: what `Start` of the application leaves.
use telephonist_agent.Base.{
  codes, ℕ, ◌≡◌, refl, [], ◌∷◌, ◌⊎◌, inl, inr, Bool, true, false, none, some, Map, done, arith,
  dec_lt,
}
use telephonist_agent.Errors.{Error, chain_error}
use telephonist_agent.Task.{DefinedTask}
use telephonist_agent.Rest.{Client}
use telephonist_agent.Ws.{WsClient, new_ws_client}
use telephonist_agent.Triggers.Cron.{Gocron, CronTriggersScheduler, new_cron_triggers_scheduler}
use telephonist_agent.Triggers.Fs.{FsTriggersScheduler, new_fs_triggers_scheduler}
use telephonist_agent.Triggers.OnEvent.{TelephonistScheduler, new_telephonist_scheduler}
use telephonist_agent.Queue.{new_queue}
use telephonist_agent.Triggers.Children.{
  cron, on_event, fs, trigger_executor, new_trigger_executor, child_scheduler,
}
use telephonist_agent.Triggers.Composite.{
  new_composite_triggers_scheduler, composite_triggers_scheduler, start_from,
}
use telephonist_agent.Triggers.Composite
use telephonist_agent.Tasks.{TaskScheduler, new_task_scheduler, set_callback}
use telephonist_agent.Tasks
use telephonist_agent.Config.{File}
use telephonist_agent.App.Storage.{load_or_write}
use telephonist_agent.App.Lifecycle.{
  Parts, no_parts, client_only, all_parts, Agent, Executor, Environment, ops, create_executor,
  set_wsc, start_parts, start_first, start, stop_agent,
}

abbrev pub has_scheduler : {G J W : Type 0} → Parts G J W → Bool
has_scheduler no_parts = false
has_scheduler (client_only c) = false
has_scheduler (all_parts ts) = true

parts-cases :
    {G J W : Type 0} (p : Parts G J W)
    → (p ≡ no_parts)
      ⊎ (((c : WsClient) × (p ≡ client_only c))
          ⊎ ((ts : TaskScheduler (Executor G J W)) × (p ≡ all_parts ts)))
parts-cases no_parts = inl refl
parts-cases (client_only c) = inr (inl (c, refl))
parts-cases (all_parts ts) = inr (inr (ts, refl))

-- The three schedulers once they run and before any trigger is scheduled.
abbrev pub running_cron : {G J : Type 0} → Gocron G J → G → CronTriggersScheduler G J
running_cron gocron g = record {
  cron_scheduler = gocron.start_async g;
  has_callback = true;
  jobs = [];
}

abbrev pub running_events : WsClient → TelephonistScheduler
running_events c = record {
  client = c;
  next_channel = 1;
  queue = some (record { channel = 0; subscribed = [] });
  subscriptions_counters = [];
  triggers = [];
  event_triggers = [];
  has_callback = true;
}

abbrev pub running_files : {W : Type 0} → W → FsTriggersScheduler W
running_files w = record {
  watcher = w;
  path_triggers = [];
  triggers = [];
  has_callback = true;
  is_running = true;
}

-- The schedulers of triggers once they run and before any trigger is scheduled.
abbrev pub running : {G J W : Type 0} → Gocron G J → G → WsClient → W → Executor G J W
running gocron g c w = record {
  child_schedulers =
      cron (running_cron gocron g) ∷ on_event (running_events c) ∷ fs (running_files w) ∷ [];
  executor_index_bits = 2;
  is_running = true;
  ids = [];
}

abbrev pub without_tasks : {S : Type 0} → S → TaskScheduler S
without_tasks s = record {
  triggers_scheduler = s;
  tasks = [];
  has_callback = true;
  trigger_tasks = [];
}

set_wsc_keeps :
    {G J W : Type 0} (c : WsClient) (e : Agent G J W)
    → ((set_wsc c e).config ≡ e.config) × ((set_wsc c e).file ≡ e.file)
unfolding set_wsc
set_wsc_keeps c e = ground arith

module _ {G J W : Type 0} (env : Environment G J W) where
  first_start : (e : Agent G J W) → has_scheduler e.parts ≡ false → start env e ≡ start_first env e
  unfolding start
  first_start e h = elim (parts-cases e.parts) [
    | inl none_there ↦ ground arith
    | inr (inl (c, client)) ↦ ground arith
    | inr (inr (ts, all)) ↦ absurd (ground arith)
  ]

  executor_runs :
      (c : WsClient) (w : W)
      → env.new_watcher ≡ inl w
      → (ts : TaskScheduler (Executor G J W)) × (create_executor env c ≡ inl ts)
        × (Tasks.start (ops env) ts
            ≡ done (without_tasks (running env.gocron env.new_gocron c w), none))
  unfolding create_executor Tasks.start new_task_scheduler set_callback trigger_executor
      composite_triggers_scheduler Composite.start Composite.set_callback start_from
      new_trigger_executor new_composite_triggers_scheduler child_scheduler
      new_telephonist_scheduler new_fs_triggers_scheduler new_cron_triggers_scheduler new_queue
      dec_lt
  executor_runs c w watched = (
    set_callback true (new_task_scheduler (ops env) (new_trigger_executor env.new_gocron c w)),
    rw (watched, create_executor),
    refl,
  )

  -- For an agent with a REST client and without a task scheduler, when the configuration is read, or is not
  -- there and is written, without an error and the file watcher is made, `Start` returns without an error. All
  -- three schedulers of triggers then run, their callbacks and the task scheduler's are set, and the
  -- configuration is the one that was read; no task of it is scheduled.
  pub start_runs :
      (e : Agent G J W) (cl : Client) (w : W) (config : Map ℕ DefinedTask) (file : File)
      → has_scheduler e.parts ≡ false
      → e.client ≡ some cl
      → env.new_watcher ≡ inl w
      → load_or_write env.json e.config e.file ≡ (config, file, none)
      → (e' : Agent G J W) × (start env e ≡ done (e', none))
        × (e'.config ≡ config)
        × (e'.file ≡ file)
        × (e'.parts
            ≡ all_parts
                (without_tasks (running env.gocron env.new_gocron (env.ran new_ws_client) w)))
  unfolding start_first start_parts
  start_runs e cl w config file fresh set watched read =
      let (ts, made, runs) = executor_runs (env.ran new_ws_client) w watched in
      let e' = record e { config = config; file = file } in
      (
        record (set_wsc (env.ran new_ws_client) e') {
          parts =
              all_parts
                (without_tasks (running env.gocron env.new_gocron (env.ran new_ws_client) w));
        },
        ground (arith, first_start e fresh),
        ground (arith, set_wsc_keeps (env.ran new_ws_client) e'),
        ground (arith, set_wsc_keeps (env.ran new_ws_client) e'),
        refl,
      )

  -- For an agent with a REST client and without a task scheduler, when the configuration is read, or is not
  -- there and is written, without an error and no file watcher is made, `Start` returns an error and leaves a
  -- websocket client whose loop goes on and no task scheduler. The client of an earlier call, if there was
  -- one, is then out of reach, and its loop goes on too; `Stop` changes nothing.
  pub start_fails :
      (e : Agent G J W) (cl : Client) (err : Error) (config : Map ℕ DefinedTask) (file : File)
      → has_scheduler e.parts ≡ false
      → e.client ≡ some cl
      → env.new_watcher ≡ inr err
      → load_or_write env.json e.config e.file ≡ (config, file, none)
      → (e' : Agent G J W) × (x : Error) × (start env e ≡ done (e', some x))
        × (e'.parts ≡ client_only (env.ran new_ws_client))
        × ((old : WsClient) → e.parts ≡ client_only old → e'.orphans ≡ old ∷ e.orphans)
        × (stop_agent env e' ≡ done e')
  unfolding start_first start_parts create_executor set_wsc stop_agent
  start_fails e cl err config file fresh set watched read = (
    set_wsc (env.ran new_ws_client) (record e { config = config; file = file }),
    chain_error (codes "failed to create an executor") err,
    ground (arith, first_start e fresh),
    ground arith,
    λ old is. ground arith,
    ground arith,
  )
