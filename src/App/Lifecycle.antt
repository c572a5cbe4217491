-- ===== src/App/Lifecycle.antt =====
-- scheduler.go: `Start` and `Stop` of the application, over the three schedulers of triggers.
pub mod Starting
pub mod Stopping
pub mod Reacting
pub mod Watching
pub mod Timing
use telephonist_agent.Base.{
  ℕ, codes, List, [], ◌∷◌, ◌⊎◌, inl, inr, true, Option, none, some, Map, Go, done, panic, ◌>>=◌,
  must,
}
use telephonist_agent.Errors.{Error, chain_error}
use telephonist_agent.Task.{DefinedTask, UnmarshalString}
use telephonist_agent.Rest.{Client}
use telephonist_agent.Ws.{WsClient, new_ws_client}
use telephonist_agent.Ws.Lifecycle.{stop}
use telephonist_agent.Triggers.{TriggersScheduler}
use telephonist_agent.Triggers.Cron.{Gocron}
use telephonist_agent.Triggers.Fs.{Watcher}
use telephonist_agent.Triggers.Composite.{CompositeTriggersScheduler}
use telephonist_agent.Triggers.Children.{
  Child, cron, on_event, fs, trigger_executor, new_trigger_executor,
}
use telephonist_agent.Tasks.{TaskScheduler, new_task_scheduler, set_callback}
use telephonist_agent.Tasks
use telephonist_agent.Config.{File}
use telephonist_agent.App.{TasksJson, on_task}
use telephonist_agent.App.Storage.{new_scheduler_config, load_or_write}

-- The state of the schedulers of triggers, and of the task scheduler over them.
abbrev pub Executor : Type 0 → Type 0 → Type 0 → Type 0
Executor G J W = CompositeTriggersScheduler (Child G J W)

-- `e.wsc` and `e.taskScheduler`. The event scheduler points to the same websocket client, which
-- stands there once there is a task scheduler.
pub data Parts (G J W : Type 0) : Type 0 where
  no_parts : Parts G J W
  client_only : WsClient → Parts G J W
  all_parts : TaskScheduler (Executor G J W) → Parts G J W

-- `orphans` are the clients that `e.wsc` no longer points to, whose loops go on.
pub record Agent (G J W : Type 0) : Type 0 where
  pub client : Option Client
  pub parts : Parts G J W
  pub orphans : List WsClient
  pub config : Map ℕ DefinedTask
  pub file : File
  pub instance_id : ℕ

module _ {G J W : Type 0} where
  -- `NewApplicationScheduler`, with the identifier that `getOrSetInstanceID` gives.
  unfoldable pub new_application_scheduler : Option Client → File → ℕ → Agent G J W
  new_application_scheduler client file instance_id = record {
    client = client;
    parts = no_parts;
    orphans = [];
    config = new_scheduler_config;
    file = file;
    instance_id = instance_id;
  }

  -- The assignment to `e.wsc`, of a client whose loop has been started.
  unfoldable pub set_wsc : WsClient → Agent G J W → Agent G J W
  set_wsc c e = elim e.parts [
    | no_parts ↦ record e { parts = client_only c }
    | client_only old ↦ record e { parts = client_only c; orphans = old ∷ e.orphans }
    | all_parts ts ↦ record e { parts = client_only c }
  ]

  -- The client, under the composite scheduler.
  unfoldable pub at_client : (WsClient → Go WsClient) → List (Child G J W) → Go (List (Child G J W))
  at_client f [] = done []
  at_client f (cron e ∷ rest) = do rest' ← at_client f rest; done (cron e ∷ rest')
  at_client f (fs e ∷ rest) = do rest' ← at_client f rest; done (fs e ∷ rest')
  at_client f (on_event e ∷ rest) = do
    c ← f e.client
    done (on_event (record e { client = c }) ∷ rest)

  -- The client of the task scheduler's event scheduler.
  unfoldable pub at_wsc :
      (WsClient → Go WsClient)
      → TaskScheduler (Executor G J W)
      → Go (TaskScheduler (Executor G J W))
  unfolding at_client
  at_wsc f ts = do
    children ← at_client f ts.triggers_scheduler.child_schedulers
    done (record ts {
      triggers_scheduler = record ts.triggers_scheduler { child_schedulers = children };
    })

-- What the agent uses: the cron library, the file watcher, the JSON of a text and of the
-- configuration, the watcher that `fsnotify.NewWatcher` gives or its error, and a new scheduler of
-- the cron library. `ran` is what the loop of the websocket client, which `StartAsync` starts in another
-- goroutine, has made of the client by the time that the event scheduler gets it.
pub record Environment (G J W : Type 0) : Type 0 where
  pub gocron : Gocron G J
  pub fsnotify : Watcher W
  pub unmarshal : UnmarshalString
  pub json : TasksJson
  pub new_watcher : W ⊎ Error
  pub new_gocron : G
  pub ran : WsClient → WsClient

module _ {G J W : Type 0} (env : Environment G J W) where
  abbrev pub ops : TriggersScheduler (Executor G J W)
  ops = trigger_executor env.gocron env.fsnotify env.unmarshal

  -- `createExecutor`, of a client: the task scheduler that it sets, or the error.
  unfoldable pub create_executor : WsClient → TaskScheduler (Executor G J W) ⊎ Error
  create_executor c = elim env.new_watcher [
    | inr err ↦ inr err
    | inl w ↦
        inl (set_callback true (new_task_scheduler ops (new_trigger_executor env.new_gocron c w)))
  ]

  -- What `Start` makes of the error of the task scheduler.
  abbrev started :
      Agent G J W → TaskScheduler (Executor G J W) × Option Error → Agent G J W × Option Error
  started e (ts, none) = (record e { parts = all_parts ts }, none)
  started e (ts, some err) =
      (record e { parts = all_parts ts }, some (chain_error (codes "failed to start executor") err))

  -- `Start` from the making of the client on.
  unfoldable pub start_parts : Agent G J W → Go (Agent G J W × Option Error)
  start_parts e = do
    _ ← must e.client
    let c = env.ran new_ws_client
    elim (create_executor c) [
      | inr err ↦ done (set_wsc c e, some (chain_error (codes "failed to create an executor") err))
      | inl ts ↦ do r ← Tasks.start ops ts; done (started (set_wsc c e) r)
    ]

  -- `Start` of an agent without a task scheduler.
  unfoldable pub start_first : Agent G J W → Go (Agent G J W × Option Error)
  unfolding start_parts
  start_first e =
      let (config, file, err) = load_or_write env.json e.config e.file in
      let e' = record e { config = config; file = file } in
      elim err [
        | some x ↦ done (e', some (chain_error (codes "failed to load executor config") x))
        | none ↦ start_parts e'
      ]

  -- `Start`
  unfoldable pub start : Agent G J W → Go (Agent G J W × Option Error)
  unfolding start_first
  start e = elim e.parts [
    | no_parts ↦ start_first e
    | client_only c ↦ start_first e
    | all_parts ts ↦ done (e, none)
  ]

  -- `Stop`
  unfoldable pub stop_agent : Agent G J W → Go (Agent G J W)
  unfolding at_wsc
  stop_agent e = elim e.parts [
    | no_parts ↦ done e
    | client_only c ↦ done e
    | all_parts ts ↦ do
      ts' ← Tasks.stop ops ts
      ts'' ← at_wsc stop ts'
      done (record e { parts = all_parts ts'' })
  ]

  -- `onTask`, whose call of a task scheduler that is not there panics.
  unfoldable pub agent_on_task : DefinedTask → Agent G J W → Go (Agent G J W)
  agent_on_task task e = elim e.parts [
    | no_parts ↦ panic
    | client_only c ↦ panic
    | all_parts ts ↦ do
      e' ←
          on_task ops env.json task
            (record { task_scheduler = ts; config = e.config; file = e.file })
      done (record e { parts = all_parts e'.task_scheduler; config = e'.config; file = e'.file })
  ]
