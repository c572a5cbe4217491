-- ===== src/App/Answer.antt =====
-- httpServer.go: what the local server answers about the agent, and the `Explain` methods that it
-- calls.
use telephonist_agent.Base.{
  ℕ, ◌≡◌, refl, Bytes, codes, List, [], ◌∷◌, ◌⊎◌, inl, inr, Bool, Option, none, some, Map, Go, done,
  panic, ◌>>=◌, Bytes-discrete,
}
use telephonist_agent.Base.Sets.{add_to_set, contains}
use telephonist_agent.Errors.{Error, error_text}
use telephonist_agent.Task.{
  DefinedTask, task_type_exec, task_type_script, trigger_cron, trigger_event, trigger_fsnotify,
}
use telephonist_agent.Ws.{WsClient, is_started, is_connected}
use telephonist_agent.Triggers.Children.{Child, cron, on_event, fs}
use telephonist_agent.Triggers.Cron.{Gocron}
use telephonist_agent.Triggers.Explaining.{
  TriggersSchedulerInfo, allowed_trigger_types, explain_composite, explain_child,
}
use telephonist_agent.Tasks.{TaskScheduler}
use telephonist_agent.App.Lifecycle.{Agent, Executor, no_parts, client_only, all_parts}
use telephonist_agent.App.Lifecycle.Starting.{running, without_tasks}

-- `ExecutorInfo`, whose details are not set, and `TaskSchedulerInfo`.
pub record ExecutorInfo : Type 0 where
  pub name : Bytes
  pub allowed_task_types : List Bytes

pub record TaskSchedulerInfo : Type 0 where
  pub name : Bytes
  pub triggers_scheduler_info : TriggersSchedulerInfo

-- `Explain` of the shell executor and of the task scheduler.
unfoldable pub explain_shell : ExecutorInfo
explain_shell = record {
  name = codes "ShellExecutor";
  allowed_task_types = task_type_exec ∷ task_type_script ∷ [];
}

unfoldable pub explain_tasks : {G J W : Type 0} → TaskScheduler (Executor G J W) → TaskSchedulerInfo
explain_tasks ts = record {
  name = codes "taskScheduler";
  triggers_scheduler_info = explain_composite explain_child ts.triggers_scheduler;
}

-- `clientInfo`, where there is a websocket client.
pub record ClientInfo : Type 0 where
  pub connection_id : ℕ
  pub instance_id : ℕ
  pub is_connected : Bool
  pub is_started : Bool
  pub last_error : Option Bytes

-- The value that is encoded; `path` and `value` are those of the configuration.
pub record Answer : Type 0 where
  pub path : Bytes
  pub value : Map ℕ DefinedTask
  pub executor : ExecutorInfo
  pub task_scheduler : TaskSchedulerInfo
  pub client : Option ClientInfo

module _ (strerror : ℕ → Bytes) (connection_id : ℕ) where
  last_error_text : Option Error → Option Bytes
  last_error_text none = none
  last_error_text (some err) = some (error_text strerror err)

  unfoldable pub client_info : ℕ → WsClient → ClientInfo
  unfolding last_error_text is_started is_connected
  client_info instance_id c = record {
    connection_id = connection_id;
    instance_id = instance_id;
    is_connected = is_connected c;
    is_started = is_started c;
    last_error = last_error_text c.last_error;
  }

  unfoldable pub info_of : ℕ → Option WsClient → Option ClientInfo
  unfolding client_info
  info_of instance_id none = none
  info_of instance_id (some c) = some (client_info instance_id c)

module _ {G J W : Type 0} where
  -- `e.wsc` under the composite scheduler.
  unfoldable pub wsc_of : List (Child G J W) → Option WsClient
  wsc_of [] = none
  wsc_of (cron e ∷ rest) = wsc_of rest
  wsc_of (fs e ∷ rest) = wsc_of rest
  wsc_of (on_event e ∷ rest) = some e.client

module _ {G J W : Type 0} (strerror : ℕ → Bytes) (connection_id : ℕ) where
  -- The value of `ServeHTTP`. Without a task scheduler its call of `Explain` panics, which ends the
  -- request.
  unfoldable pub answer : Bytes → Agent G J W → Go Answer
  unfolding info_of wsc_of explain_shell explain_tasks
  answer path e = elim e.parts [
    | no_parts ↦ panic
    | client_only c ↦ panic
    | all_parts ts ↦ done (record {
      path = path;
      value = e.config;
      executor = explain_shell;
      task_scheduler = explain_tasks ts;
      client =
          info_of strerror connection_id e.instance_id
            (wsc_of ts.triggers_scheduler.child_schedulers);
    })
  ]

  -- `ServeHTTP`, with the encoder: the status and the body.
  unfoldable pub serve_http : (Answer → Bytes ⊎ Error) → Bytes → Agent G J W → Go (ℕ × Bytes)
  unfolding answer
  serve_http encode path e = do
    a ← answer path e
    elim (encode a) [ inl body ↦ done (200, body) | inr err ↦ done (500, error_text strerror err) ]

  -- Of an application that has just started the server tells the configuration, the three types of
  -- triggers, in the order of the schedulers, and the state of the websocket client.
  pub answer_running :
      (path : Bytes) (e : Agent G J W) (gocron : Gocron G J) (g : G) (c : WsClient) (w : W)
      → e.parts ≡ all_parts (without_tasks (running gocron g c w))
      → (a : Answer) × (answer path e ≡ done a)
        × (a.value ≡ e.config)
        × (allowed_trigger_types a.task_scheduler.triggers_scheduler_info
            ≡ trigger_cron ∷ trigger_event ∷ trigger_fsnotify ∷ [])
        × (a.client ≡ some (client_info strerror connection_id e.instance_id c))
  unfolding answer explain_composite explain_tasks explain_child add_to_set contains info_of wsc_of
      explain_shell Bytes-discrete
  answer_running path e gocron g c w all = (
    record {
      path = path;
      value = e.config;
      executor = explain_shell;
      task_scheduler = explain_tasks (without_tasks (running gocron g c w));
      client = some (client_info strerror connection_id e.instance_id c);
    },
    rw (all, answer) refl,
    refl,
    refl,
    refl,
  )
