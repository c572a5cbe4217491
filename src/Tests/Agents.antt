-- ===== src/Tests/Agents.antt =====
-- scheduler.go and app.go: an agent over libraries that are counters.
use telephonist_agent.Base.{
  ℕ, ◌+◌, ◌≡◌, ◌⊎◌, inl, refl, codes, [], ◌∷◌, true, false, none, some, done, Bytes-discrete,
  ℕ_discrete, dec_lt,
}
use telephonist_agent.Base.Sets.{contains, IsSetLike}
use telephonist_agent.Errors.{message, nil}
use telephonist_agent.Task.{trigger_event}
use telephonist_agent.Rest.{Answer, Client, new_client, probe, get}
use telephonist_agent.Rest.Address.{Url}
use telephonist_agent.Config.{File, load, read_into, load_or_create}
use telephonist_agent.Ws.{
  connected, pumped, closed, WsClient, new_ws_client, ClientState, disconnected, unread,
  ClientState-discrete,
}
use telephonist_agent.Ws.Lifecycle.{stop, close_channel}
use telephonist_agent.Triggers.Cron.{Gocron, new_cron_triggers_scheduler}
use telephonist_agent.Triggers.Fs.{Watcher, new_fs_triggers_scheduler}
use telephonist_agent.Triggers.OnEvent.{TelephonistScheduler, new_telephonist_scheduler}
use telephonist_agent.Cli.Dialogue.{trim}
use telephonist_agent.Triggers.Children.{child_scheduler, trigger_executor, new_trigger_executor}
use telephonist_agent.Triggers.Explaining.{
  allowed_trigger_types, explain_composite, explain_child, can_schedule-explain,
}
use telephonist_agent.Triggers.Composite.{
  composite_triggers_scheduler, new_composite_triggers_scheduler,
}
use telephonist_agent.Queue.{unsubscribe_all, new_queue}
use telephonist_agent.Tasks
use telephonist_agent.Tasks.{TaskScheduler}
use telephonist_agent.App.{TasksJson}
use telephonist_agent.App.Instance.{IdFile, new_server, get_or_set_instance_id}
use telephonist_agent.App.Instance
use telephonist_agent.App.Storage.{load_or_write}
use telephonist_agent.App.Lifecycle.{
  Agent, Environment, Executor, no_parts, all_parts, start, start_first, start_parts, stop_agent,
  new_application_scheduler, create_executor, set_wsc,
}
use telephonist_agent.App.Lifecycle.Starting.{
  running, running_cron, running_events, running_files, without_tasks, start_runs,
}
use telephonist_agent.App.Lifecycle.Stopping.{halted, stopped_children, stop-start}
use telephonist_agent.Cli.Startup.{AppConfig, create_telephonist_client, prepare_config}
use telephonist_agent.Cli.Agent.{
  App, Machine, action, configured, prepared, with_client, run_scheduler, create_scheduler,
  lock_file, run_started, serve,
}
use telephonist_agent.Cli.Agent.Readiness.{Ready, action-Ready}

abbrev pub gocron : Gocron ℕ ℕ
gocron = record {
  cron_do = λ expression id t g. (g + 1, inl g);
  remove_by_reference = λ job g. g;
  start_async = λ g. g + 10;
  stop = λ g. g + 100;
  is_running = λ g. true;
}

abbrev pub fsnotify : Watcher ℕ
fsnotify = record {
  add = λ path w. (w + 1, none);
  remove = λ path w. (w + 1, none);
  close = λ w. w + 100;
}

abbrev no_file : File
no_file = record { open_error = none; write_error = none; seek_error = none; content = none }

abbrev pub stored : File
stored = record no_file { content = some (codes "{}") }

-- Every text is read as no task.
abbrev tasks_json : TasksJson
tasks_json = record { encode = λ m. inl (codes "{}"); decode = λ text m. inl [] }

-- By the time that the event scheduler gets it, the client has tried to connect.
abbrev pub dialled : WsClient → WsClient
dialled c = record c { state = disconnected; send_messages = unread }

abbrev pub env : Environment ℕ ℕ ℕ
env = record {
  gocron = gocron;
  fsnotify = fsnotify;
  unmarshal = λ body. some body;
  json = tasks_json;
  new_watcher = inl 5;
  new_gocron = 0;
  ran = dialled;
}

abbrev server : Url
server = record { scheme = codes "http"; host = codes "h"; path = []; raw_query = [] }

abbrev pub client : Client
client = record { api_key = codes "k"; url = server }

abbrev pub made : Agent ℕ ℕ ℕ
made = record {
  client = some client;
  parts = no_parts;
  orphans = [];
  config = [];
  file = stored;
  instance_id = 7;
}

abbrev tried : WsClient
tried = record {
  state = disconnected;
  send_messages = unread;
  sent = [];
  conn_open = false;
  event_channels = [];
  event_channels_seq = 0;
  last_error = none;
}

start_runs_example :
    (e' : Agent ℕ ℕ ℕ) × (start env made ≡ done (e', none))
    × (e'.config ≡ [])
    × (e'.file ≡ stored)
    × (e'.parts ≡ all_parts (without_tasks (running gocron 0 (dialled new_ws_client) 5)))
unfolding load_or_write load read_into
start_runs_example = start_runs env made client 5 [] stored refl refl refl refl

-- A client that sends.
abbrev sending : WsClient
sending = record tried { send_messages = pumped; state = connected }

abbrev started : Agent ℕ ℕ ℕ
started = record made { parts = all_parts (without_tasks (running gocron 0 sending 5)) }

abbrev closed_client : WsClient
closed_client = record tried { state = ClientState.stopped; send_messages = closed }

abbrev halted_agent : Agent ℕ ℕ ℕ
halted_agent = record made {
  parts = all_parts (without_tasks (halted gocron fsnotify 0 closed_client 5));
}

stop-start_example :
    (e' : Agent ℕ ℕ ℕ) × (ts' : TaskScheduler (Executor ℕ ℕ ℕ)) × (t' : TelephonistScheduler)
    × (stop_agent env started ≡ done e')
    × (e'.parts ≡ all_parts ts')
    × (ts'.triggers_scheduler.is_running ≡ false)
    × (ts'.triggers_scheduler.child_schedulers
        ≡ stopped_children env (running_cron gocron 0) t' (running_files 5))
    × (t'.queue ≡ none)
    × (t'.client.state ≡ ClientState.stopped)
    × (start env e' ≡ done (e', none))
stop-start_example =
    stop-start env started (without_tasks (running gocron 0 sending 5)) (running_cron gocron 0)
      (running_events sending) (running_files 5) refl refl refl refl

can_schedule-explain_example :
    let e : Executor ℕ ℕ ℕ = running gocron 0 tried 5 in
    let allowed = allowed_trigger_types (explain_composite explain_child e) in
    IsSetLike Bytes-discrete allowed
    × ((trigger_executor gocron fsnotify (λ body. some body)).can_schedule e trigger_event
        ≡ contains Bytes-discrete allowed trigger_event)
can_schedule-explain_example =
    can_schedule-explain gocron fsnotify (λ body. some body) (running {W = ℕ} gocron 0 tried 5)
      trigger_event

abbrev config : AppConfig
config = record { application_key = codes "k"; telephonist_address = codes "http://h" }

abbrev reply : Answer
reply = record {
  errors = nil;
  response = some (record { status_code = 200; status = []; body = some [] });
}

abbrev pub machine : Machine ℕ ℕ ℕ ℕ
machine = record {
  env = env;
  http = record { end = λ r w. (w + 1, reply); end_struct = λ r w. (w + 1, reply) };
  strerror = λ n. [];
  parse_url = λ text. inl server;
  config_json = record { encode = λ c. inl (codes "{}"); decode = λ text c. inl config };
  key_missing = message [];
  lock_error = none;
  unlock_error = none;
  executor_config = stored;
  parse_uuid = λ text. some 7;
  uuid_text = λ n. n ∷ [];
  fresh_uuid = 7;
  lived = λ e. done e;
}

abbrev id_file : IdFile
id_file = record { read_error = none; is_writable = true; content = some (7 ∷ []) }

abbrev app : App ℕ ℕ ℕ
app = record {
  has_lock = false;
  app_config_file = stored;
  app_config = config;
  telephonist_client = none;
  scheduler = none;
  server = none;
  id_file = id_file;
}

abbrev ended : App ℕ ℕ ℕ
ended = record app {
  has_lock = true;
  telephonist_client = some client;
  scheduler = some halted_agent;
  server = some (record { is_running = true; is_listening = false });
}

app_acts : action machine (codes "/etc") app 0 ≡ done (ended, 1, none)
unfolding action configured prepared with_client run_scheduler create_scheduler lock_file
    run_started serve start start_first start_parts stop_agent Tasks.stop trigger_executor
    composite_triggers_scheduler child_scheduler unsubscribe_all stop close_channel
    ClientState-discrete load_or_create load_or_write load read_into prepare_config
    create_telephonist_client Bytes-discrete ℕ_discrete get_or_set_instance_id
    new_application_scheduler trim new_client probe get dec_lt create_executor Tasks.start
    Tasks.set_callback Tasks.new_task_scheduler new_trigger_executor
    new_composite_triggers_scheduler new_telephonist_scheduler new_fs_triggers_scheduler new_queue
    set_wsc new_cron_triggers_scheduler new_ws_client Instance.stop Instance.start new_server
app_acts = refl

action-Ready_example : ((app.has_lock ≡ true) ⊎ (machine.lock_error ≡ none)) × Ready machine ended 0
action-Ready_example =
    action-Ready machine (codes "/etc") app ended 0 1 none halted_agent refl app_acts refl
