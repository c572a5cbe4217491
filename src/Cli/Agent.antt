-- ===== src/Cli/Agent.antt =====
-- app.go: `action`, which runs the agent, with `lockFile`, `createScheduler` and `after`.
pub mod Readiness
use telephonist_agent.Base.{
  ℕ, Bytes, codes, ◌++◌, Bool, true, false, Option, none, some, Go, done, exit, ◌>>=◌, must,
}
use telephonist_agent.Errors.{Error, message, error_text}
use telephonist_agent.Rest.{Gorequest, Client}
use telephonist_agent.Config.{File, Json, load_or_create}
use telephonist_agent.App.Lifecycle.{
  Agent, Environment, new_application_scheduler, start, stop_agent,
}
use telephonist_agent.App.Instance.{Server, new_server, IdFile, get_or_set_instance_id}
use telephonist_agent.App.Instance
use telephonist_agent.Cli.Startup.{
  AppConfig, ParseUrl, prepare_config, create_telephonist_client, filename_helper, config_path,
}

-- `App`. The lock is known by whether it was made; `scheduler` and `server` are there once they are
-- made. `id_file` keeps the instance's identifier.
pub record App (G J W : Type 0) : Type 0 where
  pub has_lock : Bool
  pub app_config_file : File
  pub app_config : AppConfig
  pub telephonist_client : Option Client
  pub scheduler : Option (Agent G J W)
  pub server : Option Server
  pub id_file : IdFile

-- What the agent uses: the requests of `H`, what `LockWithTimeout` and `Unlock` answer, the file of
-- the scheduler's configuration, and what happens to the scheduler until the interrupt.
pub record Machine (G J W H : Type 0) : Type 0 where
  pub env : Environment G J W
  pub http : Gorequest H
  pub strerror : ℕ → Bytes
  pub parse_url : ParseUrl
  pub config_json : Json AppConfig
  pub key_missing : Error
  pub lock_error : Option Error
  pub unlock_error : Option Error
  pub executor_config : File
  pub parse_uuid : Bytes → Option ℕ
  pub uuid_text : ℕ → Bytes
  pub fresh_uuid : ℕ
  pub lived : Agent G J W → Go (Agent G J W)

module _ {G J W H : Type 0} (m : Machine G J W H) where
  -- `lockFile`; `path` is the folder of the configuration.
  unfoldable pub lock_file : Bytes → App G J W → App G J W × Option Error
  unfolding filename_helper
  lock_file path a = elim a.has_lock [
    | true ↦ (a, none)
    | false ↦ elim m.lock_error [
      | none ↦ (record a { has_lock = true }, none)
      | some err ↦ (
        record a { has_lock = true },
        some (
            message (
              codes "failed to acquire the lock "
              ++ (filename_helper path (codes "client.lock")
                  ++ (codes ": "
                      ++ (error_text m.strerror err
                          ++ codes
                              ", make sure you only run one instance of the agent at a time and then try again"))))),
      )
    ]
  ]

  -- `fatalOnErr`
  abbrev pub fatal_on_err : {A : Type 0} → A × Option Error → Go A
  fatal_on_err (a, none) = done a
  fatal_on_err (a, some err) = exit

  -- `before`: the folder and the file of the configuration, by their flags; the first argument is the
  -- error of `MkdirAll`.
  unfoldable pub before : Option Error → Bytes → Bytes → Go (Bytes × Bytes)
  unfolding config_path
  before made root_path path = do
    root ← fatal_on_err (root_path, made)
    done (root, config_path root path)

  -- `createScheduler`
  unfoldable pub create_scheduler : App G J W → Go (App G J W)
  create_scheduler a = do
    client ← must a.telephonist_client
    let (id_file, id) = get_or_set_instance_id m.parse_uuid m.uuid_text m.fresh_uuid a.id_file
    done (record a {
      scheduler = some (new_application_scheduler (some client) m.executor_config id);
      id_file = id_file;
    })

  abbrev pub Acted : Type 0
  Acted = Go (App G J W × H × Option Error)

  -- The end of `action`: the server, the time until the interrupt, and the two calls of `Stop`.
  unfoldable pub serve : App G J W → H → Agent G J W → Acted
  serve a h e = do
    let server = Instance.start new_server
    e' ← m.lived e
    let server' = Instance.stop server
    e'' ← stop_agent m.env e'
    done (record a { scheduler = some e''; server = some server' }, h, none)

  -- What `action` makes of the scheduler's start.
  unfoldable pub run_started : App G J W → H → Agent G J W × Option Error → Acted
  unfolding serve
  run_started a h (e, none) = serve a h e
  run_started a h (e, some err) = done (
    record a { scheduler = some e },
    h,
    some (message (codes "failed to start executor: " ++ error_text m.strerror err)),
  )

  -- `action` from `createScheduler` on.
  unfoldable pub run_scheduler : App G J W → H → Acted
  unfolding create_scheduler run_started
  run_scheduler a h = do
    a' ← create_scheduler a
    e ← must a'.scheduler
    r ← start m.env e
    run_started a' h r

  -- What `action` makes of the client, which is set even where there is an error.
  unfoldable pub with_client : App G J W → H × Option Client × Option Error → Acted
  unfolding run_scheduler
  with_client a (h, client, some err) = done (record a { telephonist_client = client }, h, some err)
  with_client a (h, client, none) = run_scheduler (record a { telephonist_client = client }) h

  -- `action` from `prepareConfig` on.
  unfoldable pub prepared : App G J W → H → AppConfig × Option Error → Acted
  unfolding with_client
  prepared a h (config, some err) = done (
    record a { app_config = config },
    h,
    some (message (codes "prepareConfig: " ++ error_text m.strerror err)),
  )
  prepared a h (config, none) = do
    r ← create_telephonist_client m.http m.strerror m.parse_url config h
    with_client (record a { app_config = config }) r

  -- `LoadOrCreate` of the application's configuration.
  unfoldable pub configured : App G J W → Go (App G J W)
  configured a = do
    let (config, file, err) = load_or_create m.config_json a.app_config a.app_config_file
    fatal_on_err (record a { app_config = config; app_config_file = file }, err)

  -- `action`
  unfoldable pub action : Bytes → App G J W → H → Acted
  unfolding lock_file configured prepared
  action path a h = do
    a' ← fatal_on_err (lock_file path a)
    a'' ← configured a'
    prepared a'' h (prepare_config m.key_missing a''.app_config)

  -- `after`
  unfoldable pub after : App G J W → Option Error
  after a = elim a.has_lock [ true ↦ m.unlock_error | false ↦ none ]
