-- ===== src/Cli/Agent/Readiness.antt =====
-- app.go: what is done before the scheduler of the agent is made, and the whole run of the agent.
use telephonist_agent.Base.{
  ◌≡◌, ◌≢◌, refl, [], ◌⊎◌, inl, inr, Bytes, true, Option, none, some, done, must, >>=-eq-done,
  Option-cases, arith, Bool-cases,
}
use telephonist_agent.Errors.{Error}
use telephonist_agent.Rest.{Client}
use telephonist_agent.App.Lifecycle.{Agent, start, stop_agent}
use telephonist_agent.Cli.Startup.{AppConfig, prepare_config, create_telephonist_client}
use telephonist_agent.Cli.Agent.{
  App, Machine, lock_file, fatal_on_err, create_scheduler, serve, run_started, run_scheduler,
  with_client, prepared, configured, action,
}

prepare_config-key :
    (missing : Error) (config config' : AppConfig)
    → prepare_config missing config ≡ (config', none)
    → config'.application_key ≢ []
unfolding prepare_config
prepare_config-key missing config config' h = λ e. ground arith

module _ {G J W H : Type 0} (m : Machine G J W H) where
  -- The configuration and the client are not changed any more.
  abbrev SameSettings : App G J W → App G J W → Type 0
  SameSettings a a' =
      (a'.app_config ≡ a.app_config) × (a'.telephonist_client ≡ a.telephonist_client)

  serve-SameSettings :
      (a a' : App G J W) (h h' : H) (e : Agent G J W) (err : Option Error)
      → serve m a h e ≡ done (a', h', err)
      → SameSettings a a'
  unfolding serve
  serve-SameSettings a a' h h' e err k =
      let (e', lived, more) = >>=-eq-done (m.lived e) _ k in
      let (e'', stopped, last) = >>=-eq-done (stop_agent m.env e') _ more in ground arith

  run_started-SameSettings :
      (a a' : App G J W) (h h' : H) (r : Agent G J W × Option Error) (err : Option Error)
      → run_started m a h r ≡ done (a', h', err)
      → SameSettings a a'
  unfolding run_started
  run_started-SameSettings a a' h h' (e, none) err k = serve-SameSettings a a' h h' e err k
  run_started-SameSettings a a' h h' (e, some x) err k = ground arith

  create_scheduler-SameSettings :
      (a a' : App G J W)
      → create_scheduler m a ≡ done a'
      → SameSettings a a' × (client : Client) × (a.telephonist_client ≡ some client)
  unfolding create_scheduler
  create_scheduler-SameSettings a a' k = elim (Option-cases a.telephonist_client) [
    | inl unset ↦ absurd (ground arith)
    | inr (client, set) ↦ (ground arith, client, set)
  ]

  run_scheduler-SameSettings :
      (a a' : App G J W) (h h' : H) (err : Option Error)
      → run_scheduler m a h ≡ done (a', h', err)
      → SameSettings a a' × (client : Client) × (a.telephonist_client ≡ some client)
  unfolding run_scheduler
  run_scheduler-SameSettings a a' h h' err k =
      let (a1, made, more) = >>=-eq-done (create_scheduler m a) _ k in
      let (e, there, more') = >>=-eq-done (must a1.scheduler) _ more in
      let (r, started, last) = >>=-eq-done (start m.env e) _ more' in
      let (same, client, set) = create_scheduler-SameSettings a a1 made in
      let same' = run_started-SameSettings a1 a' h h' r err last in (ground arith, client, set)

  with_client-ready :
      (a a' : App G J W) (h h' : H) (client : Option Client) (x err : Option Error)
      (e : Agent G J W)
      → a.scheduler ≡ none
      → with_client m a (h, client, x) ≡ done (a', h', err)
      → a'.scheduler ≡ some e
      → (x ≡ none)
        × (a'.app_config ≡ a.app_config)
        × (a'.telephonist_client ≡ client)
        × (cl : Client) × (client ≡ some cl)
  unfolding with_client
  with_client-ready a a' h h' client (some x) err e empty k there = absurd (ground arith)
  with_client-ready a a' h h' client none err e empty k there =
      let (same, cl, set) =
        run_scheduler-SameSettings (record a { telephonist_client = client }) a' h h' err k in
      (refl, same.0, same.1, cl, set)

  -- The key is not empty, and the client is the one that is made with the configuration, without an
  -- error.
  abbrev pub Ready : App G J W → H → Type 0
  Ready a h =
      (a.app_config.application_key ≢ [])
      × (client : Client) × (w : H) × (a.telephonist_client ≡ some client)
      × (create_telephonist_client m.http m.strerror m.parse_url a.app_config h
          ≡ done (w, some client, none))

  prepared-Ready :
      (a a' : App G J W) (h h' : H) (config : AppConfig) (x err : Option Error) (e : Agent G J W)
      → a.scheduler ≡ none
      → (x ≡ none → config.application_key ≢ [])
      → prepared m a h (config, x) ≡ done (a', h', err)
      → a'.scheduler ≡ some e
      → Ready a' h
  unfolding prepared
  prepared-Ready a a' h h' config (some x) err e empty key k there = absurd (ground arith)
  prepared-Ready a a' h h' config none err e empty key k there =
      let (r, made, last) =
        >>=-eq-done (create_telephonist_client m.http m.strerror m.parse_url config h) _ k in
      let (no_error, same, client, cl, set) =
        with_client-ready (record a { app_config = config }) a' r.0 h' r.1 r.2 err e empty last
          there in
      (rw same (key refl), cl, r.0, ground arith, ground arith)

  lock_file-taken :
      (path : Bytes) (a a' : App G J W)
      → fatal_on_err m (lock_file m path a) ≡ done a'
      → ((a.has_lock ≡ true) ⊎ (m.lock_error ≡ none)) × (a'.scheduler ≡ a.scheduler)
  unfolding lock_file
  lock_file-taken path a a' k = elim (Bool-cases a.has_lock) [
    | inl had ↦ (inl had, ground arith)
    | inr new ↦ elim (Option-cases m.lock_error) [
      | inl free ↦ (inr free, ground arith)
      | inr (x, taken) ↦ absurd (ground arith)
    ]
  ]

  configured-scheduler : (a a' : App G J W) → configured m a ≡ done a' → a'.scheduler ≡ a.scheduler
  unfolding configured
  configured-scheduler a a' k = ground arith

  -- When `action` returns and leaves a scheduler where there was none, the lock was taken, the key that
  -- the client was made with is not empty, and the client was made without an error.
  pub action-Ready :
      (path : Bytes) (a a' : App G J W) (h h' : H) (err : Option Error) (e : Agent G J W)
      → a.scheduler ≡ none
      → action m path a h ≡ done (a', h', err)
      → a'.scheduler ≡ some e
      → ((a.has_lock ≡ true) ⊎ (m.lock_error ≡ none)) × Ready a' h
  unfolding action
  action-Ready path a a' h h' err e empty k there =
      let (a1, locked, more) = >>=-eq-done (fatal_on_err m (lock_file m path a)) _ k in
      let (a2, read, last) = >>=-eq-done (configured m a1) _ more in
      let (free, empty') = lock_file-taken path a a1 locked in
      let empty'' = configured-scheduler a1 a2 read in
      let config = prepare_config m.key_missing a2.app_config in
      (
        free,
        prepared-Ready a2 a' h h' config.0 config.1 err e (ground arith)
            (λ none_there. prepare_config-key m.key_missing a2.app_config config.0 (ground arith))
            last there,
      )
