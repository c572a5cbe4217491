-- ===== src/Cli/Service.antt =====
-- linuxService.go and app.go: `service install`, which copies the program and makes it a service.
use telephonist_agent.Base.{
  ◌≡◌, ◌≢◌, refl, Bytes, codes, List, [], ◌∷◌, ◌++◌, Bool, true, false, Option, none, some,
  Bytes-discrete, ite, arith, Sum-cases, ◌⊎◌, inl, inr,
}
use telephonist_agent.Errors.{Error, message, chain_error}
use telephonist_agent.Cli.Dialogue.{trim}

-- The operating system, over a state `W`: files, the path of the running program, and a run of
-- `systemctl` with its arguments.
pub record System (W : Type 0) : Type 0 where
  pub executable : W → Bytes ⊎ Error
  pub read_file : Bytes → W → Bytes ⊎ Error
  pub write_file : Bytes → Bytes → W → W × Option Error
  pub systemctl : List Bytes → W → W × Option Error

abbrev pub installed_path : Bytes
installed_path = codes "/usr/local/bin/telephonist-agent"

abbrev pub service_file : Bytes
service_file = codes "/etc/systemd/system/telephonist-agent.service"

-- The lines of the service's file, each with a line break before it.
each_line : List Bytes → Bytes
each_line [] = 10 ∷ []
each_line (line ∷ lines) = 10 ∷ line ++ each_line lines

unfoldable pub service_file_content : Bytes
unfolding each_line
service_file_content = each_line (
    codes "[Unit]"
    ∷ codes "Description=Telephonist agent"
    ∷ codes "After=network-online.target"
    ∷ codes "After=syslog.target"
    ∷ []
    ∷ codes "[Service]"
    ∷ codes "ExecStart=/usr/local/bin/telephonist-agent"
    ∷ codes "RestartSec=20"
    ∷ codes "Restart=always"
    ∷ []
    ∷ codes "[Install]"
    ∷ codes "WantedBy=multi-user.target"
    ∷ [])

-- The texts of the language for the two errors of `moveExecutable`.
pub record ServiceTexts : Type 0 where
  pub file_is_already_in_place : Bytes
  pub failed_to_copy_executable : Bytes

unfoldable pub chained_to : {W : Type 0} → Bytes → W × Option Error → W × Option Error
chained_to text (w, none) = (w, none)
chained_to text (w, some err) = (w, some (chain_error text err))

-- A step and, if it has no error, the rest.
abbrev pub then : {W : Type 0} → W × Option Error → (W → W × Option Error) → W × Option Error
then (w, some err) rest = (w, some err)
then (w, none) rest = rest w

then-none :
    {W : Type 0} (m : W × Option Error) (rest : W → W × Option Error) (w' : W)
    → then m rest ≡ (w', none)
    → (w : W) × (m ≡ (w, none)) × (rest w ≡ (w', none))
then-none (w, none) rest w' h = (w, refl, h)
then-none (w, some err) rest w' h = absurd (ground arith)

chained_to-none :
    {W : Type 0} (text : Bytes) (m : W × Option Error) (w : W)
    → chained_to text m ≡ (w, none)
    → m ≡ (w, none)
unfolding chained_to
chained_to-none text (w1, none) w h = h
chained_to-none text (w1, some err) w h = absurd (ground arith)

module _ {W : Type 0} (system : System W) (texts : ServiceTexts) where
  unfoldable pub copied : W × Option Error → W × Option Error
  copied (w, none) = (w, none)
  copied (w, some err) = (w, some (message texts.failed_to_copy_executable))

  unfoldable pub copy_from : Bytes → W → W × Option Error
  unfolding copied
  copy_from path w = elim (system.read_file path w) [
    | inr err ↦ (w, some (message texts.failed_to_copy_executable))
    | inl input ↦ copied (system.write_file installed_path input w)
  ]

  unfoldable pub move_executable : W → W × Option Error
  unfolding copy_from
  move_executable w = elim (system.executable w) [
    | inr err ↦ (w, some (chain_error (codes "Failed to get current executable path") err))
    | inl path ↦
        ite (Bytes-discrete path installed_path) (w, some (message texts.file_is_already_in_place))
          (copy_from path w)
  ]

  unfoldable pub create_service_file : W → W × Option Error
  unfolding chained_to
  create_service_file w =
      chained_to (codes "failed to write to " ++ service_file)
        (system.write_file service_file (trim (32 ∷ 10 ∷ 9 ∷ []) service_file_content) w)

  unfoldable pub reload_daemon : W → W × Option Error
  unfolding chained_to
  reload_daemon w =
      then
        (chained_to (codes "Failed to reload systemd")
          (system.systemctl (codes "daemon-reload" ∷ []) w))
        (λ w'.
          chained_to (codes "Failed to start telephonist service through systemd")
            (system.systemctl (codes "start" ∷ codes "telephonist-agent.service" ∷ []) w'))

  unfoldable pub stop_service : W → W × Option Error
  unfolding chained_to
  stop_service w =
      chained_to (codes "Failed to stop service")
        (system.systemctl (codes "stop" ∷ codes "telephonist-agent.service" ∷ []) w)

  -- A step that the flag asks for.
  abbrev pub if_asked : Bool → (W → W × Option Error) → W → W × Option Error
  if_asked true step w = step w
  if_asked false step w = (w, none)

  -- `installServiceAction`
  unfoldable pub install_service : Bool → W → W × Option Error
  install_service restart w = then (if_asked restart stop_service w) (λ w1.
      then (move_executable w1)
        (λ w2. then (create_service_file w2) (λ w3. if_asked restart reload_daemon w3)))

  -- When the running program is the installed one, `service install` with the flag for a restart stops
  -- the service and fails: it ends in the state that the stop has left, so that the service is not
  -- started again.
  pub install_service_stops :
      (w w' : W)
      → system.systemctl (codes "stop" ∷ codes "telephonist-agent.service" ∷ []) w ≡ (w', none)
      → system.executable w' ≡ inl installed_path
      → install_service true w ≡ (w', some (message texts.file_is_already_in_place))
  unfolding install_service stop_service move_executable chained_to
  install_service_stops w w' stops running = ground arith

  copied-none : (m : W × Option Error) (w : W) → copied m ≡ (w, none) → m ≡ (w, none)
  unfolding copied
  copied-none (w1, none) w h = h
  copied-none (w1, some err) w h = absurd (ground arith)

  move_executable-none :
      (w w' : W)
      → move_executable w ≡ (w', none)
      → (path : Bytes) × (input : Bytes) × (system.executable w ≡ inl path)
        × (path ≢ installed_path)
        × (system.read_file path w ≡ inl input)
        × (system.write_file installed_path input w ≡ (w', none))
  unfolding move_executable copy_from
  move_executable-none w w' h = elim (Sum-cases (system.executable w)) [
    | inr (err, e) ↦ absurd (ground arith)
    | inl (path, e) ↦ elim (Bytes-discrete path installed_path) [
      | yes p ↦ absurd (ground arith)
      | no p ↦ elim (Sum-cases (system.read_file path w)) [
        | inr (err, r) ↦ absurd (ground arith)
        | inl (input, r) ↦ (
          path,
          input,
          e,
          p,
          r,
          copied-none (system.write_file installed_path input w) w' (ground arith),
        )
      ]
    ]
  ]

  -- When `service install` reports no error, the program was not the installed one, and its content and
  -- the service's file were written without an error, one after the other.
  pub install_service_writes :
      (restart : Bool) (w w' : W)
      → install_service restart w ≡ (w', none)
      → (w1 : W) × (path : Bytes) × (input : Bytes) × (w2 : W) × (w3 : W) × (if_asked restart
            stop_service w
          ≡ (w1, none))
        × (system.executable w1 ≡ inl path)
        × (path ≢ installed_path)
        × (system.read_file path w1 ≡ inl input)
        × (system.write_file installed_path input w1 ≡ (w2, none))
        × (system.write_file service_file (trim (32 ∷ 10 ∷ 9 ∷ []) service_file_content) w2
            ≡ (w3, none))
        × (if_asked restart reload_daemon w3 ≡ (w', none))
  unfolding install_service create_service_file
  install_service_writes restart w w' h =
      let (w1, stopped, h1) =
        then-none (if_asked restart stop_service w)
          (λ w1.
            then (move_executable w1)
              (λ w2. then (create_service_file w2) (λ w3. if_asked restart reload_daemon w3)))
          w' h in
      let (w2, moved, h2) =
        then-none (move_executable w1)
          (λ w2. then (create_service_file w2) (λ w3. if_asked restart reload_daemon w3)) w' h1 in
      let (w3, made, started) =
        then-none (create_service_file w2) (λ w3. if_asked restart reload_daemon w3) w' h2 in
      let (path, input, e, other, r, put) = move_executable-none w1 w2 moved in
      (
        w1,
        path,
        input,
        w2,
        w3,
        stopped,
        e,
        other,
        r,
        put,
        chained_to-none (codes "failed to write to " ++ service_file) _ w3 made,
        started,
      )
