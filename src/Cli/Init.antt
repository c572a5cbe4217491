-- ===== src/Cli/Init.antt =====
-- app.go: the `init` command, which asks for the address of the server and for the key.
pub mod Keys
use telephonist_agent.Base.{
  Bytes, List, [], ◌∷◌, Bool, true, false, Option, none, some, Bytes-discrete, ite, Go, done, panic,
  exit, blocked, ◌>>=◌, inl, inr,
}
use telephonist_agent.Rest.{Gorequest, Response, Client, new_client, probe}
use telephonist_agent.Rest.Payloads.{CreateApplicationRequest}
use telephonist_agent.Rest.Endpoints.{submit_code_registration}
use telephonist_agent.Rest.Address.{Url}
use telephonist_agent.Config.{File, Json, load_or_create, write}
use telephonist_agent.Cli.Dialogue.{
  Console, trim, space, read_yn, read_string, read_string_with_condition, is_valid_application_name,
  read_tags,
}
use telephonist_agent.Cli.Startup.{AppConfig, ParseUrl}

-- The application while the command runs; `W` is the state of all that stands outside of the process
-- and its terminal.
pub record Session (W : Type 0) : Type 0 where
  pub config : AppConfig
  pub file : File
  pub console : Console
  pub world : W

-- The rest that the dialogue needs: the words of the language for no and yes, `url.Values.Encode` with
-- the code added to the query, and the `Key` of the decoded response.
pub record Surroundings : Type 0 where
  pub no_words : List Bytes
  pub yes_words : List Bytes
  pub parse : ParseUrl
  pub encode : Url → Bytes → Bytes
  pub key_of : Option Response → Bytes

module _ {W : Type 0} (http : Gorequest W) (json : Json AppConfig) (s : Surroundings) where
  unfoldable pub set_address : Bytes → Session W → Session W
  set_address text a = record a { config = record a.config { telephonist_address = text } }

  unfoldable pub set_key : Bytes → Session W → Session W
  set_key key a = record a { config = record a.config { application_key = key } }

  unfoldable pub asked : Session W → Go (Session W × Bool)
  asked a = do
    (console, agreed) ← read_yn s.no_words s.yes_words a.console
    done (record a { console = console }, agreed)

  -- The loop that asks for an address where there is none. Nothing sets `valid` in it, so it goes on
  -- until there is no line.
  unfoldable pub enter_url : Console → Go (Console × Option Url × Bytes)
  enter_url [] = panic
  enter_url (line ∷ rest) = enter_url rest

  -- What follows that loop. A client that could not be made is nil, and `Probe` reads its options.
  probe_entered : Option Url → Bytes → Session W → Go (Session W)
  unfolding set_address asked
  probe_entered u text a = elim (new_client [] u) [
    | inr err ↦ panic
    | inl client ↦ do
      (w', err) ← probe http client a.world
      let a' = record a { world = w' }
      elim err [
        | none ↦ done (set_address text a')
        | some _ ↦ do
          (a'', ignore) ← asked a'
          elim ignore [ true ↦ done (set_address text a'') | false ↦ exit ]
      ]
  ]

  -- The loop that asks for another address.
  unfoldable pub change_url : Console → Bytes → Go (Console × Bytes)
  change_url [] old = panic
  change_url (line ∷ rest) old =
      let again = change_url rest old in
      ite (Bytes-discrete (trim (32 ∷ 10 ∷ 9 ∷ []) line) []) (done (rest, old))
        (elim (s.parse line) [ inl u ↦ done (rest, line) | inr err ↦ again ])

  unfoldable pub changed : Session W → Console × Bytes → Go (Session W)
  unfolding set_address
  changed a (console, text) = done (set_address text (record a { console = console }))

  unfoldable pub address_dialogue : Session W → Go (Session W)
  unfolding enter_url probe_entered change_url changed
  address_dialogue a =
      ite (Bytes-discrete (trim (32 ∷ 9 ∷ 10 ∷ []) a.config.telephonist_address) [])
        (do
          (console, u, text) ← enter_url a.console
          probe_entered u text (record a { console = console }))
        (change_url a.console a.config.telephonist_address >>= changed a)

  -- The loop of `startCRProcedure` over the codes, to the first that the server accepts; the flag is
  -- whether the configuration could be written.
  unfoldable pub submit_codes :
      Client → CreateApplicationRequest → Console → Session W → Go (Session W × Bool)
  unfolding set_key
  submit_codes client request [] a = panic
  submit_codes client request (line ∷ rest) a =
      let (w', answer) =
        submit_code_registration http s.encode (trim space line) request client a.world in
      let a' = record a { console = rest; world = w' } in
      elim answer [
        | inr err ↦ submit_codes client request rest a'
        | inl response ↦
            let a'' = set_key (s.key_of response) a' in
            let (f, err) = write json a''.config a''.file in
            done (record a'' { file = f }, elim err [ none ↦ true | some _ ↦ false ])
      ]

  -- What `startCRProcedure` asks for first.
  described : Console → Go (Console × CreateApplicationRequest)
  described console = do
    (c1, name) ← read_string_with_condition is_valid_application_name console
    (c2, display_name) ← read_string c1
    (c3, description) ← read_string c2
    (c4, tags) ← read_tags c3
    done (
      c4,
      record { name = name; description = description; display_name = display_name; tags = tags },
    )

  ended : Session W × Bool → Go (Session W)
  ended (a, true) = done a
  ended (a, false) = panic

  register : Url → Session W → Console × CreateApplicationRequest → Go (Session W)
  unfolding submit_codes ended
  register u a (console, request) = elim (new_client [] (some u)) [
    | inr err ↦ panic
    | inl client ↦ submit_codes client request console a >>= ended
  ]

  -- `startCRProcedure`, whose errors all end `initAction` by a panic.
  unfoldable pub start_cr_procedure : Session W → Go (Session W)
  unfolding described register
  start_cr_procedure a = elim (s.parse a.config.telephonist_address) [
    | inr err ↦ panic
    | inl u ↦ described a.console >>= register u a
  ]

  -- The loop that asks for a key. At the end of the input it reads the empty text again and again.
  unfoldable pub input_key : Console → Go (Console × Bytes)
  input_key [] = blocked
  input_key (line ∷ rest) =
      let again = input_key rest in
      let key = trim (32 ∷ 10 ∷ 9 ∷ []) line in ite (Bytes-discrete key []) again (done (rest, key))

  -- Another key, if the line has one.
  unfoldable pub change_key : Session W → Console → Go (Session W)
  unfolding set_key
  change_key a [] = panic
  change_key a (line ∷ rest) =
      let text = trim (32 ∷ 9 ∷ []) line in
      let a' = record a { console = rest } in
      ite (Bytes-discrete text []) (done a') (done (set_key text a'))

  new_key : Session W → Console × Bytes → Go (Session W)
  unfolding set_key
  new_key a (console, key) = done (set_key key (record a { console = console }))

  -- A key where there is none.
  first_key : Session W × Bool → Go (Session W)
  unfolding start_cr_procedure input_key new_key
  first_key (a, true) = start_cr_procedure a
  first_key (a, false) = input_key a.console >>= new_key a

  unfoldable pub key_dialogue : Session W → Go (Session W)
  unfolding asked first_key change_key
  key_dialogue a =
      ite (Bytes-discrete (trim (32 ∷ 10 ∷ 9 ∷ []) a.config.application_key) [])
        (asked a >>= first_key) (change_key a a.console)

  unfoldable pub saved : Session W × Bool → Go (Session W)
  saved (a, true) = done (record a { file = (write json a.config a.file).0 })
  saved (a, false) = done a

  -- The end: the configuration is written if the answer is yes, and an error of that is reported only.
  unfoldable pub save : Session W → Go (Session W)
  unfolding asked saved
  save a = asked a >>= saved

  -- `initAction`
  unfoldable pub init_action : Session W → Go (Session W)
  unfolding address_dialogue key_dialogue save
  init_action a =
      let (value, f, err) = load_or_create json a.config a.file in
      elim err [
        | some _ ↦ exit
        | none ↦ address_dialogue (record a { config = value; file = f }) >>= key_dialogue >>= save
      ]
