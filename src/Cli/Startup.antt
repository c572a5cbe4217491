-- ===== src/Cli/Startup.antt =====
-- app.go: what is made ready before the agent runs.
pub mod Outcomes
use telephonist_agent.Base.{
  ℕ, Bytes, codes, [], ◌∷◌, ◌++◌, Bool, true, false, Option, none, some, Bytes-discrete, ℕ_discrete,
  ite, Go, done, ◌>>=◌, ◌⊎◌, inl, inr,
}
use telephonist_agent.Errors.{Error, message, unexpected_status_code, error_text}
use telephonist_agent.Rest.{Gorequest, Client, new_client, probe}
use telephonist_agent.Rest.Address.{Url, join}
use telephonist_agent.Config.{File, Json, load, loaded, not_exist, failed}
use telephonist_agent.Cli.Dialogue.{trim}

pub record AppConfig : Type 0 where
  pub application_key : Bytes
  pub telephonist_address : Bytes

-- The configuration that `CreateNewApp` makes.
abbrev pub default_config : AppConfig
default_config = record {
  application_key = [];
  telephonist_address = codes "https://localhost:5789";
}

-- `filenameHelper`
unfoldable pub filename_helper : Bytes → Bytes → Bytes
filename_helper config_folder_path filename = join (config_folder_path ∷ filename ∷ [])

-- The path of the configuration file that `before` chooses, by the two flags.
unfoldable pub config_path : Bytes → Bytes → Bytes
unfolding filename_helper
config_path root_path [] = filename_helper root_path (codes "client-config.json")
config_path root_path (c ∷ path) = c ∷ path

-- `prepareConfig`; `key_missing` is `ErrApplicationKeyIsMissing`.
unfoldable pub prepare_config : Error → AppConfig → AppConfig × Option Error
prepare_config key_missing config =
    let key = trim (32 ∷ 9 ∷ 10 ∷ []) config.application_key in
    (record config { application_key = key }, ite (Bytes-discrete key []) (some key_missing) none)

-- What becomes of the error of `Probe`, whose dynamic type is compared with one of the client's.
probed : Option Error → Option Error
probed none = none
probed (some (unexpected_status_code status text body)) =
    ite (ℕ_discrete status 401)
      (some (message (codes "authentication failed, make sure that API key is correct")))
      (some (unexpected_status_code status text body))
probed (some err) = some err

-- The schemes that the application lets through.
is_accepted : Bytes → Bool
is_accepted scheme = ite (Bytes-discrete scheme []) true (
    ite (Bytes-discrete scheme (codes "https")) true
      (ite (Bytes-discrete scheme (codes "http")) true false))

-- `url.Parse`
abbrev pub ParseUrl : Type 0
ParseUrl = Bytes → Url ⊎ Error

module _ {W : Type 0} (http : Gorequest W) (strerror : ℕ → Bytes) (parse : ParseUrl) where
  connected : AppConfig → Url → W → Go (W × Option Client × Option Error)
  unfolding probed is_accepted
  connected config u w = elim (is_accepted u.scheme) [
    | false ↦ done (
      w,
      none,
      some (
          message
            (codes "invalid URL schema, schema must be either http or https or empty (\"\")")),
    )
    | true ↦ elim (new_client config.application_key (some u)) [
      | inr err ↦
          done (
            w,
            none,
            some (message (codes "failed to create a client: " ++ error_text strerror err)),
          )
      | inl client ↦ do (w', err) ← probe http client w; done (w', some client, probed err)
    ]
  ]

  -- `createTelephonistClient`: the client that it sets, and the error.
  unfoldable pub create_telephonist_client : AppConfig → W → Go (W × Option Client × Option Error)
  unfolding connected
  create_telephonist_client config w = elim (parse config.telephonist_address) [
    | inr err ↦
        done (w, none, some (message (codes "invalid URL format: " ++ error_text strerror err)))
    | inl u ↦ connected config u w
  ]

-- `testAction`; `not_found` is the error of a file that is not there.
unfoldable pub test_action : Error → Json AppConfig → File → Option Error
unfolding load
test_action not_found json f =
    elim (load json (record { application_key = []; telephonist_address = [] }) f) [
      | loaded _ ↦ none
      | not_exist ↦ some not_found
      | failed err ↦ some err
    ]
