-- ===== src/Tests/Dialogue.antt =====
-- utils.go and app.go at a few typed lines.
use telephonist_agent.Base.{
  ℕ, ◌+◌, ◌≡◌, ◌≢◌, ◌↔◌, ◌⊎◌, inl, refl, Bytes, codes, List, [], ◌∷◌, map, true, none, some,
  Bytes-discrete, ℕ_discrete, done,
}
use telephonist_agent.Errors.{message, nil}
use telephonist_agent.Rest.{Gorequest}
use telephonist_agent.Config.{Json, load_or_create, load, read_into}
use telephonist_agent.Base.Sets.{contains, IsSetLike}
use telephonist_agent.Cli.Dialogue.{
  trim, trim_left, before_trimmed, trim_right, space, split_commas, read_tags, read_yn,
}
use telephonist_agent.Cli.Dialogue.Tags.{read_tags-set}
use telephonist_agent.Cli.Startup.{AppConfig, prepare_config}
use telephonist_agent.Cli.Init.{
  Session, Surroundings, init_action, address_dialogue, change_url, changed, set_address,
  key_dialogue, change_key, set_key, save, asked, saved,
}
use telephonist_agent.Cli.Init.Keys.{IsIssued, init_action-prepared}

read_tags-set_example :
    (tags : List Bytes) × (read_tags (codes " b, a,,b " ∷ []) ≡ done ([], tags))
    × IsSetLike Bytes-discrete tags
    × ((tag : Bytes)
        → (contains Bytes-discrete tags tag ≡ true) ↔ (
            (tag ≢ [])
            × (contains Bytes-discrete
                  (map (trim (32 ∷ 9 ∷ [])) (split_commas (trim space (codes " b, a,,b "))))
                  tag
                ≡ true)))
read_tags-set_example = read_tags-set (codes " b, a,,b ") []

abbrev offline : Gorequest ℕ
offline = record {
  end = λ r w. (w + 1, record { errors = nil; response = none });
  end_struct = λ r w. (w + 1, record { errors = nil; response = none });
}

-- The text of a configuration says nothing.
abbrev silent : Json AppConfig
silent = record { encode = λ c. inl []; decode = λ text old. inl old }

abbrev around : Surroundings
around = record {
  no_words = codes "n" ∷ [];
  yes_words = codes "y" ∷ [];
  parse = λ text. inl (record { scheme = codes "http"; host = text; path = []; raw_query = [] });
  encode = λ u code. code;
  key_of = λ r. codes "issued";
}

abbrev session : Bytes → List Bytes → Session ℕ
session address console = record {
  config = record { application_key = codes "k"; telephonist_address = address };
  file = record { open_error = none; write_error = none; seek_error = none; content = some [] };
  console = console;
  world = 0;
}

-- The address stays, another key is typed, and nothing is written.
abbrev left : Session ℕ
left = record (session (codes "h") []) {
  config = record { application_key = codes "q"; telephonist_address = codes "h" };
}

initialised :
    init_action offline silent around (session (codes "h") ([] ∷ codes "q " ∷ codes "n" ∷ []))
    ≡ done left
unfolding init_action load_or_create load read_into address_dialogue change_url changed set_address
    key_dialogue change_key set_key save asked saved read_yn contains trim trim_left before_trimmed
    trim_right Bytes-discrete ℕ_discrete
initialised = refl

init_action-prepared_example :
    ((prepare_config (message []) left.config).1 ≡ none)
    ⊎ IsIssued offline silent around (codes "q")
init_action-prepared_example =
    init_action-prepared offline silent around (message [])
      (session (codes "h") ([] ∷ codes "q " ∷ codes "n" ∷ [])) left
      (tt, (((λ e. cc), ((λ e. cc), tt)), (((λ e. cc), tt), tt))) initialised
