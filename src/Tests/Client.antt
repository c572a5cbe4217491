-- ===== src/Tests/Client.antt =====
-- telephonist/client.go and app.go against a server that gives one answer to every request.
use telephonist_agent.Base.{
  ℕ, ◌+◌, ◌≡◌, ◌≢◌, ◌↔◌, refl, Bytes, codes, [], false, Option, none, some, done, ◌⊎◌, inl,
}
use telephonist_agent.Errors.{Error, nil}
use telephonist_agent.Rest.{Answer, Gorequest, Response, Client, call, http_post, invalid}
use telephonist_agent.Rest.Payloads.{Payload, log_entry}
use telephonist_agent.Rest.Address.{Url}
use telephonist_agent.Rest.Outcomes.{IsCombined, IsGood, http_post_outcome}
use telephonist_agent.Cli.Startup.{AppConfig, ParseUrl, create_telephonist_client}
use telephonist_agent.Cli.Startup.Outcomes.{create_client_outcome}

abbrev reply : ℕ → Answer
reply status = record {
  errors = nil;
  response = some (record { status_code = status; status = []; body = some [] });
}

-- The state counts the requests.
abbrev answering : ℕ → Gorequest ℕ
answering status = record {
  end = λ r w. (w + 1, reply status);
  end_struct = λ r w. (w + 1, reply status);
}

abbrev server : Url
server = record { scheme = codes "http"; host = codes "h"; path = []; raw_query = [] }

abbrev agent : Client
agent = record { api_key = codes "k"; url = server }

abbrev accept : Payload → Option Error
accept payload = none

abbrev entry : Payload
entry = log_entry (record { body = codes "b"; sequence_id = none; severity = 1 })

abbrev no_text : ℕ → Bytes
no_text n = []

abbrev ticket : Response → Bytes ⊎ Error
ticket r = inl (codes "t")

abbrev config : AppConfig
config = record { application_key = codes "k"; telephonist_address = codes "http://h" }

abbrev to_server : ParseUrl
to_server text = inl server

http_post_outcome_example :
    let r = http_post (answering 500) accept (codes "logs/add") entry false agent 0 in
    IsCombined r.2
    × (invalid (answering 500) accept entry ≢ none → r.0 ≡ 0)
    × ((r.2 ≡ none) ↔ ((invalid (answering 500) accept entry ≡ none) × IsGood (reply 500)))
unfolding call
http_post_outcome_example =
    http_post_outcome (answering 500) accept (codes "logs/add") entry false agent 0 (λ q e. cc)

-- The key is refused.
create_client_outcome_example :
    (err : Option Error) × (create_telephonist_client (answering 401) no_text to_server config 0
      ≡ done (1, some agent, err))
    × IsCombined err
    × ((err ≡ none) ↔ IsGood (reply 401))
unfolding call
create_client_outcome_example =
    create_client_outcome (answering 401) no_text to_server config server 0 refl (inl refl)
      (λ q e. cc)
