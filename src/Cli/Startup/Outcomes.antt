-- ===== src/Cli/Startup/Outcomes.antt =====
-- app.go: how the client that the agent runs with is made.
use telephonist_agent.Base.{
  ℕ, ◌≡◌, ◌≢◌, ◌↔◌, ◌⊎◌, inl, inr, refl, Bytes, codes, ◌++◌, true, false, Option, none, some, done,
  arith, Bool-cases,
}
use telephonist_agent.Errors.{
  Error, combined, message, errno, chained, unexpected_status_code, error_text,
}
use telephonist_agent.Rest.{Gorequest, Client, new_client, probe, get_request, call}
use telephonist_agent.Rest.Address.{Url}
use telephonist_agent.Rest.Outcomes.{IsAnswer, IsCombined, IsGood, get_outcome}
use telephonist_agent.Cli.Startup.{
  AppConfig, ParseUrl, create_telephonist_client, connected, probed, is_accepted,
}

probed-combined : (err : Option Error) → IsCombined err → probed err ≡ err
unfolding probed
probed-combined none k = refl
probed-combined (some (combined es)) k = refl
probed-combined (some (message m)) k = absurd k
probed-combined (some (errno n)) k = absurd k
probed-combined (some (chained m e n)) k = absurd k
probed-combined (some (unexpected_status_code n t b)) k = absurd k

accepted-http :
    (scheme : Bytes)
    → (scheme ≡ codes "http") ⊎ (scheme ≡ codes "https")
    → is_accepted scheme ≡ true
unfolding is_accepted
accepted-http scheme h = ground arith

new_client-http :
    (key : Bytes) (u : Url)
    → (u.scheme ≡ codes "http") ⊎ (u.scheme ≡ codes "https")
    → new_client key (some u) ≡ inl (record { api_key = key; url = u })
unfolding new_client
new_client-http key u h = ground arith

new_client-refused :
    (key : Bytes) (u : Url)
    → u.scheme ≢ codes "http"
    → u.scheme ≢ codes "https"
    → (err : Error) × (new_client key (some u) ≡ inr err)
unfolding new_client
new_client-refused key u h h' = (message (codes "schema must be http or https"), ground arith)

module _ {W : Type 0} (http : Gorequest W) (strerror : ℕ → Bytes) (parse : ParseUrl) where
  -- For an address with scheme http or https, when an answer without errors to the probe has a
  -- response, `createTelephonistClient` returns and sets the client. There is no error just when
  -- the answer has none and its status is below 300; every other error is a `CombinedError`, status 401
  -- included.
  pub create_client_outcome :
      (config : AppConfig) (u : Url) (w : W)
      → parse config.telephonist_address ≡ inl u
      → (u.scheme ≡ codes "http") ⊎ (u.scheme ≡ codes "https")
      → let client : Client = record { api_key = config.application_key; url = u } in
        let r = call http false (get_request http (codes "probe") client) w in
        IsAnswer r.1
        → (err : Option Error) × (create_telephonist_client http strerror parse config w
            ≡ done (r.0, some client, err))
          × IsCombined err
          × ((err ≡ none) ↔ IsGood r.1)
  unfolding create_telephonist_client connected probe
  create_client_outcome config u w parsed scheme answer =
      let client : Client = record { api_key = config.application_key; url = u } in
      let (err, e, k, i) = get_outcome http (codes "probe") false client w answer in
      let accepted = accepted-http u.scheme scheme in
      let made = new_client-http config.application_key u scheme in
      (err, ground (arith, probed-combined err k), k, i)

  -- For an address with another scheme, or with none, `createTelephonistClient` returns an error, sets no
  -- client and sends nothing.
  pub create_client_refused :
      (config : AppConfig) (u : Url) (w : W)
      → parse config.telephonist_address ≡ inl u
      → (u.scheme ≢ codes "http") × (u.scheme ≢ codes "https")
      → (err : Error) × (create_telephonist_client http strerror parse config w
          ≡ done (w, none, some err))
  unfolding create_telephonist_client connected
  create_client_refused config u w parsed (not_http, not_https) =
      elim (Bool-cases (is_accepted u.scheme)) [
        | inl accepted ↦
            let (err, refused) = new_client-refused config.application_key u not_http not_https in
            (message (codes "failed to create a client: " ++ error_text strerror err), ground arith)
        | inr other ↦ (
          message (codes "invalid URL schema, schema must be either http or https or empty (\"\")"),
          ground arith,
        )
      ]
