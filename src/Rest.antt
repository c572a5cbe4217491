-- ===== src/Rest.antt =====
-- telephonist/client.go: the client of the server's REST interface, over the HTTP requests of
-- github.com/parnurzeal/gorequest and the validator of github.com/go-playground/validator.
pub mod Address
pub mod Payloads
pub mod Endpoints
pub mod Outcomes
use telephonist_agent.Base.{
  ℕ, Bytes, codes, [], ◌++◌, Bool, true, false, Option, none, some, Bytes-discrete, ite, dec_lt, Go,
  done, ◌>>=◌, must, ◌⊎◌, inl, inr,
}
use telephonist_agent.Errors.{Error, Errors, message, combined, unexpected_status_code, nil, cons}
use Address.{Url, under}
use Payloads.{Payload, sequence_meta, task_names}

pub data Verb : Type 0 where
  get_verb post_verb delete_verb : Verb

pub record Request : Type 0 where
  pub verb : Verb
  pub url : Url
  pub authorization : Option Bytes
  pub payload : Option Payload

-- `body` is what `ioutil.ReadAll` gives; `none` is an error.
pub record Response : Type 0 where
  pub status_code : ℕ
  pub status : Bytes
  pub body : Option Bytes

-- What a call of `End` or `EndStruct` returns: the errors, none of them for a nil slice, and the
-- response, which may be nil. `EndStruct` reports a body that it cannot decode among the errors.
pub record Answer : Type 0 where
  pub errors : Errors
  pub response : Option Response

-- `W` is the state of all that stands outside of the process.
pub record Gorequest (W : Type 0) : Type 0 where
  pub end : Request → W → W × Answer
  pub end_struct : Request → W → W × Answer

-- `Client`; `api_key` and `url` are its options.
pub record Client : Type 0 where
  pub api_key : Bytes
  pub url : Url

-- `NewClient`
unfoldable pub new_client : Bytes → Option Url → Client ⊎ Error
new_client api_key none = inr (message (codes "URL is required"))
new_client api_key (some url) =
    let client : Client ⊎ Error = inl (record { api_key = api_key; url = url }) in
    ite (Bytes-discrete url.scheme (codes "http")) client (
      ite (Bytes-discrete url.scheme (codes "https")) client
        (inr (message (codes "schema must be http or https"))))

-- `getUrl`
unfoldable pub get_url : Bytes → Client → Url
get_url s_url c = under (codes "api/application-v1") s_url c.url

bearer : Client → Option Bytes
bearer c = some (codes "Bearer " ++ c.api_key)

one_error : Error → Error
one_error err = combined (cons err nil)

unexpected : Response → Bytes → Error
unfolding one_error
unexpected resp text = one_error (unexpected_status_code resp.status_code resp.status text)

-- The end of `get` and of `delete`, which read the response when there is no error.
pub finish : Answer → Go (Option Error)
unfolding unexpected
finish answer = elim answer.errors [
  | cons e es ↦ done (some (combined (cons e es)))
  | nil ↦ do
    resp ← must answer.response
    ite (dec_lt resp.status_code 300) (done none) (done (some (unexpected resp [])))
]

-- `reflect`'s test for a struct or a pointer to one.
unfoldable pub is_struct : Payload → Bool
is_struct (sequence_meta m) = false
is_struct (task_names names) = false
is_struct _ = true

-- What `ioutil.ReadAll` leaves in `text`.
text_of : Option Bytes → Bytes
text_of none = []
text_of (some text) = text

-- The end of `httpPost`.
unfoldable pub posted : Answer → Option Response × Option Error
unfolding unexpected text_of
posted answer = elim answer.errors [
  | cons e es ↦ (answer.response, some (combined (cons e es)))
  | nil ↦ elim answer.response [
    | none ↦ (none, none)
    | some resp ↦
        ite (dec_lt resp.status_code 300) (some resp, none)
          (some resp, some (unexpected resp (text_of resp.body)))
  ]
]

-- `EndStruct` where there is a target for the response, and `End` where there is none.
unfoldable pub call : {W : Type 0} → Gorequest W → Bool → Request → W → W × Answer
call http true request w = http.end_struct request w
call http false request w = http.end request w

module _ {W : Type 0} (http : Gorequest W) where
  -- `delete`
  unfoldable pub delete_path : Bytes → Client → W → Go (W × Option Error)
  unfolding bearer finish get_url
  delete_path path c w = do
    let (w', answer) =
        http.end
          (record {
            verb = delete_verb;
            url = get_url path c;
            authorization = bearer c;
            payload = none;
          })
          w
    err ← finish answer
    done (w', err)

  pub get_request : Bytes → Client → Request
  unfolding bearer get_url
  get_request path c = record {
    verb = get_verb;
    url = get_url path c;
    authorization = bearer c;
    payload = none;
  }

  -- `get`; the flag is whether there is a target for the response.
  unfoldable pub get : Bytes → Bool → Client → W → Go (W × Option Error)
  unfolding get_request finish call
  get path wanted c w = do
    let (w', answer) = call http wanted (get_request path c) w
    err ← finish answer
    done (w', err)

  -- `Probe`
  unfoldable pub probe : Client → W → Go (W × Option Error)
  probe c w = get (codes "probe") false c w

  -- `DropTask`, with the text of a UUID.
  unfoldable pub drop_task : (ℕ → Bytes) → ℕ → Client → W → Go (W × Option Error)
  drop_task uuid_text task_id c w = delete_path (codes "defined-tasks/" ++ uuid_text task_id) c w

  -- `GetTasks`, whose target for the response is no pointer.
  unfoldable pub get_tasks : Client → W → Go (W × Option Error)
  get_tasks c w = get (codes "defined-tasks") true c w

module _ {W : Type 0} (http : Gorequest W) (validate : Payload → Option Error) where
  unfoldable pub post_request : Bytes → Payload → Client → Request
  unfolding bearer get_url
  post_request path payload c = record {
    verb = post_verb;
    url = get_url path c;
    authorization = bearer c;
    payload = some payload;
  }

  unfoldable pub sent : Bytes → Payload → Bool → Client → W → W × Option Response × Option Error
  unfolding post_request posted call
  sent path payload wanted c w =
      let (w', answer) = call http wanted (post_request path payload c) w in
      (w', (posted answer).0, (posted answer).1)

  -- The validator's answer for a struct.
  unfoldable pub invalid : Payload → Option Error
  unfolding is_struct
  invalid payload = elim (is_struct payload) [ true ↦ validate payload | false ↦ none ]

  -- `httpPost` of data that is not nil; the flag is whether there is a target for the response.
  unfoldable pub http_post :
      Bytes → Payload → Bool → Client → W → W × Option Response × Option Error
  unfolding invalid sent one_error
  http_post path payload wanted c w = elim (invalid payload) [
    | some err ↦ (w, none, some (one_error err))
    | none ↦ sent path payload wanted c w
  ]
