-- ===== src/Rest/Endpoints.antt =====
-- telephonist/client.go and telephonist/sequence.go: the calls of the server's interface that send
-- data.
use telephonist_agent.Base.{
  ℕ, Bytes, codes, List, [], ◌++◌, true, false, Option, none, some, Map, ℕ_discrete, ite, Go, done,
  ◌>>=◌, must, ◌⊎◌, inl, inr,
}
use telephonist_agent.Errors.{
  Error, Errors, message, combined, unexpected_status_code, nil, cons, error_text,
}
use telephonist_agent.Rest.Address.{Url}
use telephonist_agent.Rest.Payloads.{
  EventData, CreateSequenceRequest, FinishSequenceRequest, DefineTaskRequest, LogEntry,
  CreateApplicationRequest, Payload, event, sequence_meta, create_sequence_request,
  finish_sequence_request, define_task_request, task_names, log_entry, application,
}
use telephonist_agent.Rest.{
  post_verb, Request, Response, Answer, Gorequest, Client, get_url, bearer, one_error, unexpected,
  http_post,
}

module _ {W : Type 0} (http : Gorequest W) (validate : Payload → Option Error) where
  -- `Publish`, `DefineTask` and `LogThroughAPI`
  unfoldable pub publish : EventData → Client → W → W × Option Error
  publish data' c w =
      let r = http_post http validate (codes "events/publish") (event data') false c w in (r.0, r.2)

  unfoldable pub define_task : DefineTaskRequest → Client → W → W × Option Error
  define_task r c w =
      let r' = http_post http validate (codes "defined-tasks") (define_task_request r) false c w in
      (r'.0, r'.2)

  unfoldable pub log_through_api : LogEntry → Client → W → W × Option Error
  log_through_api entry c w =
      let r = http_post http validate (codes "logs/add") (log_entry entry) false c w in (r.0, r.2)

  -- `UpdateSequencMeta`
  unfoldable pub update_sequence_meta : Bytes → Map Bytes Bytes → Client → W → Go (W × Option Error)
  unfolding one_error
  update_sequence_meta sequence_id meta c w = do
    let (w', response, err) =
        http_post http validate (codes "sequences/" ++ (sequence_id ++ codes "/meta"))
          (sequence_meta meta) false c w
    elim err [
      | some x ↦ done (w', some x)
      | none ↦ do
        resp ← must response
        ite (ℕ_discrete resp.status_code 200) (done (w', none)) (
            done (w', some (one_error (message (codes "unexpected status code: " ++ resp.status)))))
    ]

  -- What an operation with a decoded response returns: the response, unless there is an error.
  abbrev pub Decoded : Type 0
  Decoded = W × (Option Response ⊎ Error)

  unfoldable pub decoded : W × Option Response × Option Error → Decoded
  decoded (w, response, some err) = (w, inr err)
  decoded (w, response, none) = (w, inl response)

  -- `CreateSequence`
  unfoldable pub create_sequence : CreateSequenceRequest → Client → W → Decoded
  unfolding decoded
  create_sequence request c w =
      decoded
        (http_post http validate (codes "sequences") (create_sequence_request request) true c w)

  -- `CheckTaskNamesArray`
  unfoldable pub check_task_names : List Bytes → Client → W → Decoded
  unfolding decoded
  check_task_names names c w =
      decoded (http_post http validate (codes "defined-tasks/check") (task_names names) true c w)

module _ {W : Type 0} (http : Gorequest W) where
  finished : W × Answer → W × Option Error
  finished (w, answer) = elim answer.errors [
    | nil ↦ (w, none)
    | cons e es ↦ (w, some (combined (cons e es)))
  ]

  -- `FinishSequence`, which does not look at the status.
  unfoldable pub finish_sequence : Bytes → FinishSequenceRequest → Client → W → W × Option Error
  unfolding finished bearer get_url
  finish_sequence sequence_id body c w = finished (
      http.end_struct
        (record {
          verb = post_verb;
          url = get_url (codes "sequences/" ++ (sequence_id ++ codes "/finish")) c;
          authorization = bearer c;
          payload = some (finish_sequence_request body);
        })
        w)

  -- What `SubmitCodeRegistration` makes of the answer.
  submitted : Answer → Option Response ⊎ Error
  unfolding one_error unexpected
  submitted answer = elim answer.errors [
    | cons e es ↦ inr (combined (cons e es))
    | nil ↦ elim answer.response [
      | none ↦ inl none
      | some resp ↦ ite (ℕ_discrete resp.status_code 200) (inl (some resp)) (
          ite (ℕ_discrete resp.status_code 201) (inl (some resp)) (
            ite (ℕ_discrete resp.status_code 401)
              (inr (message (codes "registration code is invalid"))) (inr (unexpected resp []))))
    ]
  ]

  -- `SubmitCodeRegistration` of an application that is not nil; `encode` is `url.Values.Encode`
  -- of the query of `url` with the code added.
  unfoldable pub submit_code_registration :
      (Url → Bytes → Bytes)
      → Bytes
      → CreateApplicationRequest
      → Client
      → W
      → W × (Option Response ⊎ Error)
  unfolding submitted get_url
  submit_code_registration encode code request c w =
      let u = get_url (codes "cr") c in
      let (w', answer) =
        http.end_struct
          (record {
            verb = post_verb;
            url = record u { raw_query = encode u code };
            authorization = none;
            payload = some (application request);
          })
          w in
      (w', submitted answer)

  -- What `issueWSTicket` makes of the answer.
  unfoldable pub ticket_of : (ℕ → Bytes) → (Response → Bytes ⊎ Error) → Answer → Go (Errors ⊎ Bytes)
  ticket_of strerror decode answer = elim answer.errors [
    | cons e es ↦ done (inl (cons e es))
    | nil ↦ do
      resp ← must answer.response
      ite (ℕ_discrete resp.status_code 200)
          (elim (decode resp) [
            | inl ticket ↦ done (inr ticket)
            | inr err ↦ done (
                inl (
                  cons
                    (message (
                      codes "failed to decode backend response (WS ticket): "
                      ++ error_text strerror err))
                    nil))
          ])
          (done (inl (cons (unexpected_status_code resp.status_code resp.status []) nil)))
  ]

  pub ticket_request : Client → Request
  unfolding bearer get_url
  ticket_request c = record {
    verb = post_verb;
    url = get_url (codes "ws/issue-ws-ticket") c;
    authorization = bearer c;
    payload = none;
  }

  -- `issueWSTicket`; `decode` is the JSON decoder on the response's body.
  unfoldable pub issue_ws_ticket :
      (ℕ → Bytes) → (Response → Bytes ⊎ Error) → Client → W → Go (W × (Errors ⊎ Bytes))
  unfolding ticket_of ticket_request
  issue_ws_ticket strerror decode c w = do
    let (w', answer) = http.end (ticket_request c) w
    ticket ← ticket_of strerror decode answer
    done (w', ticket)

-- `Sequence`; its calls go to the client that it holds.
pub record Sequence : Type 0 where
  pub id : Bytes
  pub c : Client

pub record EventDataWithoutSequence : Type 0 where
  pub name : Bytes
  pub value : Bytes

module _ {W : Type 0} (http : Gorequest W) (validate : Payload → Option Error) where
  unfoldable pub sequence_publish : EventDataWithoutSequence → Sequence → W → W × Option Error
  unfolding publish
  sequence_publish d s w =
      publish http validate (record { name = d.name; value = d.value; sequence_id = s.id }) s.c w

module _ {W : Type 0} (http : Gorequest W) where
  unfoldable pub sequence_finish : FinishSequenceRequest → Sequence → W → W × Option Error
  unfolding finish_sequence
  sequence_finish d s w = finish_sequence http s.id d s.c w
