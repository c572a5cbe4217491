-- ===== src/App/Running/Reporting.antt =====
-- scheduler.go: what a run of a task reports to the server, and what parameters it gets.
use telephonist_agent.Base.{
  ℕ, ◌≡◌, ◌≢◌, refl, ap, ◌∙◌, Bytes, codes, [], ◌∷◌, true, Option, none, some, Map, lookup, insert,
  Distinct, lookup-insert, Bytes-discrete, ite, panic, ◌⊎◌, inl, inr, arith, Option-cases,
}
use telephonist_agent.Errors.{Error}
use telephonist_agent.Tasks.{TaskTriggeredEvent}
use telephonist_agent.Rest.{http_post, invalid, call, post_request}
use telephonist_agent.Rest.Payloads.{create_sequence_request, CreateSequenceRequest}
use telephonist_agent.Rest.Endpoints.{create_sequence}
use telephonist_agent.Rest.Outcomes.{IsAnswer, IsGood, http_post_outcome}
use telephonist_agent.Shell.{Value}
use telephonist_agent.Shell as Shell
use telephonist_agent.App.Running.{
  Texts, World, Runner, value_of, merged, task_params, sequence_request, execute_task,
}

-- The value of the first map that has the key.
abbrev pub or_else : Option Value → Option Value → Option Value
or_else none y = y
or_else (some x) y = some x

abbrev pub through : {A : Type 0} → (A → Value) → Option A → Option Value
through f none = none
through f (some a) = some (f a)

lookup-merged :
    {A : Type 0} (f : A → Value) (k : Bytes) (m : Map Bytes A) (params : Map Bytes Value)
    → Distinct Bytes-discrete m
    → lookup Bytes-discrete k (merged f m params)
      ≡ or_else (through f (lookup Bytes-discrete k m)) (lookup Bytes-discrete k params)
unfolding merged lookup
lookup-merged f k [] params d = refl
lookup-merged f k ((j, v) ∷ m) params d = ground (
  arith,
  lookup-merged f k m (insert Bytes-discrete j (f v) params) d.1,
  lookup-insert Bytes-discrete j k (f v) params,
)

or_else-none : (x : Option Value) → or_else x none ≡ x
or_else-none none = refl
or_else-none (some x) = refl

four_set :
    (k a b c d : Bytes) (va vb vc vd : Value) (m : Map Bytes Value)
    → lookup Bytes-discrete k (
        insert Bytes-discrete a va
          (insert Bytes-discrete b vb (insert Bytes-discrete c vc (insert Bytes-discrete d vd m))))
      ≡ or_else
          (ite (Bytes-discrete a k) (some va) (
            ite
              (Bytes-discrete b k)
              (some vb)
              (ite (Bytes-discrete c k) (some vc) (ite (Bytes-discrete d k) (some vd) none))))
          (lookup Bytes-discrete k m)
four_set k a b c d va vb vc vd m = grind (arith, lookup-insert)

-- The names that `executeTask` sets last, and what it sets them to.
unfoldable pub fixed_params : Texts → Bytes → TaskTriggeredEvent → Bytes → Option Value
fixed_params t sequence_id event k =
    ite (Bytes-discrete (codes "TELEPHONIST_TASK_ID") k)
      (some (Shell.text (t.uuid_text event.task.id)))
      (ite (Bytes-discrete (codes "TELEPHONIST_TASK_NAME") k) (some (Shell.text event.task.name)) (
        ite (Bytes-discrete (codes "TELEPHONIST_SEQUENCE_ID") k) (some (Shell.text sequence_id)) (
          ite (Bytes-discrete (codes "TELEPHONIST_AGENT") k)
            (some (Shell.text (codes "TelephonistAgent 0.1.1"))) none)))

-- When the parameters of the event and of its trigger have no name twice, a run's parameter is the one
-- that `executeTask` sets under the name, else the task scheduler's, else the trigger's.
pub lookup-task_params :
    (t : Texts) (sequence_id : Bytes) (event : TaskTriggeredEvent) (k : Bytes)
    → Distinct Bytes-discrete event.params
    → Distinct Bytes-discrete event.trigger_event.params
    → lookup Bytes-discrete k (task_params t sequence_id event)
      ≡ or_else (fixed_params t sequence_id event k) (
          or_else
            (through (value_of t) (lookup Bytes-discrete k event.params))
            (through Shell.text (lookup Bytes-discrete k event.trigger_event.params)))
unfolding task_params fixed_params lookup
lookup-task_params t sequence_id event k d d' =
    let below = merged Shell.text event.trigger_event.params [] in
    four_set k (codes "TELEPHONIST_TASK_ID") (codes "TELEPHONIST_TASK_NAME")
      (codes "TELEPHONIST_SEQUENCE_ID") (codes "TELEPHONIST_AGENT") _ _ _ _ _
    ∙ ap (or_else (fixed_params t sequence_id event k)) (
        lookup-merged (value_of t) k event.params below d
        ∙ ap (or_else (through (value_of t) (lookup Bytes-discrete k event.params)))
            (lookup-merged Shell.text k event.trigger_event.params [] d' ∙ or_else-none _))

module _ {W D T : Type 0} (r : Runner W D T) where
  created_nothing :
      (now : ℕ) (key : Bytes) (event : TaskTriggeredEvent) (w : World W D) (err : Error)
      → (create_sequence r.http r.validate (sequence_request r event) r.client w.outside).1
        ≡ inr err
      → execute_task r now key event w ≡ panic
  unfolding execute_task
  created_nothing now key event w err h = ground arith

  not_created :
      (request : CreateSequenceRequest) (w : W)
      → (http_post r.http r.validate
          (codes "sequences")
          (create_sequence_request request)
          true
          r.client
          w).2
        ≢ none
      → (err : Error) × ((create_sequence r.http r.validate request r.client w).1 ≡ inr err)
  unfolding create_sequence
  not_created request w h =
      elim (Option-cases
        (http_post r.http r.validate (codes "sequences") (create_sequence_request request) true
          r.client w).2) [ inl fine ↦ absurd (h fine) | inr (err, e) ↦ (err, ground arith) ]

  -- When an answer without errors has a response, and the request for a sequence is refused by the
  -- validator, or fails, or is answered with a status of 300 or more, `executeTask` panics.
  pub execute_task_panics :
      (now : ℕ) (key : Bytes) (event : TaskTriggeredEvent) (w : World W D)
      → let payload = create_sequence_request (sequence_request r event) in
        let answer =
          (call r.http true
            (post_request r.http r.validate (codes "sequences") payload r.client)
            w.outside).1 in
        IsAnswer answer
        → ((invalid r.http r.validate payload ≢ none) ⊎ ¬ IsGood answer)
        → execute_task r now key event w ≡ panic
  execute_task_panics now key event w h bad =
      let request = sequence_request r event in
      let (_, _, i) =
        http_post_outcome r.http r.validate (codes "sequences") (create_sequence_request request)
          true r.client w.outside h in
      let (err, e) =
        not_created request w.outside
          (λ q. elim bad [ inl refused ↦ refused (i.0 q).0 | inr failed ↦ failed (i.0 q).1 ]) in
      created_nothing now key event w err e
