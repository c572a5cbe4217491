-- ===== src/App/Running.antt =====
-- scheduler.go: `onTrigger` and `executeTask`, which run a task and report it to the server.
pub mod Reporting
use telephonist_agent.Base.{
  ℕ, Bytes, codes, List, [], ◌∷◌, Bool, true, false, Option, none, some, Map, insert,
  Bytes-discrete, Go, done, panic, ◌>>=◌, ◌⊎◌, inl, inr,
}
use telephonist_agent.Errors.{Error, chain_error, error_text}
use telephonist_agent.Task.{UnmarshalString}
use telephonist_agent.Tasks.{TaskTriggeredEvent, Param, text, int, uuid, int64, null}
use telephonist_agent.Rest.{Gorequest, Response, Client}
use telephonist_agent.Rest.Payloads.{Payload, CreateSequenceRequest, FinishSequenceRequest}
use telephonist_agent.Rest.Endpoints.{create_sequence, finish_sequence}
use telephonist_agent.Db.{Bolt, RecordJson, SequenceDbRecord, put_sequence}
use telephonist_agent.Shell.{Value, can_execute}
use telephonist_agent.Shell as Shell
use telephonist_agent.Shell.Execution.{Exec, execute}
use telephonist_agent.Ws.{LogRecord}

-- JSON of the values that are not strings, if it can be made, and the text of a UUID.
pub record Texts : Type 0 where
  pub uuid_json : ℕ → Option Bytes
  pub int64_json : ℕ → Option Bytes
  pub uuid_text : ℕ → Bytes
  pub id_of : Option Response → Bytes  -- the identifier in the decoded response
  pub strerror : ℕ → Bytes

pub value_of : Texts → Param → Value
value_of t (text s) = Shell.text s
value_of t (int negative n) = Shell.int negative n
value_of t (uuid n) = Shell.other (t.uuid_json n)
value_of t (int64 n) = Shell.other (t.int64_json n)
value_of t null = Shell.null

-- A loop that sets the parameters one by one.
unfoldable pub merged : {A : Type 0} → (A → Value) → Map Bytes A → Map Bytes Value → Map Bytes Value
merged f [] params = params
merged f ((k, v) ∷ m) params = merged f m (insert Bytes-discrete k (f v) params)

-- The parameters of a run, under the identifier of its sequence.
unfoldable pub task_params : Texts → Bytes → TaskTriggeredEvent → Map Bytes Value
unfolding merged value_of
task_params t sequence_id event =
    insert Bytes-discrete (codes "TELEPHONIST_TASK_ID") (Shell.text (t.uuid_text event.task.id)) (
      insert Bytes-discrete (codes "TELEPHONIST_TASK_NAME") (Shell.text event.task.name) (
        insert Bytes-discrete (codes "TELEPHONIST_SEQUENCE_ID") (Shell.text sequence_id) (
          insert Bytes-discrete (codes "TELEPHONIST_AGENT")
            (Shell.text (codes "TelephonistAgent 0.1.1"))
            (merged (value_of t) event.params (merged Shell.text event.trigger_event.params [])))))

-- What `executeTask` acts on: all that stands outside of the process, and the database if the
-- application has one.
pub record World (W D : Type 0) : Type 0 where
  pub outside : W
  pub db : Option D

-- The parts of the application that `executeTask` uses, and those of other packages below them.
pub record Runner (W D T : Type 0) : Type 0 where
  pub http : Gorequest W
  pub validate : Payload → Option Error
  pub exec : Exec W
  pub bolt : Bolt D T
  pub json : RecordJson
  pub unmarshal : UnmarshalString
  pub texts : Texts
  pub client : Client
  pub connection_id : ℕ

module _ {W D T : Type 0} (r : Runner W D T) where
  pub sequence_request : TaskTriggeredEvent → CreateSequenceRequest
  sequence_request event = record {
    custom_name = none;
    description = none;
    meta = [];
    task_id = event.task.id;
    connection_id = r.connection_id;
    triggered_by = record {
      trigger_type = event.trigger_event.trigger.name;
      trigger_body = event.trigger_event.trigger.body;
      extra = event.trigger_event.params;
    };
  }

  -- The record of a sequence, under its identifier at the server.
  noted : TaskTriggeredEvent → Bytes → Bool → SequenceDbRecord
  noted event backend_id only_local = record {
    task_id = event.task.id;
    task_name = event.task.name;
    state = codes "in_progress";
    only_local = only_local;
    backend_id = backend_id;
  }

  -- `PutSequence`, whose error is not looked at, where there is a database.
  note_sequence : Bytes → SequenceDbRecord → Option D → Option D
  note_sequence key rec none = none
  note_sequence key rec (some d) = some (put_sequence r.bolt r.json key rec d).0

  -- The sequence's identifier, for a response to `CreateSequence`; without one `seq` is nil.
  pub opened :
      Bytes
      → TaskTriggeredEvent
      → World W D
      → W × (Option Response ⊎ Error)
      → World W D × (Bytes ⊎ Error)
  unfolding note_sequence noted
  opened key event w (outside, inr err) =
      (record { outside = outside; db = note_sequence key (noted event [] true) w.db }, inr err)
  opened key event w (outside, inl response) = (
    record {
      outside = outside;
      db = note_sequence key (noted event (r.texts.id_of response) false) w.db;
    },
    inl (r.texts.id_of response),
  )

  -- `seq.ID`, which panics when `seq` is nil.
  pub sequence_id_of : Bytes ⊎ Error → Go Bytes
  sequence_id_of (inl id) = done id
  sequence_id_of (inr err) = panic

  unfoldable pub error_of : Option Error → Option Bytes
  error_of none = none
  error_of (some err) = some (error_text r.texts.strerror err)

  -- The end of `executeTask`.
  pub reported_end : World W D → W × Option Error → World W D × Option Error
  reported_end w (outside, none) = (record w { outside = outside }, none)
  reported_end w (outside, some err) =
      (record w { outside = outside }, some (chain_error (codes "failed to finish sequence") err))

  -- `executeTask`, at a time and with a new key for the database; the records are those that the
  -- callback hands to `SendLogs`, whose error is dropped; its effect on the websocket client, a wait or a
  -- panic included, is left out.
  unfoldable pub execute_task :
      ℕ → Bytes → TaskTriggeredEvent → World W D → Go (World W D × List LogRecord × Option Error)
  unfolding sequence_request opened sequence_id_of error_of reported_end
  execute_task now key event w = do
    let (w', seq) =
        opened key event w
          (create_sequence r.http r.validate (sequence_request event) r.client w.outside)
    sequence_id ← sequence_id_of seq
    (outside, records, err) ←
        execute r.exec r.unmarshal now event.task (task_params r.texts sequence_id event) w'.outside
    let request : FinishSequenceRequest = record { error = error_of err; is_skipped = false }
    let (w'', result) =
        reported_end w' (finish_sequence r.http sequence_id request r.client outside)
    done (w'', records, result)

  -- `onTrigger`: whether a goroutine is started on `executeTask`.
  unfoldable pub on_trigger : TaskTriggeredEvent → Bool
  on_trigger event = can_execute event.task
