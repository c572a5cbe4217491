-- ===== src/Rest/Payloads.antt =====
-- telephonist/types.go: what the requests of the client carry.
use telephonist_agent.Base.{ℕ, Bytes, List, Bool, Option, Map}
use telephonist_agent.Task.{TaskTrigger, TaskBody}

-- `client.go` passes these as `data`. A JSON value that the program does not read is its text; a
-- pointer that may be nil is an `Option`.
pub record EventData : Type 0 where
  pub name : Bytes
  pub value : Bytes
  pub sequence_id : Bytes

pub record TriggeredBy : Type 0 where
  pub trigger_type : Bytes
  pub trigger_body : Bytes
  pub extra : Map Bytes Bytes

pub record CreateSequenceRequest : Type 0 where
  pub custom_name : Option Bytes
  pub description : Option Bytes
  pub meta : Map Bytes Bytes
  pub task_id : ℕ
  pub connection_id : ℕ
  pub triggered_by : TriggeredBy

pub record FinishSequenceRequest : Type 0 where
  pub error : Option Bytes
  pub is_skipped : Bool

pub record DefineTaskRequest : Type 0 where
  pub id : ℕ
  pub name : Bytes
  pub description : Option Bytes
  pub body : TaskBody
  pub env : Map Bytes Bytes
  pub tags : List Bytes
  pub triggers : List TaskTrigger

pub record LogEntry : Type 0 where
  pub body : Bytes
  pub sequence_id : Option Bytes
  pub severity : ℕ

pub record CreateApplicationRequest : Type 0 where
  pub name : Bytes
  pub description : Bytes
  pub display_name : Bytes
  pub tags : List Bytes

pub data Payload : Type 0 where
  event : EventData → Payload
  sequence_meta : Map Bytes Bytes → Payload
  create_sequence_request : CreateSequenceRequest → Payload
  finish_sequence_request : FinishSequenceRequest → Payload
  define_task_request : DefineTaskRequest → Payload
  task_names : List Bytes → Payload
  log_entry : LogEntry → Payload
  application : CreateApplicationRequest → Payload
