-- ===== src/Task.antt =====
-- telephonist/types.go: triggers and tasks as the server describes them.
pub mod Id
pub mod Validation
use telephonist_agent.Base.{Go, must, ℕ, Bool, Bytes, codes, List, Map, Option}

abbrev pub trigger_cron : Bytes
trigger_cron = codes "cron"

abbrev pub trigger_event : Bytes
trigger_event = codes "event"

abbrev pub trigger_fsnotify : Bytes
trigger_fsnotify = codes "fsnotify"

-- `body` is raw JSON.
pub record TaskTrigger : Type 0 where
  pub name : Bytes
  pub body : Bytes
  pub disabled : Bool

abbrev pub task_type_exec : Bytes
task_type_exec = codes "exec"

abbrev pub task_type_script : Bytes
task_type_script = codes "script"

abbrev pub task_type_arbitrary : Bytes
task_type_arbitrary = codes "arbitrary"

pub record TaskBody : Type 0 where
  pub value : Bytes
  pub body_type : Bytes

-- A UUID is a number; the pointers in `triggers` are not nil.
pub record DefinedTask : Type 0 where
  pub name : Bytes
  pub description : Bytes
  pub body : TaskBody
  pub env : Map Bytes Bytes
  pub tags : List Bytes
  pub triggers : List TaskTrigger
  pub id : ℕ
  pub last_updated : ℕ
  pub disabled : Bool

-- `json.Unmarshal` of a raw value into a string: `none` is an error.
abbrev pub UnmarshalString : Type 0
UnmarshalString = Bytes → Option Bytes

-- `MustString` of a trigger, which panics on a body that is no string.
abbrev pub must_string : UnmarshalString → TaskTrigger → Go Bytes
must_string unmarshal trigger = must (unmarshal trigger.body)

-- `MustString` of a task, likewise.
abbrev pub task_must_string : UnmarshalString → DefinedTask → Go Bytes
task_must_string unmarshal task = must (unmarshal task.body.value)

pub record Event : Type 0 where
  pub id : Bytes
  pub app_id : Bytes
  pub event_key : Bytes
  pub event_type : Bytes
