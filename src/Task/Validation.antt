-- ===== src/Task/Validation.antt =====
-- telephonist/types.go: which triggers `Validate` accepts.
use telephonist_agent.Base.{
  ◌≡◌, ◌≢◌, ◌↔◌, codes, Bytes-discrete, Bool, true, false, Option, none, some, ite, arith,
}
use telephonist_agent.Errors.{Error, message}
use telephonist_agent.Task.{
  TaskTrigger, UnmarshalString, trigger_cron, trigger_event, trigger_fsnotify,
}

-- `Unmarshal` into a pointer to a string or, without one, into nil, which the decoder refuses.
unmarshal_into : UnmarshalString → Bool → TaskTrigger → Option Error
unmarshal_into unmarshal false t = some (message (codes "json: Unmarshal(nil)"))
unmarshal_into unmarshal true t = elim (unmarshal t.body) [
  | some _ ↦ none
  | none ↦ some (message (codes "json: cannot unmarshal"))
]

checked : Option Error → Option Error
checked none = none
checked (some _) = some (message (codes "invalid trigger body"))

-- `Validate`. The cases for cron and event are empty, and leave the pointer nil.
unfoldable pub validate : UnmarshalString → TaskTrigger → Option Error
unfolding checked unmarshal_into
validate unmarshal t =
    ite (Bytes-discrete t.name trigger_cron) (checked (unmarshal_into unmarshal false t)) (
      ite (Bytes-discrete t.name trigger_event) (checked (unmarshal_into unmarshal false t)) (
        ite (Bytes-discrete t.name trigger_fsnotify) (checked (unmarshal_into unmarshal true t))
          (some (message (codes "invalid trigger type")))))

-- `Validate` accepts just the triggers of type fsnotify whose body is a string: a trigger of type cron
-- or event is never valid.
pub validate_iff :
    (unmarshal : UnmarshalString) (t : TaskTrigger)
    → (validate unmarshal t ≡ none) ↔ ((t.name ≡ trigger_fsnotify) × (unmarshal t.body ≢ none))
unfolding validate Bytes-discrete
validate_iff unmarshal t = ground arith
