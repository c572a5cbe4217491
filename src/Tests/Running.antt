-- ===== src/Tests/Running.antt =====
-- scheduler.go, taskexecutor and telephonist/types.go at one task.
use telephonist_agent.Base.{
  ℕ, ◌+◌, ◌≡◌, ◌≢◌, ◌↔◌, inl, Bytes, codes, [], ◌∷◌, true, false, none, some, ℕ_discrete,
}
use telephonist_agent.Errors.{nil}
use telephonist_agent.Task.{
  TaskTrigger, DefinedTask, UnmarshalString, trigger_fsnotify, task_type_script,
}
use telephonist_agent.Task.Validation.{validate, validate_iff}
use telephonist_agent.Tasks.{TaskTriggeredEvent}
use telephonist_agent.Rest.{Answer, Gorequest}
use telephonist_agent.Db.{Bolt, RecordJson}
use telephonist_agent.Output.{writes}
use telephonist_agent.Shell.Execution.{Exec}
use telephonist_agent.Shell.Lines.{
  get_lines, scan, scan_byte, end_line, kept, all_space, is_space, full_lines, get_lines-append,
  get_lines-lines,
}
use telephonist_agent.Shell.{split_lines}
use telephonist_agent.App.Running.{Runner, World}

abbrev plain : UnmarshalString
plain b = some b

abbrev on_path : TaskTrigger
on_path = record { name = trigger_fsnotify; body = codes "/a"; disabled = false }

validate_iff_example :
    (validate plain on_path ≡ none)
    ↔ ((trigger_fsnotify ≡ trigger_fsnotify) × (some (codes "/a") ≢ none))
validate_iff_example = validate_iff plain on_path

not_empty : ◌≢◌ {A = Bytes} (98 ∷ []) []
not_empty e = cc

-- `a`, a line break and `b`; then `c` and a line break.
get_lines-append_example :
    let whole = get_lines (97 ∷ 10 ∷ 98 ∷ 99 ∷ 10 ∷ []) in
    let more = get_lines (98 ∷ 99 ∷ 10 ∷ []) in (whole.0 ≡ (97 ∷ []) ∷ more.0) × (whole.1 ≡ more.1)
unfolding get_lines scan scan_byte end_line kept all_space is_space ℕ_discrete
get_lines-append_example = get_lines-append (97 ∷ 10 ∷ 98 ∷ []) (99 ∷ 10 ∷ []) (λ e. not_empty e)

get_lines-lines_example :
    (get_lines (97 ∷ 10 ∷ 32 ∷ 10 ∷ 98 ∷ [])).0
    ≡ full_lines (split_lines (97 ∷ 10 ∷ 32 ∷ 10 ∷ 98 ∷ []))
get_lines-lines_example = get_lines-lines (97 ∷ 10 ∷ 32 ∷ 10 ∷ 98 ∷ [])

abbrev task : DefinedTask
task = record {
  name = codes "t";
  description = [];
  body = record { value = codes "ls"; body_type = task_type_script };
  env = [];
  tags = [];
  triggers = on_path ∷ [];
  id = 7;
  last_updated = 0;
  disabled = false;
}

-- The pipe takes so many bytes, and the shell writes one byte.
abbrev shell_with : ℕ → Exec ℕ
shell_with capacity = record {
  stdin_pipe = λ shell w. none;
  stdout_pipe = λ shell w. none;
  stderr_pipe = λ shell w. none;
  pipe_capacity = capacity;
  run_shell = λ shell env body w.
      (w + 1, record { steps = writes 1 (codes "a") false ∷ []; stopped_at = 9; error = none });
}

abbrev event : TaskTriggeredEvent
event = record {
  trigger_event = record { trigger_id = 1; trigger = on_path; params = [] };
  task = task;
  params = [];
}

abbrev reply : ℕ → Answer
reply status = record {
  errors = nil;
  response = some (record { status_code = status; status = []; body = some [] });
}

abbrev answering : ℕ → Gorequest ℕ
answering status = record {
  end = λ r w. (w + 1, reply status);
  end_struct = λ r w. (w + 1, reply status);
}

abbrev no_store : Bolt ℕ ℕ
no_store = record {
  begin_update = λ d. d;
  begin_view = λ d. d;
  create_bucket_if_not_exists = λ bucket tx. (tx, none);
  has_bucket = λ bucket tx. true;
  put = λ bucket key text tx. (tx, none);
  get = λ bucket key tx. none;
  entries = λ bucket tx. [];
  commit = λ tx. (tx, none);
}

abbrev names : RecordJson
names = record { marshal = λ r. inl r.task_name; unmarshal = λ text r. inl r }

abbrev runner : ℕ → Runner ℕ ℕ ℕ
runner status = record {
  http = answering status;
  validate = λ p. none;
  exec = shell_with 9;
  bolt = no_store;
  json = names;
  unmarshal = plain;
  texts = record {
    uuid_json = λ n. none;
    int64_json = λ n. none;
    uuid_text = λ n. codes "u";
    id_of = λ r. codes "s";
    strerror = λ n. [];
  };
  client = record {
    api_key = codes "k";
    url = record { scheme = codes "http"; host = codes "h"; path = []; raw_query = [] };
  };
  connection_id = 3;
}

abbrev world : World ℕ ℕ
world = record { outside = 0; db = none }
