-- ===== src/Tests/Files.antt =====
-- taskscheduler/trigger_scheduler.go: the file scheduler at a small table, over a watcher that
-- watches any path.
use telephonist_agent.Base.{
  ◌≡◌, ◌↔◌, refl, codes, Bytes, List, [], ◌∷◌, Mem, true, false, none, some, lookup, insert, delete,
  Bytes-discrete, ℕ_discrete, done,
}
use telephonist_agent.Task.{TaskTrigger, UnmarshalString, trigger_fsnotify}
use telephonist_agent.Triggers.{TriggeredEvent}
use telephonist_agent.Triggers.Fs.Paths.{normalize_path, has_prefix, trim_slash}
use telephonist_agent.Triggers.Fs.{
  Watcher, FsEvent, FsTriggersScheduler, meta_of, dispatch_event, schedule_by_id, unschedule,
}
use telephonist_agent.Triggers.Fs.Dispatch.{IsTable, RunsUnder, dispatch_event_iff}

-- The state is the list of the paths that are watched.
abbrev any_path : Watcher (List Bytes)
any_path = record {
  add = λ path w. (path ∷ w, none);
  remove = λ path w. (w, none);
  close = λ w. [];
}

-- JSON texts are taken without their quotes.
abbrev plain : UnmarshalString
plain b = some b

abbrev pub on_a : TaskTrigger
on_a = record { name = trigger_fsnotify; body = codes "/a"; disabled = false }

-- The same path in another spelling.
abbrev on_a_bare : TaskTrigger
on_a_bare = record { name = trigger_fsnotify; body = codes "a"; disabled = false }

abbrev fresh : FsTriggersScheduler (List Bytes)
fresh = record {
  watcher = [];
  path_triggers = [];
  triggers = [];
  has_callback = true;
  is_running = true;
}

abbrev watching : FsTriggersScheduler (List Bytes)
watching = record fresh {
  watcher = codes "/a" ∷ [];
  path_triggers = (codes "/a", (5, on_a) ∷ []) ∷ [];
  triggers = (5, on_a) ∷ [];
}

abbrev given_up : FsTriggersScheduler (List Bytes)
given_up = record watching { path_triggers = [] }

abbrev misspelt : FsTriggersScheduler (List Bytes)
misspelt = record watching {
  path_triggers = (codes "/a", (5, on_a_bare) ∷ []) ∷ [];
  triggers = (5, on_a_bare) ∷ [];
}

scheduled : schedule_by_id any_path plain 5 on_a fresh ≡ done (watching, 5, none)
unfolding schedule_by_id normalize_path has_prefix trim_slash lookup insert Bytes-discrete
    ℕ_discrete
scheduled = refl

unscheduled : unschedule any_path plain 5 watching ≡ done (given_up, none, true)
unfolding unschedule lookup delete Bytes-discrete ℕ_discrete
unscheduled = refl

watching-IsTable : IsTable watching.path_triggers
unfolding lookup
watching-IsTable = (refl, (refl, tt), (λ e. cc), tt)

abbrev pub write_under : FsEvent
write_under = record { name = codes "/a/b"; op = codes "WRITE" }

abbrev run_of_5 : TriggeredEvent
run_of_5 = record {
  trigger_id = 5;
  trigger = on_a;
  params = (codes "FILEPATH", codes "/a/b") ∷ (codes "FSNOTIFY_OP", codes "WRITE") ∷ [];
}

dispatch_event_iff_example :
    Mem run_of_5 (dispatch_event plain write_under watching)
    ↔ ∥ (
        (path : Bytes) × (root : Bytes) × (true ≡ true)
        × (plain (codes "/a/b") ≡ some path)
        × RunsUnder path (meta_of path write_under) watching.path_triggers run_of_5 root) ∥₁
dispatch_event_iff_example = dispatch_event_iff plain write_under watching run_of_5 watching-IsTable
