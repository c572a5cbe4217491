-- ===== src/Triggers/Fs.antt =====
-- taskscheduler/trigger_scheduler.go: `FSTriggersScheduler`, which runs tasks on file events, and
-- taskscheduler/utils.go. The watcher is that of github.com/fsnotify/fsnotify.
pub mod Paths
pub mod Dispatch
pub mod Registration
use telephonist_agent.Base.{
  ℕ, Bytes, codes, List, [], ◌∷◌, ◌++◌, Bool, true, false, Option, none, some, Map, length, lookup,
  insert, delete, Bytes-discrete, ℕ_discrete, ite, Go, done, panic, ◌>>=◌,
}
use telephonist_agent.Errors.{Error, errno}
use telephonist_agent.Task.{must_string, TaskTrigger, UnmarshalString, trigger_fsnotify}
use telephonist_agent.Task.Id.{trigger_id}
use telephonist_agent.Triggers.{TriggeredEvent, TriggersScheduler}
use Paths.{normalize_path, matches_path}

pub record Watcher (W : Type 0) : Type 0 where
  pub add : Bytes → W → W × Option Error
  pub remove : Bytes → W → W × Option Error
  pub close : W → W

-- `event.Op` is the text that its `String` gives.
pub record FsEvent : Type 0 where
  pub name : Bytes
  pub op : Bytes

pub record FsTriggersScheduler (W : Type 0) : Type 0 where
  pub watcher : W
  pub path_triggers : Map Bytes (Map ℕ TaskTrigger)
  pub triggers : Map ℕ TaskTrigger
  pub has_callback : Bool
  pub is_running : Bool

-- `syscall.EINVAL`
abbrev pub einval : ℕ
einval = 22

abbrev is_einval : Error → Bool
is_einval (errno n) = ite (ℕ_discrete n einval) true false
is_einval _ = false

-- What `Unschedule` returns after `Remove`: an invalid watch counts as removed.
removal : Option Error → Option Error
removal none = none
removal (some err) = elim (is_einval err) [ true ↦ none | false ↦ some err ]

-- The calls of the callback for the triggers of one path.
calls_for : Map Bytes Bytes → Map ℕ TaskTrigger → List TriggeredEvent
calls_for meta_data [] = []
calls_for meta_data ((id, trigger) ∷ rest) =
    record { trigger_id = id; trigger = trigger; params = meta_data } ∷ calls_for meta_data rest

-- The loop of `dispatchEvent` over the watched paths.
calls_under : Bytes → Map Bytes Bytes → Map Bytes (Map ℕ TaskTrigger) → List TriggeredEvent
unfolding calls_for
calls_under path meta_data [] = []
calls_under path meta_data ((root_path, triggers) ∷ rest) = elim (matches_path root_path path) [
  | true ↦ calls_for meta_data triggers ++ calls_under path meta_data rest
  | false ↦ calls_under path meta_data rest
]

unfoldable pub meta_of : Bytes → FsEvent → Map Bytes Bytes
meta_of path event = (codes "FILEPATH", path) ∷ (codes "FSNOTIFY_OP", event.op) ∷ []

module _ {W : Type 0} where
  unfoldable pub new_fs_triggers_scheduler : W → FsTriggersScheduler W
  new_fs_triggers_scheduler w = record {
    watcher = w;
    path_triggers = [];
    triggers = [];
    has_callback = false;
    is_running = false;
  }

  unfoldable pub can_schedule : FsTriggersScheduler W → Bytes → Bool
  can_schedule e trigger_type = ite (Bytes-discrete trigger_type trigger_fsnotify) true false

  -- `dispatchEvent`; `abs` is `filepath.Abs`.
  unfoldable pub dispatch_event :
      (Bytes → Option Bytes) → FsEvent → FsTriggersScheduler W → List TriggeredEvent
  unfolding calls_under meta_of
  dispatch_event abs event e = elim e.has_callback [
    | false ↦ []
    | true ↦ elim (abs event.name) [
      | none ↦ []
      | some path ↦ calls_under path (meta_of path event) e.path_triggers
    ]
  ]

module _ {W : Type 0} (fsnotify : Watcher W) (unmarshal : UnmarshalString) where
  -- The entry of a path that was not watched before.
  add_path :
      Bytes
      → ℕ
      → TaskTrigger
      → FsTriggersScheduler W
      → W × Option Error
      → FsTriggersScheduler W × ℕ × Option Error
  add_path path id trigger e (w, some err) = (record e { watcher = w }, 0, some err)
  add_path path id trigger e (w, none) = (
    record e {
      watcher = w;
      path_triggers = insert Bytes-discrete path ((id, trigger) ∷ []) e.path_triggers;
      triggers = insert ℕ_discrete id trigger e.triggers;
    },
    id,
    none,
  )

  add_to_path :
      Bytes → ℕ → TaskTrigger → FsTriggersScheduler W → FsTriggersScheduler W × ℕ × Option Error
  unfolding add_path
  add_to_path path id trigger e = elim (lookup Bytes-discrete path e.path_triggers) [
    | some pt ↦ (
      record e {
        path_triggers =
            insert Bytes-discrete path (insert ℕ_discrete id trigger pt) e.path_triggers;
        triggers = insert ℕ_discrete id trigger e.triggers;
      },
      id,
      none,
    )
    | none ↦ add_path path id trigger e (fsnotify.add path e.watcher)
  ]

  unfoldable pub schedule_by_id :
      ℕ → TaskTrigger → FsTriggersScheduler W → Go (FsTriggersScheduler W × ℕ × Option Error)
  unfolding add_to_path
  schedule_by_id id trigger e =
      ite (Bytes-discrete trigger.name trigger_fsnotify)
        (do
          text ← must_string unmarshal trigger
          done (add_to_path (normalize_path text) id trigger e))
        panic

  unfoldable pub schedule :
      TaskTrigger → FsTriggersScheduler W → Go (FsTriggersScheduler W × ℕ × Option Error)
  unfolding schedule_by_id
  schedule trigger e = schedule_by_id (trigger_id trigger) trigger e

  -- The last trigger of a path takes the watch along.
  remove_path :
      Bytes → FsTriggersScheduler W → W × Option Error → FsTriggersScheduler W × Option Error × Bool
  remove_path path e (w, err) = (
    record e { watcher = w; path_triggers = delete Bytes-discrete path e.path_triggers },
    removal err,
    true,
  )

  remove_from_path : Bytes → ℕ → FsTriggersScheduler W → FsTriggersScheduler W × Option Error × Bool
  unfolding remove_path removal
  remove_from_path path id e = elim (lookup Bytes-discrete path e.path_triggers) [
    | none ↦ (e, none, false)
    | some pt ↦
        ite (ℕ_discrete (length pt) 1) (remove_path path e (fsnotify.remove path e.watcher)) (
          record e {
            path_triggers = insert Bytes-discrete path (delete ℕ_discrete id pt) e.path_triggers;
          },
          none,
          true,
        )
  ]

  -- The path is looked up as the trigger spells it.
  unfoldable pub unschedule :
      ℕ → FsTriggersScheduler W → Go (FsTriggersScheduler W × Option Error × Bool)
  unfolding remove_from_path
  unschedule id e = elim (lookup ℕ_discrete id e.triggers) [
    | none ↦ done (e, none, false)
    | some trigger ↦ do path ← must_string unmarshal trigger; done (remove_from_path path id e)
  ]

  unfoldable pub fs_triggers_scheduler : TriggersScheduler (FsTriggersScheduler W)
  unfolding can_schedule schedule schedule_by_id unschedule
  fs_triggers_scheduler = record {
    can_schedule = can_schedule;
    schedule = schedule;
    schedule_by_id = schedule_by_id;
    unschedule = unschedule;
    start = λ e.
        done
          (elim e.is_running [ true ↦ (e, none) | false ↦ (record e { is_running = true }, none) ]);
    stop = λ e. done (record e { is_running = false; watcher = fsnotify.close e.watcher });
    is_running = λ e. e.is_running;
    set_callback = λ set e. record e { has_callback = set };
  }
