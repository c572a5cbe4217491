-- ===== src/Triggers/Fs/Registration.antt =====
-- taskscheduler/trigger_scheduler.go: what `ScheduleByID` and `Unschedule` of the file scheduler do
-- to the table of watched paths.
use telephonist_agent.Base.{
  Option-cases, inl, inr, ℕ, ◌≡◌, refl, Bytes, Bool, true, false, Option, none, some, [], ◌∷◌,
  insert, ite, lookup, lookup-insert, lookup-delete, lookup-singleton, delete-Distinct,
  delete-ne-nil, delete-length_one, insert-Distinct, insert-ne-nil, Bytes-discrete, ℕ_discrete,
  arith, done,
}
use telephonist_agent.Errors.{Error}
use telephonist_agent.Task.{TaskTrigger, UnmarshalString, trigger_fsnotify}
use telephonist_agent.Triggers.Fs.Paths.{normalize_path}
use telephonist_agent.Triggers.Fs.Dispatch.{
  delete-IsTable, watched, IsTable, insert-IsTable_one, insert-IsTable, IsTable-lookup,
}
use telephonist_agent.Triggers.Fs.{Watcher, FsTriggersScheduler, schedule_by_id, unschedule}

module _ {W : Type 0} (fsnotify : Watcher W) (unmarshal : UnmarshalString) where
  -- A trigger that is scheduled without an error is watched under its identifier at its normalised
  -- path, and every other path and identifier keeps what it had.
  pub watched-schedule_by_id :
      (id : ℕ) (t : TaskTrigger) (text : Bytes) (e e' : FsTriggersScheduler W) (id' : ℕ)
      (path : Bytes) (i : ℕ)
      → unmarshal t.body ≡ some text
      → schedule_by_id fsnotify unmarshal id t e ≡ done (e', id', none)
      → watched e'.path_triggers path i
        ≡ ite
            (Bytes-discrete (normalize_path text) path)
            (ite (ℕ_discrete id i) (some t) (watched e.path_triggers path i))
            (watched e.path_triggers path i)
  unfolding schedule_by_id watched
  watched-schedule_by_id id t text e e' id' path i u h =
      grind (arith, lookup-insert, lookup-singleton)

  -- A failure to watch a new path changes no table.
  pub schedule_by_id_fails :
      (id : ℕ) (t : TaskTrigger) (e e' : FsTriggersScheduler W) (id' : ℕ) (err : Error)
      → schedule_by_id fsnotify unmarshal id t e ≡ done (e', id', some err)
      → (id' ≡ 0) × (e'.path_triggers ≡ e.path_triggers) × (e'.triggers ≡ e.triggers)
  unfolding schedule_by_id
  schedule_by_id_fails id t e e' id' err h = ground arith

  -- When the watcher takes the path of a trigger and no trigger is on it, `ScheduleByID` returns without
  -- an error; the path then has just that trigger, and the callback stays.
  pub schedule_by_id-takes :
      (id : ℕ) (t : TaskTrigger) (text : Bytes) (e : FsTriggersScheduler W) (w : W)
      → t.name ≡ trigger_fsnotify
      → unmarshal t.body ≡ some text
      → lookup Bytes-discrete (normalize_path text) e.path_triggers ≡ none
      → fsnotify.add (normalize_path text) e.watcher ≡ (w, none)
      → (e' : FsTriggersScheduler W) × (schedule_by_id fsnotify unmarshal id t e
          ≡ done (e', id, none))
        × (e'.path_triggers
            ≡ insert Bytes-discrete (normalize_path text) ((id, t) ∷ []) e.path_triggers)
        × (e'.has_callback ≡ e.has_callback)
  unfolding schedule_by_id
  schedule_by_id-takes id t text e w name body free taken = (
    record e {
      watcher = w;
      path_triggers = insert Bytes-discrete (normalize_path text) ((id, t) ∷ []) e.path_triggers;
      triggers = insert ℕ_discrete id t e.triggers;
    },
    ground arith,
    refl,
    refl,
  )

  -- When the watcher takes the path of a trigger whenever it is given it, `ScheduleByID` returns without an
  -- error.
  pub schedule_by_id-accepts :
      (id : ℕ) (t : TaskTrigger) (text : Bytes) (e : FsTriggersScheduler W)
      → t.name ≡ trigger_fsnotify
      → unmarshal t.body ≡ some text
      → ((w : W) → (w' : W) × (fsnotify.add (normalize_path text) w ≡ (w', none)))
      → (e' : FsTriggersScheduler W) × (schedule_by_id fsnotify unmarshal id t e
          ≡ done (e', id, none))
  unfolding schedule_by_id
  schedule_by_id-accepts id t text e name body accepts =
      let (w, added) = accepts e.watcher in
      elim (Option-cases (lookup Bytes-discrete (normalize_path text) e.path_triggers)) [
        | inl free ↦
            let (e', called, _, _) = schedule_by_id-takes id t text e w name body free added in
            (e', called)
        | inr (pt, there) ↦ (
          record e {
            path_triggers =
                insert Bytes-discrete (normalize_path text) (insert ℕ_discrete id t pt)
                  e.path_triggers;
            triggers = insert ℕ_discrete id t e.triggers;
          },
          ground arith,
        )
      ]

  -- If every key of the tables stands once and no watched path is without a trigger, that is so
  -- after a call of `ScheduleByID` that returns.
  pub schedule_by_id-IsTable :
      (id : ℕ) (t : TaskTrigger) (e e' : FsTriggersScheduler W) (r : ℕ × Option Error)
      → IsTable e.path_triggers
      → schedule_by_id fsnotify unmarshal id t e ≡ done (e', r.0, r.1)
      → IsTable e'.path_triggers
  unfolding schedule_by_id
  schedule_by_id-IsTable id t e e' r v h =
      grind
        (arith, insert-IsTable, insert-IsTable_one, IsTable-lookup, insert-Distinct, insert-ne-nil)

  -- If every key of the tables stands once and no watched path is without a trigger, that is so
  -- after a call of `Unschedule` that returns.
  pub unschedule-IsTable :
      (id : ℕ) (e e' : FsTriggersScheduler W) (r : Option Error × Bool)
      → IsTable e.path_triggers
      → unschedule fsnotify unmarshal id e ≡ done (e', r.0, r.1)
      → IsTable e'.path_triggers
  unfolding unschedule
  unschedule-IsTable id e e' r v h =
      grind (arith, insert-IsTable, delete-IsTable, IsTable-lookup, delete-Distinct, delete-ne-nil)

  -- A trigger that is unscheduled by the spelling under which it is watched is watched no longer,
  -- and every other path and identifier keeps what it had.
  pub watched-unschedule :
      (id : ℕ) (t u : TaskTrigger) (path : Bytes) (e e' : FsTriggersScheduler W)
      (err : Option Error) (was : Bool) (p : Bytes) (i : ℕ)
      → IsTable e.path_triggers
      → lookup ℕ_discrete id e.triggers ≡ some t
      → unmarshal t.body ≡ some path
      → watched e.path_triggers path id ≡ some u
      → unschedule fsnotify unmarshal id e ≡ done (e', err, was)
      → (was ≡ true)
        × (watched e'.path_triggers p i
            ≡ ite
                (Bytes-discrete path p)
                (ite (ℕ_discrete id i) none (watched e.path_triggers p i))
                (watched e.path_triggers p i))
  unfolding unschedule watched
  watched-unschedule id t u path e e' err was p i v reg text w h =
      (ground arith, grind (arith, lookup-insert, lookup-delete, IsTable-lookup, delete-length_one))

  -- A trigger whose spelling of the path is no key of the table is not unscheduled: nothing
  -- changes, and the call reports that there was no such trigger.
  pub unschedule_misses :
      (id : ℕ) (t : TaskTrigger) (path : Bytes) (e : FsTriggersScheduler W)
      → lookup ℕ_discrete id e.triggers ≡ some t
      → unmarshal t.body ≡ some path
      → lookup Bytes-discrete path e.path_triggers ≡ none
      → unschedule fsnotify unmarshal id e ≡ done (e, none, false)
  unfolding unschedule
  unschedule_misses id t path e reg text absent = ground arith
