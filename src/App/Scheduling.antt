-- ===== src/App/Scheduling.antt =====
-- taskscheduler/task_scheduler.go over the three schedulers of taskscheduler/scheduler.go: `Schedule`
-- of a task with any triggers that they can take.
use telephonist_agent.Base.{
  ◌≡◌, ◌⊎◌, inl, inr, Bytes, [], ◌∷◌, none, some, lookup, ℕ_discrete, done,
}
use telephonist_agent.Task.{
  TaskTrigger, DefinedTask, UnmarshalString, trigger_cron, trigger_event, trigger_fsnotify,
}
use telephonist_agent.Task.Id.{trigger_id}
use telephonist_agent.Ws.{pumped}
use telephonist_agent.Queue.{EventQueue}
use telephonist_agent.Triggers.Cron.{Gocron, CronTriggersScheduler}
use telephonist_agent.Triggers.Fs.{Watcher, FsTriggersScheduler}
use telephonist_agent.Triggers.Fs.Paths.{normalize_path}
use telephonist_agent.Triggers.OnEvent.{TelephonistScheduler}
use telephonist_agent.Triggers.Composite.{CompositeTriggersScheduler, composite_triggers_scheduler}
use telephonist_agent.Triggers.Children.{Child, cron, on_event, fs, trigger_executor}
use telephonist_agent.Triggers.Children.Taking.{
  schedule_by_id-takes_event, schedule_by_id-takes_cron, schedule_by_id-accepts_file,
}
use telephonist_agent.Tasks.{TaskScheduler, ScheduledTask, schedule}
use telephonist_agent.Tasks.Updating.{AllOk, Takes}
use telephonist_agent.Tasks.Schedule.{AllRunNow, schedule-runs}
use telephonist_agent.Tasks.Returning.{IsLinked, schedule-returns}

-- The executor has the three schedulers, the event scheduler a queue, and the client sends.
abbrev pub IsReady : {G J W : Type 0} → CompositeTriggersScheduler (Child G J W) → Type 0
IsReady {G} {J} {W} e =
    (c : CronTriggersScheduler G J) × (t : TelephonistScheduler) × (f : FsTriggersScheduler W)
    × (q : EventQueue) × (e.child_schedulers ≡ cron c ∷ on_event t ∷ fs f ∷ [])
    × (t.queue ≡ some q)
    × (t.client.send_messages ≡ pumped)

module _ {G J W : Type 0} (gocron : Gocron G J) (fsnotify : Watcher W)
    (unmarshal : UnmarshalString) where
  -- A trigger on an event, on an expression that the cron library takes, or on a path that the watcher
  -- takes.
  abbrev pub IsFit : TaskTrigger → Type 0
  IsFit t =
      ((t.name ≡ trigger_event) × ((event : Bytes) × (unmarshal t.body ≡ some event)))
      ⊎ (((t.name ≡ trigger_cron)
            × ((expression : Bytes) × (unmarshal t.body ≡ some expression)
                × ((g : G)
                    → (g' : G) × (job : J) × (gocron.cron_do expression (trigger_id t) t g
                        ≡ (g', inl job)))))
          ⊎ ((t.name ≡ trigger_fsnotify)
              × ((text : Bytes) × (unmarshal t.body ≡ some text)
                  × ((w : W) → (w' : W) × (fsnotify.add (normalize_path text) w ≡ (w', none))))))

  executor-Takes : Takes (trigger_executor gocron fsnotify unmarshal) IsReady IsFit
  unfolding trigger_executor composite_triggers_scheduler
  executor-Takes trigger e (c, t, f, q, children, on, p) (inl (name, (event, body))) =
      let (e', t', q', taken, after, _, on', p') =
        schedule_by_id-takes_event gocron fsnotify unmarshal e c t f children (trigger_id trigger)
          trigger event q name body on p in
      (e', trigger_id trigger, taken, (c, t', f, q', after, on', p'))
  executor-Takes trigger e (c, t, f, q, children, on, p)
        (inr (inl (name, (expression, body, accepts)))) =
      let (g, job, accepted) = accepts c.cron_scheduler in
      let (e', taken, after) =
        schedule_by_id-takes_cron gocron fsnotify unmarshal e c t f children (trigger_id trigger)
          trigger expression g job name body accepted in
      (e', trigger_id trigger, taken, (_, t, f, q, after, on, p))
  executor-Takes trigger e (c, t, f, q, children, on, p) (inr (inr (name, (text, body, accepts)))) =
      let (e', f', taken, after) =
        schedule_by_id-accepts_file gocron fsnotify unmarshal e c t f children (trigger_id trigger)
          trigger text name body accepts in
      (e', trigger_id trigger, taken, (c, t, f', q, after, on, p))

  pub executor_schedule-runs :
      (task : DefinedTask) (e e' : TaskScheduler (CompositeTriggersScheduler (Child G J W)))
      → IsReady e.triggers_scheduler
      → AllOk IsFit task.triggers
      → schedule (trigger_executor gocron fsnotify unmarshal) task e ≡ done e'
      → ((st : ScheduledTask) × (lookup ℕ_discrete task.id e'.tasks ≡ some st)
          × (st.defined_task ≡ task))
        × AllRunNow e' task.id task task.triggers
  executor_schedule-runs task e e' good oks h =
      schedule-runs (trigger_executor gocron fsnotify unmarshal) IsReady IsFit executor-Takes task e
        e' good oks h

  -- Over the three schedulers, when the event scheduler has a queue and its client sends, each trigger of
  -- the task is on an event, on an expression that the cron library takes or on a path that the watcher
  -- takes, every trigger that a task lists as scheduled has an entry in `triggerTasks`, and the task is a
  -- new one, `Schedule` returns. The three are then ready for the next task, and every scheduled trigger
  -- has an entry.
  pub executor_schedule-returns :
      (task : DefinedTask) (e : TaskScheduler (CompositeTriggersScheduler (Child G J W)))
      → IsReady e.triggers_scheduler
      → AllOk IsFit task.triggers
      → IsLinked e
      → lookup ℕ_discrete task.id e.tasks ≡ none
      → (e' : TaskScheduler (CompositeTriggersScheduler (Child G J W))) × (schedule
            (trigger_executor gocron fsnotify unmarshal)
            task
            e
          ≡ done e')
        × IsReady e'.triggers_scheduler
        × IsLinked e'
  executor_schedule-returns task e good oks v new =
      schedule-returns (trigger_executor gocron fsnotify unmarshal) IsReady IsFit executor-Takes
        task e good oks v new
