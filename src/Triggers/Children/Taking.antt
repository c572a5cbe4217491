-- ===== src/Triggers/Children/Taking.antt =====
-- scheduler.go: the three schedulers take an event trigger while the websocket client sends.
use telephonist_agent.Base.{
  ℕ, ◌≡◌, refl, Bytes, [], ◌∷◌, some, none, done, inl, arith, lookup, Bytes-discrete, insert,
  ℕ_discrete,
}
use telephonist_agent.Task.{
  TaskTrigger, UnmarshalString, trigger_cron, trigger_event, trigger_fsnotify,
}
use telephonist_agent.Ws.{pumped}
use telephonist_agent.Queue.{EventQueue}
use telephonist_agent.Triggers.Cron.{Gocron, CronTriggersScheduler}
use telephonist_agent.Triggers.Fs.{Watcher, FsTriggersScheduler}
use telephonist_agent.Triggers.OnEvent.{TelephonistScheduler}
use telephonist_agent.Triggers.OnEvent.Taking.{schedule_by_id-takes}
use telephonist_agent.Triggers.Fs.Paths.{normalize_path}
use telephonist_agent.Triggers.Fs.Registration.{
  schedule_by_id-accepts, schedule_by_id-takes as takes,
}
use telephonist_agent.Triggers.Composite.{CompositeTriggersScheduler, schedule_by_id, routed}
use telephonist_agent.Triggers.Children.{
  Child, cron, on_event, fs, child_scheduler, child_schedule_by_id, scheduled_as,
}
use telephonist_agent.Triggers.Children.Reaching.{chosen-cron, chosen-event, chosen-file}
use telephonist_agent.Triggers.Cron as Cron
use telephonist_agent.Triggers.OnEvent as OnEvent

module _ {G J W : Type 0} (gocron : Gocron G J) (fsnotify : Watcher W) (unmarshal : UnmarshalString)
    (e : CompositeTriggersScheduler (Child G J W)) (c : CronTriggersScheduler G J)
    (t : TelephonistScheduler) (f : FsTriggersScheduler W)
    (children : e.child_schedulers ≡ cron c ∷ on_event t ∷ fs f ∷ []) where
  -- Over the three, when the event child has a queue and its client sends, `ScheduleByID` of an event
  -- trigger returns without an error, with the event child as its own call leaves it, the queue there and the
  -- client still sending.
  pub schedule_by_id-takes_event :
      (id : ℕ) (trigger : TaskTrigger) (event : Bytes) (q : EventQueue)
      → trigger.name ≡ trigger_event
      → unmarshal trigger.body ≡ some event
      → t.queue ≡ some q
      → t.client.send_messages ≡ pumped
      → (e' : CompositeTriggersScheduler (Child G J W)) × (t' : TelephonistScheduler)
        × (q' : EventQueue) × (schedule_by_id
              (child_scheduler gocron fsnotify unmarshal)
              id
              trigger
              e
            ≡ done (e', id, none))
        × (e'.child_schedulers ≡ cron c ∷ on_event t' ∷ fs f ∷ [])
        × (OnEvent.schedule_by_id unmarshal id trigger t ≡ done (t', id, none))
        × (t'.queue ≡ some q')
        × (t'.client.send_messages ≡ pumped)
  unfolding schedule_by_id child_scheduler child_schedule_by_id scheduled_as routed
  schedule_by_id-takes_event id trigger event q name body on p =
      let (t', called, q', on', p') =
        schedule_by_id-takes unmarshal id trigger event t q name body on p in
      let chosen = chosen-event gocron fsnotify unmarshal e c t f children trigger name in
      (
        record e {
          child_schedulers = cron c ∷ on_event t' ∷ fs f ∷ [];
          ids = insert ℕ_discrete id 1 e.ids;
        },
        t',
        q',
        rw (schedule_by_id, chosen, called, children) refl,
        refl,
        called,
        on',
        p',
      )

  -- Over the three, when the watcher takes the path of a trigger of type fsnotify and no trigger of the
  -- file child is on it, `ScheduleByID` of the trigger returns without an error. The path then has just
  -- that trigger, and the file child keeps its callback.
  pub schedule_by_id-takes_file :
      (id : ℕ) (trigger : TaskTrigger) (text : Bytes) (w : W)
      → trigger.name ≡ trigger_fsnotify
      → unmarshal trigger.body ≡ some text
      → lookup Bytes-discrete (normalize_path text) f.path_triggers ≡ none
      → fsnotify.add (normalize_path text) f.watcher ≡ (w, none)
      → (e' : CompositeTriggersScheduler (Child G J W)) × (f' : FsTriggersScheduler W)
        × (schedule_by_id (child_scheduler gocron fsnotify unmarshal) id trigger e
            ≡ done (e', id, none))
        × (e'.child_schedulers ≡ cron c ∷ on_event t ∷ fs f' ∷ [])
        × (f'.path_triggers
            ≡ insert Bytes-discrete (normalize_path text) ((id, trigger) ∷ []) f.path_triggers)
        × (f'.has_callback ≡ f.has_callback)
  unfolding schedule_by_id child_scheduler child_schedule_by_id scheduled_as routed
  schedule_by_id-takes_file id trigger text w name body free taken =
      let (f', called, paths, callback) =
        takes fsnotify unmarshal id trigger text f w name body free taken in
      let chosen = chosen-file gocron fsnotify unmarshal e c t f children trigger name in
      (
        record e {
          child_schedulers = cron c ∷ on_event t ∷ fs f' ∷ [];
          ids = insert ℕ_discrete id 2 e.ids;
        },
        f',
        rw (schedule_by_id, chosen, called, children) refl,
        refl,
        paths,
        callback,
      )

  -- Over the three, when the watcher takes the path of a trigger of type fsnotify whenever it is given it,
  -- `ScheduleByID` of the trigger returns without an error, and only the file child changes.
  pub schedule_by_id-accepts_file :
      (id : ℕ) (trigger : TaskTrigger) (text : Bytes)
      → trigger.name ≡ trigger_fsnotify
      → unmarshal trigger.body ≡ some text
      → ((w : W) → (w' : W) × (fsnotify.add (normalize_path text) w ≡ (w', none)))
      → (e' : CompositeTriggersScheduler (Child G J W)) × (f' : FsTriggersScheduler W)
        × (schedule_by_id (child_scheduler gocron fsnotify unmarshal) id trigger e
            ≡ done (e', id, none))
        × (e'.child_schedulers ≡ cron c ∷ on_event t ∷ fs f' ∷ [])
  unfolding schedule_by_id child_scheduler child_schedule_by_id scheduled_as routed
  schedule_by_id-accepts_file id trigger text name body accepts =
      let (f', called) =
        schedule_by_id-accepts fsnotify unmarshal id trigger text f name body accepts in
      let chosen = chosen-file gocron fsnotify unmarshal e c t f children trigger name in
      (
        record e {
          child_schedulers = cron c ∷ on_event t ∷ fs f' ∷ [];
          ids = insert ℕ_discrete id 2 e.ids;
        },
        f',
        rw (schedule_by_id, chosen, called, children) refl,
        refl,
      )

  cron_schedule_by_id-takes :
      (id : ℕ) (trigger : TaskTrigger) (expression : Bytes) (g : G) (job : J)
      → trigger.name ≡ trigger_cron
      → unmarshal trigger.body ≡ some expression
      → gocron.cron_do expression id trigger c.cron_scheduler ≡ (g, inl job)
      → Cron.schedule_by_id gocron unmarshal id trigger c
        ≡ done (record c { cron_scheduler = g; jobs = insert ℕ_discrete id job c.jobs }, id, none)
  unfolding Cron.schedule_by_id
  cron_schedule_by_id-takes id trigger expression g job name body accepted = ground arith

  -- Over the three, when the cron library takes the expression of a trigger of type cron, `ScheduleByID` of
  -- the trigger returns without an error, and the cron child keeps the job under the identifier.
  pub schedule_by_id-takes_cron :
      (id : ℕ) (trigger : TaskTrigger) (expression : Bytes) (g : G) (job : J)
      → trigger.name ≡ trigger_cron
      → unmarshal trigger.body ≡ some expression
      → gocron.cron_do expression id trigger c.cron_scheduler ≡ (g, inl job)
      → (e' : CompositeTriggersScheduler (Child G J W)) × (schedule_by_id
            (child_scheduler gocron fsnotify unmarshal)
            id
            trigger
            e
          ≡ done (e', id, none))
        × (e'.child_schedulers
            ≡ cron (record c { cron_scheduler = g; jobs = insert ℕ_discrete id job c.jobs })
              ∷ on_event t
              ∷ fs f
              ∷ [])
  unfolding schedule_by_id child_scheduler child_schedule_by_id scheduled_as routed
  schedule_by_id-takes_cron id trigger expression g job name body accepted =
      let called = cron_schedule_by_id-takes id trigger expression g job name body accepted in
      let chosen = chosen-cron gocron fsnotify unmarshal e c t f children trigger name in
      (
        record e {
          child_schedulers =
              cron (record c { cron_scheduler = g; jobs = insert ℕ_discrete id job c.jobs })
              ∷ on_event t
              ∷ fs f
              ∷ [];
          ids = insert ℕ_discrete id 0 e.ids;
        },
        rw (schedule_by_id, chosen, called, children) refl,
        refl,
      )
