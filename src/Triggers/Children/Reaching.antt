-- ===== src/Triggers/Children/Reaching.antt =====
-- scheduler.go: which of the three schedulers a trigger reaches.
use telephonist_agent.Base.{
  ℕ, ◌≡◌, ◌↔◌, ◌⊎◌, refl, Bytes, [], ◌∷◌, true, false, Option, none, some, Bytes-discrete, lookup,
  ite, done, Go, ne-nil_of_lookup, arith, >>=-eq-done, sym, ℕ_discrete,
}
use mathlib.Core.Path.{subst, subst₂}
use telephonist_agent.Errors.{Error}
use telephonist_agent.Task.{
  TaskTrigger, UnmarshalString, trigger_cron, trigger_event, trigger_fsnotify,
}
use telephonist_agent.Queue.{EventQueue, is_subscribed}
use telephonist_agent.Triggers.Cron.{Gocron, CronTriggersScheduler}
use telephonist_agent.Triggers.Fs.{Watcher, FsTriggersScheduler}
use telephonist_agent.Triggers.OnEvent.{TelephonistScheduler}
use telephonist_agent.Triggers.OnEvent.Counters.{triggers_of}
use telephonist_agent.Triggers.OnEvent.Agreement.{IsConsistent}
use telephonist_agent.Triggers.OnEvent.Consistency.{
  schedule_by_id-IsConsistent, schedule_by_id-files, is_subscribed_iff,
}
use telephonist_agent.Triggers.Composite.{
  CompositeTriggersScheduler, can_schedule, first_able, schedule_by_id, routed,
}
use telephonist_agent.Triggers.Children.{
  Child, cron, on_event, fs, child_scheduler, child_schedule_by_id, child_can_schedule, mapped,
  scheduled_as,
}
use telephonist_agent.Triggers.Cron as Cron
use telephonist_agent.Triggers.Fs as Fs
use telephonist_agent.Triggers.OnEvent as OnEvent

-- The queue of a consistent scheduler is subscribed to the event of every trigger that is filed.
pub subscribed-filed :
    (unmarshal : UnmarshalString) (t : TelephonistScheduler) (id : ℕ) (trigger : TaskTrigger)
    (event : Bytes) (q : EventQueue)
    → IsConsistent unmarshal t
    → lookup ℕ_discrete id t.triggers ≡ some trigger
    → unmarshal trigger.body ≡ some event
    → t.queue ≡ some q
    → is_subscribed event q ≡ true
subscribed-filed unmarshal t id trigger event q v filed body on =
    let (ev, read, there) = v.filed id trigger filed in
    let there' : lookup ℕ_discrete id (triggers_of t event) ≡ some trigger =
      subst (λ x. lookup ℕ_discrete id (triggers_of t x) ≡ some trigger) (ground arith) there in
    (is_subscribed_iff unmarshal t q event v on).1
      (ne-nil_of_lookup ℕ_discrete id trigger (triggers_of t event) there')

module _ {G J W : Type 0} (gocron : Gocron G J) (fsnotify : Watcher W)
    (unmarshal : UnmarshalString) where
  module _ (e : CompositeTriggersScheduler (Child G J W)) (c : CronTriggersScheduler G J)
      (t : TelephonistScheduler) (f : FsTriggersScheduler W)
      (children : e.child_schedulers ≡ cron c ∷ on_event t ∷ fs f ∷ []) where
    -- The first of the three that can schedule the type, by the three comparisons.
    can_schedule-choice :
        (name : Bytes)
        → can_schedule (child_scheduler gocron fsnotify unmarshal) e name
          ≡ ite (Bytes-discrete name trigger_cron) true (
              ite
                (Bytes-discrete name trigger_event)
                true
                (ite (Bytes-discrete name trigger_fsnotify) true false))
    unfolding can_schedule first_able child_scheduler Cron.can_schedule Fs.can_schedule
        OnEvent.can_schedule
    can_schedule-choice name = rw children (ground arith)

    -- The composite scheduler over the three can schedule just the types cron, event and fsnotify.
    pub can_schedule_types :
        (name : Bytes)
        → (can_schedule (child_scheduler gocron fsnotify unmarshal) e name ≡ true)
          ↔ ((name ≡ trigger_cron) ⊎ ((name ≡ trigger_event) ⊎ (name ≡ trigger_fsnotify)))
    can_schedule_types name = ground (arith, can_schedule-choice name)

    first_able-event :
        first_able
          (child_scheduler gocron fsnotify unmarshal)
          0
          trigger_event
          (cron c ∷ on_event t ∷ fs f ∷ [])
        ≡ some (1, on_event t)
    unfolding first_able child_scheduler child_can_schedule Cron.can_schedule OnEvent.can_schedule
        Bytes-discrete
    first_able-event = refl

    -- A trigger of type event goes to the second child.
    pub chosen-event :
        (trigger : TaskTrigger)
        → trigger.name ≡ trigger_event
        → first_able (child_scheduler gocron fsnotify unmarshal) 0 trigger.name e.child_schedulers
          ≡ some (1, on_event t)
    chosen-event trigger name =
        subst₂
          (λ n l.
            first_able (child_scheduler gocron fsnotify unmarshal) 0 n l ≡ some (1, on_event t))
          (sym name) (sym children) first_able-event

    first_able-file :
        first_able
          (child_scheduler gocron fsnotify unmarshal)
          0
          trigger_fsnotify
          (cron c ∷ on_event t ∷ fs f ∷ [])
        ≡ some (2, fs f)
    unfolding first_able child_scheduler child_can_schedule Cron.can_schedule OnEvent.can_schedule
        Fs.can_schedule Bytes-discrete
    first_able-file = refl

    first_able-cron :
        first_able
          (child_scheduler gocron fsnotify unmarshal)
          0
          trigger_cron
          (cron c ∷ on_event t ∷ fs f ∷ [])
        ≡ some (0, cron c)
    unfolding first_able child_scheduler child_can_schedule Cron.can_schedule Bytes-discrete
    first_able-cron = refl

    -- A trigger of type cron goes to the first child.
    pub chosen-cron :
        (trigger : TaskTrigger)
        → trigger.name ≡ trigger_cron
        → first_able (child_scheduler gocron fsnotify unmarshal) 0 trigger.name e.child_schedulers
          ≡ some (0, cron c)
    chosen-cron trigger name =
        subst₂
          (λ n l. first_able (child_scheduler gocron fsnotify unmarshal) 0 n l ≡ some (0, cron c))
          (sym name) (sym children) first_able-cron

    -- A trigger of type fsnotify goes to the third child.
    pub chosen-file :
        (trigger : TaskTrigger)
        → trigger.name ≡ trigger_fsnotify
        → first_able (child_scheduler gocron fsnotify unmarshal) 0 trigger.name e.child_schedulers
          ≡ some (2, fs f)
    chosen-file trigger name =
        subst₂
          (λ n l. first_able (child_scheduler gocron fsnotify unmarshal) 0 n l ≡ some (2, fs f))
          (sym name) (sym children) first_able-file

    routed-event :
        (r : TelephonistScheduler × ℕ × Option Error) (r' : Child G J W × ℕ × Option Error)
        (e' : CompositeTriggersScheduler (Child G J W)) (id' : ℕ) (err : Option Error)
        → ◌≡◌ {A = Go (Child G J W × ℕ × Option Error)} (done (scheduled_as on_event r)) (done r')
        → ◌≡◌ {A = Go (CompositeTriggersScheduler (Child G J W) × ℕ × Option Error)}
            (done (routed (child_scheduler gocron fsnotify unmarshal) 1 e r'))
            (done (e', id', err))
        → r.2 ≡ none
        → (err ≡ none) × (id' ≡ r.1) × (e'.child_schedulers ≡ cron c ∷ on_event r.0 ∷ fs f ∷ [])
    unfolding routed scheduled_as
    routed-event (t', i, none) r' e' id' err h h' fine = (ground arith, ground arith, ground arith)
    routed-event (t', i, some x) r' e' id' err h h' fine = absurd (ground arith)

    -- Over the three, with an event child whose counters agree with its triggers and with the
    -- subscriptions of its queue, a call of `ScheduleByID` that returns for a trigger of type event, with
    -- an identifier that the event child does not use, reports no error and the same identifier, leaves
    -- the other two children as they are, the event child consistent, with the trigger filed and the
    -- callback it had, and its queue, if it has one, subscribed to the event.
    pub event_trigger_subscribes :
        (id : ℕ) (trigger : TaskTrigger) (event : Bytes)
        (e' : CompositeTriggersScheduler (Child G J W)) (id' : ℕ) (err : Option Error)
        → trigger.name ≡ trigger_event
        → unmarshal trigger.body ≡ some event
        → IsConsistent unmarshal t
        → lookup ℕ_discrete id t.triggers ≡ none
        → schedule_by_id (child_scheduler gocron fsnotify unmarshal) id trigger e
          ≡ done (e', id', err)
        → (err ≡ none)
          × (id' ≡ id)
          × (t' : TelephonistScheduler) × (e'.child_schedulers ≡ cron c ∷ on_event t' ∷ fs f ∷ [])
          × IsConsistent unmarshal t'
          × (lookup ℕ_discrete id t'.triggers ≡ some trigger)
          × (t'.has_callback ≡ t.has_callback)
          × ((q : EventQueue) → t'.queue ≡ some q → is_subscribed event q ≡ true)
    unfolding schedule_by_id child_scheduler child_schedule_by_id scheduled_as routed
    event_trigger_subscribes id trigger event e' id' err name body v fresh h =
        let chosen = chosen-event trigger name in
        let (r, called, same) =
          >>=-eq-done {B = CompositeTriggersScheduler (Child G J W) × ℕ × Option Error}
            (mapped (scheduled_as on_event) (OnEvent.schedule_by_id unmarshal id trigger t))
            (λ x. done (routed (child_scheduler gocron fsnotify unmarshal) 1 e x))
            {b = (e', id', err)} (rw (chosen, schedule_by_id) at h) in
        let (r1, called1, same1) =
          >>=-eq-done {B = Child G J W × ℕ × Option Error}
            (OnEvent.schedule_by_id unmarshal id trigger t) (λ x. done (scheduled_as on_event x))
            {b = r} called in
        let (filed, same_id, fine, callback) =
          schedule_by_id-files unmarshal id trigger t r1.0 r1.1 r1.2 called1 in
        let v' =
          schedule_by_id-IsConsistent unmarshal id trigger t r1.0 r1.1 r1.2 v fresh called1 in
        let (ok, given, after) = routed-event r1 r e' id' err same1 same fine in
        (
          ok,
          ground arith,
          r1.0,
          after,
          v',
          filed,
          callback,
          λ q on. subscribed-filed unmarshal r1.0 id trigger event q v' filed body on,
        )
