-- ===== src/Triggers/Children.antt =====
-- scheduler.go: `createExecutor`, which puts the three schedulers of triggers under a composite one.
pub mod Reaching
pub mod Taking
use telephonist_agent.Base.{ℕ, Bytes, [], ◌∷◌, Bool, Option, Go, done, ◌>>=◌}
use telephonist_agent.Errors.{Error}
use telephonist_agent.Task.{TaskTrigger, UnmarshalString}
use telephonist_agent.Ws.{WsClient}
use telephonist_agent.Triggers.{TriggersScheduler}
use telephonist_agent.Triggers.Cron.{
  Gocron, CronTriggersScheduler, new_cron_triggers_scheduler, cron_triggers_scheduler,
}
use telephonist_agent.Triggers.Fs.{
  Watcher, FsTriggersScheduler, new_fs_triggers_scheduler, fs_triggers_scheduler,
}
use telephonist_agent.Triggers.OnEvent.{
  TelephonistScheduler, new_telephonist_scheduler, telephonist_triggers_scheduler,
}
use telephonist_agent.Triggers.Composite.{
  CompositeTriggersScheduler, new_composite_triggers_scheduler, composite_triggers_scheduler,
}

-- A value of the interface `TriggersScheduler`, by its type.
pub data Child (G J W : Type 0) : Type 0 where
  cron : CronTriggersScheduler G J → Child G J W
  on_event : TelephonistScheduler → Child G J W
  fs : FsTriggersScheduler W → Child G J W

-- The results of a method, with the state as a value of the interface.
unfoldable pub scheduled_as : {A B : Type 0} → (A → B) → A × ℕ × Option Error → B × ℕ × Option Error
scheduled_as f (a, id, err) = (f a, id, err)

unscheduled : {A B : Type 0} → (A → B) → A × Option Error × Bool → B × Option Error × Bool
unscheduled f (a, err, was) = (f a, err, was)

started : {A B : Type 0} → (A → B) → A × Option Error → B × Option Error
started f (a, err) = (f a, err)

abbrev mapped : {A B : Type 0} → (A → B) → Go A → Go B
mapped f m = m >>= λ a. done (f a)

module _ {G J W : Type 0} (gocron : Gocron G J) (fsnotify : Watcher W)
    (unmarshal : UnmarshalString) where
  abbrev cron_ops : TriggersScheduler (CronTriggersScheduler G J)
  cron_ops = cron_triggers_scheduler gocron unmarshal

  abbrev event_ops : TriggersScheduler TelephonistScheduler
  event_ops = telephonist_triggers_scheduler unmarshal

  abbrev fs_ops : TriggersScheduler (FsTriggersScheduler W)
  fs_ops = fs_triggers_scheduler fsnotify unmarshal

  unfoldable pub child_can_schedule : Child G J W → Bytes → Bool
  child_can_schedule (cron e) name = cron_ops.can_schedule e name
  child_can_schedule (on_event e) name = event_ops.can_schedule e name
  child_can_schedule (fs e) name = fs_ops.can_schedule e name

  child_schedule : TaskTrigger → Child G J W → Go (Child G J W × ℕ × Option Error)
  unfolding scheduled_as
  child_schedule t (cron e) = mapped (scheduled_as cron) (cron_ops.schedule t e)
  child_schedule t (on_event e) = mapped (scheduled_as on_event) (event_ops.schedule t e)
  child_schedule t (fs e) = mapped (scheduled_as fs) (fs_ops.schedule t e)

  unfoldable pub child_schedule_by_id :
      ℕ → TaskTrigger → Child G J W → Go (Child G J W × ℕ × Option Error)
  unfolding scheduled_as
  child_schedule_by_id id t (cron e) = mapped (scheduled_as cron) (cron_ops.schedule_by_id id t e)
  child_schedule_by_id id t (on_event e) =
      mapped (scheduled_as on_event) (event_ops.schedule_by_id id t e)
  child_schedule_by_id id t (fs e) = mapped (scheduled_as fs) (fs_ops.schedule_by_id id t e)

  child_unschedule : ℕ → Child G J W → Go (Child G J W × Option Error × Bool)
  unfolding unscheduled
  child_unschedule id (cron e) = mapped (unscheduled cron) (cron_ops.unschedule id e)
  child_unschedule id (on_event e) = mapped (unscheduled on_event) (event_ops.unschedule id e)
  child_unschedule id (fs e) = mapped (unscheduled fs) (fs_ops.unschedule id e)

  child_start : Child G J W → Go (Child G J W × Option Error)
  unfolding started
  child_start (cron e) = mapped (started cron) (cron_ops.start e)
  child_start (on_event e) = mapped (started on_event) (event_ops.start e)
  child_start (fs e) = mapped (started fs) (fs_ops.start e)

  child_stop : Child G J W → Go (Child G J W)
  child_stop (cron e) = mapped cron (cron_ops.stop e)
  child_stop (on_event e) = mapped on_event (event_ops.stop e)
  child_stop (fs e) = mapped fs (fs_ops.stop e)

  child_is_running : Child G J W → Bool
  child_is_running (cron e) = cron_ops.is_running e
  child_is_running (on_event e) = event_ops.is_running e
  child_is_running (fs e) = fs_ops.is_running e

  child_set_callback : Bool → Child G J W → Child G J W
  child_set_callback set (cron e) = cron (cron_ops.set_callback set e)
  child_set_callback set (on_event e) = on_event (event_ops.set_callback set e)
  child_set_callback set (fs e) = fs (fs_ops.set_callback set e)

  -- The calls of the interface's methods, which go to the value's own.
  unfoldable pub child_scheduler : TriggersScheduler (Child G J W)
  unfolding child_can_schedule child_schedule child_schedule_by_id child_unschedule child_start
      child_stop child_is_running child_set_callback cron_triggers_scheduler
      telephonist_triggers_scheduler fs_triggers_scheduler
  child_scheduler = record {
    can_schedule = child_can_schedule;
    schedule = child_schedule;
    schedule_by_id = child_schedule_by_id;
    unschedule = child_unschedule;
    start = child_start;
    stop = child_stop;
    is_running = child_is_running;
    set_callback = child_set_callback;
  }

  unfoldable pub trigger_executor : TriggersScheduler (CompositeTriggersScheduler (Child G J W))
  trigger_executor = composite_triggers_scheduler child_scheduler

module _ {G J W : Type 0} where
  -- The composite scheduler of `createExecutor`, over a new cron scheduler, the websocket client and a
  -- new watcher.
  unfoldable pub new_trigger_executor : G → WsClient → W → CompositeTriggersScheduler (Child G J W)
  new_trigger_executor g wsc w = new_composite_triggers_scheduler (
      cron (new_cron_triggers_scheduler g)
      ∷ on_event (new_telephonist_scheduler wsc)
      ∷ fs (new_fs_triggers_scheduler w)
      ∷ [])
