-- ===== src/Triggers/Cron.antt =====
-- taskscheduler/trigger_scheduler.go: `CronTriggersScheduler`, over the scheduler of
-- github.com/go-co-op/gocron.
use telephonist_agent.Base.{
  ℕ, ◌⊎◌, inl, inr, Bytes, List, [], ◌∷◌, Bool, true, false, Option, none, some, Map, lookup,
  insert, Bytes-discrete, ℕ_discrete, ite, Go, done, panic, ◌>>=◌,
}
use telephonist_agent.Errors.{Error}
use telephonist_agent.Task.{must_string, TaskTrigger, UnmarshalString, trigger_cron}
use telephonist_agent.Task.Id.{trigger_id}
use telephonist_agent.Triggers.{TriggeredEvent, TriggersScheduler}

-- `Cron(expr).Do(f, id, trigger)` gives a job or an error.
pub record Gocron (G J : Type 0) : Type 0 where
  pub cron_do : Bytes → ℕ → TaskTrigger → G → G × (J ⊎ Error)
  pub remove_by_reference : J → G → G
  pub start_async : G → G
  pub stop : G → G
  pub is_running : G → Bool

pub record CronTriggersScheduler (G J : Type 0) : Type 0 where
  pub cron_scheduler : G
  pub has_callback : Bool
  pub jobs : Map ℕ J

unfoldable pub new_cron_triggers_scheduler : {G J : Type 0} → G → CronTriggersScheduler G J
new_cron_triggers_scheduler g = record { cron_scheduler = g; has_callback = false; jobs = [] }

module _ {G J : Type 0} (gocron : Gocron G J) (unmarshal : UnmarshalString) where
  unfoldable pub can_schedule : CronTriggersScheduler G J → Bytes → Bool
  can_schedule e trigger_type = ite (Bytes-discrete trigger_type trigger_cron) true false

  -- The job is kept under its identifier, if the expression is accepted.
  add_job :
      ℕ → CronTriggersScheduler G J → G × (J ⊎ Error) → CronTriggersScheduler G J × ℕ × Option Error
  add_job id e (g, inr err) = (record e { cron_scheduler = g }, 0, some err)
  add_job id e (g, inl job) =
      (record e { cron_scheduler = g; jobs = insert ℕ_discrete id job e.jobs }, id, none)

  unfoldable pub schedule_by_id :
      ℕ
      → TaskTrigger
      → CronTriggersScheduler G J
      → Go (CronTriggersScheduler G J × ℕ × Option Error)
  unfolding add_job
  schedule_by_id id trigger e =
      ite (Bytes-discrete trigger.name trigger_cron)
        (do
          expression ← must_string unmarshal trigger
          done (add_job id e (gocron.cron_do expression id trigger e.cron_scheduler)))
        panic

  unfoldable pub schedule :
      TaskTrigger → CronTriggersScheduler G J → Go (CronTriggersScheduler G J × ℕ × Option Error)
  unfolding schedule_by_id
  schedule trigger e = schedule_by_id (trigger_id trigger) trigger e

  -- `trigger`, which the cron library calls when a job is due.
  unfoldable pub trigger_job : ℕ → TaskTrigger → CronTriggersScheduler G J → List TriggeredEvent
  trigger_job id t e = elim e.has_callback [
    | true ↦ record { trigger_id = id; trigger = t; params = [] } ∷ []
    | false ↦ []
  ]

  unfoldable pub unschedule :
      ℕ → CronTriggersScheduler G J → Go (CronTriggersScheduler G J × Option Error × Bool)
  unschedule id e = elim (lookup ℕ_discrete id e.jobs) [
    | some job ↦
        done (
          record e { cron_scheduler = gocron.remove_by_reference job e.cron_scheduler },
          none,
          true,
        )
    | none ↦ done (e, none, false)
  ]

  unfoldable pub cron_triggers_scheduler : TriggersScheduler (CronTriggersScheduler G J)
  unfolding can_schedule schedule schedule_by_id unschedule
  cron_triggers_scheduler = record {
    can_schedule = can_schedule;
    schedule = schedule;
    schedule_by_id = schedule_by_id;
    unschedule = unschedule;
    start = λ e. done (record e { cron_scheduler = gocron.start_async e.cron_scheduler }, none);
    stop = λ e. done (record e { cron_scheduler = gocron.stop e.cron_scheduler });
    is_running = λ e. gocron.is_running e.cron_scheduler;
    set_callback = λ set e. record e { has_callback = set };
  }
