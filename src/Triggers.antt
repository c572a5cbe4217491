-- ===== src/Triggers.antt =====
-- taskscheduler/trigger_scheduler.go: what every scheduler of triggers is, and what it reports.
pub mod Cron
pub mod Fs
pub mod OnEvent
pub mod Composite
pub mod Children
pub mod Explaining
use telephonist_agent.Base.{ℕ, Bytes, Bool, Option, Map, Go}
use telephonist_agent.Errors.{Error}
use telephonist_agent.Task.{TaskTrigger}

-- A call of the callback. The parameters are texts.
pub record TriggeredEvent : Type 0 where
  pub trigger_id : ℕ
  pub trigger : TaskTrigger
  pub params : Map Bytes Bytes

-- The methods of the interface `TriggersScheduler`, over a scheduler's state. A callback is known
-- by whether it is set; its calls are the events that the schedulers give out.
pub record TriggersScheduler (S : Type 0) : Type 0 where
  pub can_schedule : S → Bytes → Bool
  pub schedule : TaskTrigger → S → Go (S × ℕ × Option Error)
  pub schedule_by_id : ℕ → TaskTrigger → S → Go (S × ℕ × Option Error)
  pub unschedule : ℕ → S → Go (S × Option Error × Bool)
  pub start : S → Go (S × Option Error)
  pub stop : S → Go S
  pub is_running : S → Bool
  pub set_callback : Bool → S → S
