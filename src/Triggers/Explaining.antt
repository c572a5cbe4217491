-- ===== src/Triggers/Explaining.antt =====
-- taskscheduler/trigger_scheduler.go: what the schedulers of triggers say of themselves.
use telephonist_agent.Base.{
  ◌≡◌, refl, Bytes, codes, List, [], ◌∷◌, true, false, Bytes-discrete, ite, Option, none, some, ℕ,
  ◌+◌, arith, Bool,
}
use telephonist_agent.Base.Sets.{
  contains, add_to_set, IsSetLike, add_to_set-IsSetLike, contains-add_to_set,
}
use telephonist_agent.Task.{UnmarshalString, trigger_cron, trigger_event, trigger_fsnotify}
use telephonist_agent.Triggers.{TriggersScheduler}
use telephonist_agent.Triggers.Cron.{Gocron, cron_triggers_scheduler}
use telephonist_agent.Triggers.Fs.{Watcher, fs_triggers_scheduler}
use telephonist_agent.Triggers.OnEvent.{telephonist_triggers_scheduler}
use telephonist_agent.Triggers.Composite.{
  CompositeTriggersScheduler, first_able, composite_triggers_scheduler,
}
use telephonist_agent.Triggers.Composite
use telephonist_agent.Triggers.Cron
use telephonist_agent.Triggers.OnEvent
use telephonist_agent.Triggers.Fs
use telephonist_agent.Triggers.Children.{
  Child, cron, on_event, fs, child_can_schedule, child_scheduler, trigger_executor,
}

-- `TriggersSchedulerInfo`; `details` is a map with one entry, if it is there.
mutual
  pub data TriggersSchedulerInfo : Type 0 where
    info : Bytes → List Bytes → Details → TriggersSchedulerInfo

  pub data Details : Type 0 where
    no_details : Details
    uses : Bytes → Details
    children : Infos → Details

  pub data Infos : Type 0 where
    nil : Infos
    cons : TriggersSchedulerInfo → Infos → Infos

abbrev pub allowed_trigger_types : TriggersSchedulerInfo → List Bytes
allowed_trigger_types (info name types other) = types

-- The inner loop of the composite scheduler's `Explain`, and the outer one.
unfoldable pub add_types : List Bytes → List Bytes → List Bytes
unfolding add_to_set contains
add_types allowed [] = allowed
add_types allowed (trigger_type ∷ rest) =
    add_types (add_to_set Bytes-discrete allowed trigger_type) rest

module _ {C : Type 0} (explain_child : C → TriggersSchedulerInfo) where
  unfoldable pub explained : List C → Infos
  explained [] = nil
  explained (scheduler ∷ rest) = cons (explain_child scheduler) (explained rest)

  unfoldable pub allowed_from : List Bytes → List C → List Bytes
  unfolding add_types
  allowed_from allowed [] = allowed
  allowed_from allowed (scheduler ∷ rest) =
      allowed_from (add_types allowed (allowed_trigger_types (explain_child scheduler))) rest

  unfoldable pub explain_composite : CompositeTriggersScheduler C → TriggersSchedulerInfo
  unfolding explained allowed_from
  explain_composite e =
      info (codes "CompositeTriggersScheduler") (allowed_from [] e.child_schedulers)
        (children (explained e.child_schedulers))

-- `Explain` of the three schedulers, and of a value of the interface.
unfoldable pub explain_cron : TriggersSchedulerInfo
explain_cron =
    info (codes "CronTriggersScheduler") (trigger_cron ∷ [])
      (uses (codes "github.com/go-co-op/gocron"))

unfoldable pub explain_fs : TriggersSchedulerInfo
explain_fs =
    info (codes "FSTriggersScheduler") (trigger_fsnotify ∷ [])
      (uses (codes "github.com/fsnotify/fsnotify"))

unfoldable pub explain_event : TriggersSchedulerInfo
explain_event = info (codes "TelephonistScheduler") (trigger_event ∷ []) no_details

unfoldable pub explain_child : {G J W : Type 0} → Child G J W → TriggersSchedulerInfo
unfolding explain_cron explain_fs explain_event
explain_child (cron e) = explain_cron
explain_child (on_event e) = explain_event
explain_child (fs e) = explain_fs

add_types-IsSetLike :
    (allowed types : List Bytes)
    → IsSetLike Bytes-discrete allowed
    → IsSetLike Bytes-discrete (add_types allowed types)
unfolding add_types
add_types-IsSetLike allowed [] s = s
add_types-IsSetLike allowed (t ∷ types) s =
    add_types-IsSetLike (add_to_set Bytes-discrete allowed t) types
      (add_to_set-IsSetLike Bytes-discrete allowed t s)

contains-add_types :
    (allowed types : List Bytes) (t : Bytes)
    → contains Bytes-discrete (add_types allowed types) t ≡ elim (contains Bytes-discrete types t) [
      | true ↦ true
      | false ↦ contains Bytes-discrete allowed t
    ]
unfolding add_types contains
contains-add_types allowed [] t = refl
contains-add_types allowed (x ∷ types) t = ground (
  arith,
  contains-add_types (add_to_set Bytes-discrete allowed x) types t,
  contains-add_to_set Bytes-discrete allowed x t,
)

abbrev is_there : {A : Type 0} → Option A → Bool
is_there none = false
is_there (some _) = true

module _ {C : Type 0} (ops : TriggersScheduler C) (explain_child : C → TriggersSchedulerInfo)
    (agrees : (c : C) (t : Bytes)
      → ops.can_schedule c t
        ≡ contains Bytes-discrete (allowed_trigger_types (explain_child c)) t) where
  allowed_from-IsSetLike :
      (allowed : List Bytes) (cs : List C)
      → IsSetLike Bytes-discrete allowed
      → IsSetLike Bytes-discrete (allowed_from explain_child allowed cs)
  unfolding allowed_from
  allowed_from-IsSetLike allowed [] s = s
  allowed_from-IsSetLike allowed (c ∷ cs) s =
      allowed_from-IsSetLike (add_types allowed (allowed_trigger_types (explain_child c))) cs
        (add_types-IsSetLike allowed (allowed_trigger_types (explain_child c)) s)

  contains-allowed_from :
      (index : ℕ) (allowed : List Bytes) (cs : List C) (t : Bytes)
      → contains Bytes-discrete (allowed_from explain_child allowed cs) t
        ≡ elim (is_there (first_able ops index t cs)) [
          | true ↦ true
          | false ↦ contains Bytes-discrete allowed t
        ]
  unfolding allowed_from first_able
  contains-allowed_from index allowed [] t = refl
  contains-allowed_from index allowed (c ∷ cs) t =
      let types = allowed_trigger_types (explain_child c) in
      ground (
        arith,
        agrees c t,
        contains-add_types allowed types t,
        contains-allowed_from (index + 1) (add_types allowed types) cs t,
      )

same_type :
    (a b : Bytes) → ite (Bytes-discrete a b) true false ≡ ite (Bytes-discrete b a) true false
same_type a b = ground arith

module _ {G J W : Type 0} (gocron : Gocron G J) (fsnotify : Watcher W)
    (unmarshal : UnmarshalString) where
  child_agrees :
      (c : Child G J W) (t : Bytes)
      → child_can_schedule gocron fsnotify unmarshal c t
        ≡ contains Bytes-discrete (allowed_trigger_types (explain_child c)) t
  unfolding child_can_schedule contains explain_child cron_triggers_scheduler
      telephonist_triggers_scheduler fs_triggers_scheduler Cron.can_schedule OnEvent.can_schedule
      Fs.can_schedule
  child_agrees (cron e) t = same_type t trigger_cron
  child_agrees (on_event e) t = same_type t trigger_event
  child_agrees (fs e) t = same_type t trigger_fsnotify

  -- Whatever its children are, the types of triggers that `Explain` of the composite scheduler lists are
  -- different from each other, and they are just those that its `CanSchedule` accepts.
  pub can_schedule-explain :
      (e : CompositeTriggersScheduler (Child G J W)) (t : Bytes)
      → let allowed = allowed_trigger_types (explain_composite explain_child e) in
        IsSetLike Bytes-discrete allowed
        × ((trigger_executor gocron fsnotify unmarshal).can_schedule e t
            ≡ contains Bytes-discrete allowed t)
  unfolding explain_composite trigger_executor composite_triggers_scheduler Composite.can_schedule
      child_scheduler contains
  can_schedule-explain e t =
      let ops = child_scheduler gocron fsnotify unmarshal in
      (
        allowed_from-IsSetLike ops explain_child child_agrees [] e.child_schedulers tt,
        ground
            (arith, contains-allowed_from ops explain_child child_agrees 0 [] e.child_schedulers t),
      )
