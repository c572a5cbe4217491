-- ===== src/Triggers/Composite.antt =====
-- taskscheduler/trigger_scheduler.go: `CompositeTriggersScheduler`, which sends each trigger to the
-- first of its children that can schedule it.
pub mod Routing
pub mod Starting
use telephonist_agent.Base.{
  ℕ, zero, suc, ◌+◌, ◌-◌, ◌*◌, ◌%◌, ◌^◌, bit_or, Bytes, codes, List, [], ◌∷◌, ◌++◌, map, Bool, true,
  false, Option, none, some, Map, length, lookup, insert, ℕ_discrete, ite, dec_lt, get_elem?, set,
  show_ℕ, Go, done, ◌>>=◌, must,
}
use telephonist_agent.Errors.{Error, message}
use telephonist_agent.Task.{TaskTrigger}
use telephonist_agent.Triggers.{TriggersScheduler}

-- All the children have one type of states, over which their methods are given.
pub record CompositeTriggersScheduler (C : Type 0) : Type 0 where
  pub child_schedulers : List C
  pub executor_index_bits : ℕ
  pub is_running : Bool
  pub ids : Map ℕ ℕ

-- The least `b + k` with `n ≤ 2 ^ (b + k)`, for `k` up to the fuel.
log2_up : ℕ → ℕ → ℕ → ℕ
log2_up zero b n = b
log2_up (suc fuel) b n = let more = log2_up fuel (b + 1) n in ite (dec_lt (2 ^ b) n) more b

-- `uint8(math.Ceil(math.Log2(float64(n))))` for `n` children, one at least.
unfoldable pub index_bits : ℕ → ℕ
unfolding log2_up
index_bits n = log2_up n 0 n

module _ {C : Type 0} where
  unfoldable pub new_composite_triggers_scheduler : List C → CompositeTriggersScheduler C
  unfolding index_bits
  new_composite_triggers_scheduler executors = record {
    child_schedulers = executors;
    executor_index_bits = index_bits (length executors);
    is_running = false;
    ids = [];
  }

no_executors : Bytes → Error
no_executors name = message (codes "there's no executors that match given trigger type " ++ name)

not_registered : ℕ → Error
not_registered id = message (
    codes "trigger with id "
    ++ (show_ℕ id ++ codes " is not registered in any of the underlying schedulers"))

module _ {C : Type 0} (ops : TriggersScheduler C) where
  -- The loop over the children, to the first that can schedule the type.
  unfoldable pub first_able : ℕ → Bytes → List C → Option (ℕ × C)
  first_able index trigger_type [] = none
  first_able index trigger_type (executor ∷ rest) = elim (ops.can_schedule executor trigger_type) [
    | true ↦ some (index, executor)
    | false ↦ first_able (index + 1) trigger_type rest
  ]

  unfoldable pub can_schedule : CompositeTriggersScheduler C → Bytes → Bool
  unfolding first_able
  can_schedule e trigger_type = elim (first_able 0 trigger_type e.child_schedulers) [
    | none ↦ false
    | some _ ↦ true
  ]

  -- What `ScheduleByID` makes of the child's answer.
  unfoldable pub routed :
      ℕ
      → CompositeTriggersScheduler C
      → C × ℕ × Option Error
      → CompositeTriggersScheduler C × ℕ × Option Error
  routed index e (executor, id, some err) =
      (record e { child_schedulers = set e.child_schedulers index executor }, 0, some err)
  routed index e (executor, id, none) = (
    record e {
      child_schedulers = set e.child_schedulers index executor;
      ids = insert ℕ_discrete id index e.ids;
    },
    id,
    none,
  )

  unfoldable pub schedule_by_id :
      ℕ
      → TaskTrigger
      → CompositeTriggersScheduler C
      → Go (CompositeTriggersScheduler C × ℕ × Option Error)
  unfolding routed no_executors
  schedule_by_id id trigger e = elim (first_able 0 trigger.name e.child_schedulers) [
    | none ↦ done (e, 0, some (no_executors trigger.name))
    | some (index, executor) ↦ do
      r ← ops.schedule_by_id id trigger executor
      done (routed index e r)
  ]

  -- What `Schedule` makes of it: the index in the high bits, and no entry in `ids`.
  marked :
      ℕ
      → CompositeTriggersScheduler C
      → C × ℕ × Option Error
      → CompositeTriggersScheduler C × ℕ × Option Error
  marked index e (executor, id, some err) =
      (record e { child_schedulers = set e.child_schedulers index executor }, 0, some err)
  marked index e (executor, id, none) = (
    record e { child_schedulers = set e.child_schedulers index executor },
    bit_or ((index * 2 ^ (64 - e.executor_index_bits)) % 2 ^ 64) id,
    none,
  )

  unfoldable pub schedule :
      TaskTrigger
      → CompositeTriggersScheduler C
      → Go (CompositeTriggersScheduler C × ℕ × Option Error)
  unfolding marked no_executors
  schedule trigger e = elim (first_able 0 trigger.name e.child_schedulers) [
    | none ↦ done (e, 0, some (no_executors trigger.name))
    | some (index, executor) ↦ do r ← ops.schedule trigger executor; done (marked index e r)
  ]

  unfoldable pub unschedule :
      ℕ → CompositeTriggersScheduler C → Go (CompositeTriggersScheduler C × Option Error × Bool)
  unfolding not_registered
  unschedule id e = elim (lookup ℕ_discrete id e.ids) [
    | none ↦ done (e, some (not_registered id), false)
    | some index ↦ do
      executor ← must (get_elem? e.child_schedulers index)
      (executor', err, was) ← ops.unschedule id executor
      done (record e { child_schedulers = set e.child_schedulers index executor' }, err, was)
  ]

  -- The loop of `Start`: the children, the error that ended it, and the index after the last call.
  unfoldable pub start_from : ℕ → List C → Go (List C × Option Error × ℕ)
  start_from i [] = done ([], none, i)
  start_from i (c ∷ cs) = do
    (c', err) ← ops.start c
    elim err [
      | some x ↦ done (c' ∷ cs, some x, i + 1)
      | none ↦ do (cs', err', i') ← start_from (i + 1) cs; done (c' ∷ cs', err', i')
    ]

  -- `e.childSchedulers[i].Stop()`
  unfoldable pub stop_at : ℕ → List C → Go (List C)
  stop_at i cs = do c ← must (get_elem? cs i); c' ← ops.stop c; done (set cs i c')

  -- The loop over `j` after a failure, which stops the child at `i` in every round.
  unfoldable pub rollback : ℕ → ℕ → List C → Go (List C)
  unfolding stop_at
  rollback zero i cs = done cs
  rollback (suc rounds) i cs = do cs' ← stop_at i cs; rollback rounds i cs'

  -- What `Start` makes of the loop's result.
  finish_start :
      CompositeTriggersScheduler C
      → List C × Option Error × ℕ
      → Go (CompositeTriggersScheduler C × Option Error)
  finish_start e (cs, none, i) = done (record e { child_schedulers = cs; is_running = true }, none)
  finish_start e (cs, some err, i) = do
    cs' ← rollback (i + 1) i cs
    done (record e { child_schedulers = cs' }, some err)

  unfoldable pub start :
      CompositeTriggersScheduler C → Go (CompositeTriggersScheduler C × Option Error)
  unfolding start_from finish_start
  start e = elim e.is_running [
    | true ↦ done (e, none)
    | false ↦ do r ← start_from 0 e.child_schedulers; finish_start e r
  ]

  unfoldable pub stop_each : List C → Go (List C)
  stop_each [] = done []
  stop_each (c ∷ cs) = do c' ← ops.stop c; cs' ← stop_each cs; done (c' ∷ cs')

  unfoldable pub stop : CompositeTriggersScheduler C → Go (CompositeTriggersScheduler C)
  unfolding stop_each
  stop e = elim e.is_running [
    | false ↦ done e
    | true ↦ do
      cs ← stop_each e.child_schedulers
      done (record e { child_schedulers = cs; is_running = false })
  ]

  unfoldable pub set_callback : Bool → CompositeTriggersScheduler C → CompositeTriggersScheduler C
  set_callback callback e = record e {
    child_schedulers = map (ops.set_callback callback) e.child_schedulers;
  }

  unfoldable pub composite_triggers_scheduler : TriggersScheduler (CompositeTriggersScheduler C)
  unfolding can_schedule schedule schedule_by_id unschedule start stop set_callback
  composite_triggers_scheduler = record {
    can_schedule = can_schedule;
    schedule = schedule;
    schedule_by_id = schedule_by_id;
    unschedule = unschedule;
    start = start;
    stop = stop;
    is_running = λ e. e.is_running;
    set_callback = set_callback;
  }
