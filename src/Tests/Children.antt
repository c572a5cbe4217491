-- ===== src/Tests/Children.antt =====
-- taskscheduler/trigger_scheduler.go: the composite scheduler over children that are numbers.
use telephonist_agent.Base.{
  ℕ, zero, suc, ◌+◌, ◌<◌, ◌≡◌, refl, codes, List, [], ◌∷◌, true, false, Bool, Option, none, some,
  lookup, insert, ℕ_discrete, ite, get_elem?, set, done, ◌>>=◌,
}
use telephonist_agent.Errors.{Error, message}
use telephonist_agent.Task.{TaskTrigger}
use telephonist_agent.Triggers.{TriggersScheduler}
use telephonist_agent.Triggers.Composite.{
  CompositeTriggersScheduler, first_able, schedule_by_id, unschedule,
}
use telephonist_agent.Triggers.Composite.Routing.{IsRouted, unschedule-schedule_by_id}

-- A child that is even can schedule nothing, and 0 does not start.
abbrev odd_schedule : ℕ → Bool
odd_schedule zero = false
odd_schedule (suc n) = ite (ℕ_discrete n 0) true false

abbrev start_error : ℕ → Option Error
start_error zero = some (message [])
start_error (suc n) = none

-- A child counts its stops in tens.
abbrev numbers : TriggersScheduler ℕ
numbers = record {
  can_schedule = λ s name. odd_schedule s;
  schedule = λ t s. done (s, 4, none);
  schedule_by_id = λ id t s. done (s, id, none);
  unschedule = λ id s. done (s, none, true);
  start = λ s. done (s, start_error s);
  stop = λ s. done (s + 10);
  is_running = λ s. true;
  set_callback = λ b s. s;
}

abbrev over : List ℕ → CompositeTriggersScheduler ℕ
over children = record {
  child_schedulers = children;
  executor_index_bits = 1;
  is_running = false;
  ids = [];
}

abbrev any_trigger : TaskTrigger
any_trigger = record { name = codes "event"; body = []; disabled = false }

abbrev two : CompositeTriggersScheduler ℕ
two = over (2 ∷ 1 ∷ [])

abbrev routed : CompositeTriggersScheduler ℕ
routed = record two { ids = (9, 1) ∷ [] }

two-IsRouted : IsRouted numbers two
unfolding lookup
two-IsRouted id i h = absurd (none-ne-some h)
  where
    none-ne-some : none ≡ some i → ⊥
    none-ne-some q = cc

unschedule-schedule_by_id_example :
    (i : ℕ) × (c : ℕ) × (c' : ℕ) × (get_elem? two.child_schedulers i ≡ some c)
    × (numbers.can_schedule c any_trigger.name ≡ true)
    × ((j : ℕ) (d : ℕ)
        → j < i
        → get_elem? two.child_schedulers j ≡ some d
        → numbers.can_schedule d any_trigger.name ≡ false)
    × (numbers.schedule_by_id 9 any_trigger c ≡ done (c', 9, none))
    × IsRouted numbers routed
    × (unschedule numbers 9 routed ≡ (
        numbers.unschedule 9 c' >>= λ r.
        done (record routed { child_schedulers = set routed.child_schedulers i r.0 }, r.1, r.2)))
unfolding schedule_by_id first_able ℕ_discrete insert
unschedule-schedule_by_id_example =
    unschedule-schedule_by_id numbers 9 any_trigger two routed 9 two-IsRouted refl
