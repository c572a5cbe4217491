-- ===== src/Triggers/OnEvent/Consistency.antt =====
-- taskscheduler/trigger_scheduler.go: the counters of the event scheduler agree with its triggers
-- and with the subscriptions of its queue.
use mathlib.Core.Logic.{◌↔◌}
use mathlib.Core.Path.{subst, subst₂}
use telephonist_agent.Base.{
  ℕ, suc, ◌≡◌, sym, ◌∙◌, ◌≢◌, Bytes, [], Bool, true, Option, none, some, length, lookup, delete,
  length-delete, lookup-insert, Option-cases, >>=-eq-done, nil_of_length, ℕ_discrete, arith, done,
  inl, inr,
}
use telephonist_agent.Errors.{Error}
use telephonist_agent.Task.{TaskTrigger, UnmarshalString}
use telephonist_agent.Queue.{EventQueue, is_subscribed}
use telephonist_agent.Triggers.OnEvent.{
  TelephonistScheduler, add_trigger, count_up, drop_trigger, counter, count_down, schedule_by_id,
  unschedule,
}
use telephonist_agent.Triggers.OnEvent.Counters.{
  triggers_of, Counted, count_up-Counted, count_down-Counted,
}
use telephonist_agent.Triggers.OnEvent.Agreement.{
  IsConsistent, add_trigger-IsConsistent, drop_trigger-IsConsistent, counter-add, counter-drop,
}

module _ (unmarshal : UnmarshalString) where
  -- From a scheduler whose counters agree with its triggers and with the subscriptions of its queue,
  -- a call of `ScheduleByID` that returns, with an identifier that is not in use, leaves such a
  -- scheduler.
  pub schedule_by_id-IsConsistent :
      (id : ℕ) (t : TaskTrigger) (e e' : TelephonistScheduler) (id' : ℕ) (err : Option Error)
      → IsConsistent unmarshal e
      → lookup ℕ_discrete id e.triggers ≡ none
      → schedule_by_id unmarshal id t e ≡ done (e', id', err)
      → IsConsistent unmarshal e'
  unfolding schedule_by_id
  schedule_by_id-IsConsistent id t e e' id' err v fresh h = elim (Option-cases (unmarshal t.body)) [
    | inl malformed ↦ absurd (ground arith)
    | inr (event, body) ↦
        let e1 = add_trigger id t event e in
        let (e2, counted, same) =
          >>=-eq-done {B = TelephonistScheduler × ℕ × Option Error} (count_up event e1)
            (λ x. done (x, id, none)) {b = (e', id', err)} (ground arith) in
        add_trigger-IsConsistent unmarshal id t event e e' v fresh body (
          subst₂ (λ n x. Counted event (suc n) e1 x) (counter-add id t event event e) (ground arith)
            (count_up-Counted event e1 e2 counted))
  ]

  -- A call of `ScheduleByID` that returns has filed the trigger under the identifier, which it gives
  -- back without an error, and keeps the callback.
  pub schedule_by_id-files :
      (id : ℕ) (t : TaskTrigger) (e e' : TelephonistScheduler) (id' : ℕ) (err : Option Error)
      → schedule_by_id unmarshal id t e ≡ done (e', id', err)
      → (lookup ℕ_discrete id e'.triggers ≡ some t)
        × (id' ≡ id)
        × (err ≡ none)
        × (e'.has_callback ≡ e.has_callback)
  unfolding schedule_by_id add_trigger
  schedule_by_id-files id t e e' id' err h = elim (Option-cases (unmarshal t.body)) [
    | inl malformed ↦ absurd (ground arith)
    | inr (event, body) ↦
        let (e2, counted, same) =
          >>=-eq-done {B = TelephonistScheduler × ℕ × Option Error}
            (count_up event (add_trigger id t event e)) (λ x. done (x, id, none))
            {b = (e', id', err)} (ground arith) in
        (
          ground (
            arith,
            (count_up-Counted event (add_trigger id t event e) e2 counted).same_triggers,
            lookup-insert ℕ_discrete id id t e.triggers,
          ),
          ground arith,
          ground arith,
          ground
              (arith, (count_up-Counted event (add_trigger id t event e) e2 counted).same_callback),
        )
  ]

  -- From a scheduler whose counters agree with its triggers and with the subscriptions of its queue,
  -- a call of `Unschedule` that returns leaves such a scheduler.
  pub unschedule-IsConsistent :
      (id : ℕ) (e e' : TelephonistScheduler) (err : Option Error) (was : Bool)
      → IsConsistent unmarshal e
      → unschedule unmarshal id e ≡ done (e', err, was)
      → IsConsistent unmarshal e'
  unfolding unschedule
  unschedule-IsConsistent id e e' err was v h =
      elim (Option-cases (lookup ℕ_discrete id e.triggers)) [
        | inl absent ↦ subst (IsConsistent unmarshal) (ground arith) v
        | inr (t, there) ↦
            let (event, body, k) = v.filed id t there in
            let e1 = drop_trigger id event e in
            let (e2, counted, same) =
              >>=-eq-done {B = TelephonistScheduler × Option Error × Bool} (count_down event e1)
                (λ x. done (x, none, true)) {b = (e', err, was)} (ground arith) in
            let n = length (delete ℕ_discrete id (triggers_of e event)) in
            let count : counter event e ≡ suc n =
              v.counts event
              ∙ sym (length-delete ℕ_discrete id t (triggers_of e event) (v.distinct event) k) in
            drop_trigger-IsConsistent unmarshal id n t event e e' v there body count (
              subst (λ x. Counted event n e1 x) (ground arith)
                (count_down-Counted event n e1 e2 (counter-drop id event event e ∙ count) counted))
      ]

  -- A scheduler whose counters agree with its triggers and with the subscriptions of its queue, and
  -- that has a queue, is subscribed to just the events that have a trigger.
  pub is_subscribed_iff :
      (e : TelephonistScheduler) (q : EventQueue) (ev : Bytes)
      → IsConsistent unmarshal e
      → e.queue ≡ some q
      → (is_subscribed ev q ≡ true) ↔ (triggers_of e ev ≢ [])
  unfolding counter
  is_subscribed_iff e q ev v on =
      ground
        (arith, v.counts ev, v.positive ev, v.subscribed q on ev, nil_of_length (triggers_of e ev))
