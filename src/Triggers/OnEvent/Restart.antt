-- ===== src/Triggers/OnEvent/Restart.antt =====
-- taskscheduler/trigger_scheduler.go: what the event scheduler is subscribed to after a restart.
use telephonist_agent.Base.{
  ℕ, ◌+◌, ◌≡◌, ◌≢◌, refl, ◌∙◌, Bytes, [], false, none, some, lookup, Option-cases, >>=-eq-done,
  Bytes-discrete, arith, done, inl, inr, insert, nil_of_length,
}
use telephonist_agent.Task.{TaskTrigger, UnmarshalString, trigger_event}
use telephonist_agent.Queue.{EventQueue, is_subscribed, new_queue, unsubscribe_all}
use telephonist_agent.Triggers.OnEvent.{
  TelephonistScheduler, add_trigger, count_up, counter, schedule_by_id, start, stop,
}
use telephonist_agent.Triggers.OnEvent.Counters.{triggers_of}
use telephonist_agent.Triggers.OnEvent.Agreement.{IsConsistent}

-- The scheduler after `Stop` and `Start`.
restarted :
    (e e1 : TelephonistScheduler) (q : EventQueue)
    → e.queue ≡ some q
    → stop e ≡ done e1
    → (e2 : TelephonistScheduler) × (start e1 ≡ done (e2, none))
      × (e2.event_triggers ≡ e.event_triggers)
      × (e2.subscriptions_counters ≡ e.subscriptions_counters)
      × (e2.queue ≡ some (new_queue e1.next_channel))
unfolding stop start
restarted e e1 q on h =
    let (client', given_up, same) =
      >>=-eq-done (unsubscribe_all q e.client) (λ c. done (record e { client = c; queue = none }))
        (rw (on, stop) at h) in
    (
      record e1 { queue = some (new_queue e1.next_channel); next_channel = e1.next_channel + 1 },
      ground arith,
      ground arith,
      ground arith,
      refl,
    )

counted_already :
    (unmarshal : UnmarshalString) (e : TelephonistScheduler) (ev : Bytes)
    → IsConsistent unmarshal e
    → triggers_of e ev ≢ []
    → lookup Bytes-discrete ev e.subscriptions_counters ≢ none
unfolding counter
counted_already unmarshal e ev v some_trigger missing =
    some_trigger (nil_of_length (triggers_of e ev) (ground (arith, v.counts ev)))

schedule-counted :
    (unmarshal : UnmarshalString) (id : ℕ) (t : TaskTrigger) (ev : Bytes) (e : TelephonistScheduler)
    → t.name ≡ trigger_event
    → unmarshal t.body ≡ some ev
    → lookup Bytes-discrete ev e.subscriptions_counters ≢ none
    → (e' : TelephonistScheduler) × (schedule_by_id unmarshal id t e ≡ done (e', id, none))
      × (e'.queue ≡ e.queue)
unfolding schedule_by_id count_up add_trigger
schedule-counted unmarshal id t ev e name body counted =
    elim (Option-cases (lookup Bytes-discrete ev e.subscriptions_counters)) [
      | inl missing ↦ absurd (counted missing)
      | inr (n, there) ↦ (
        record (add_trigger id t ev e) {
          subscriptions_counters = insert Bytes-discrete ev (n + 1) e.subscriptions_counters;
        },
        ground arith,
        refl,
      )
    ]

-- When the counters agree with the triggers and the subscriptions of the queue, and a call of `Stop`
-- returns, then `Start` returns without an error and keeps the triggers of every event, but the queue is
-- subscribed to no event; and scheduling one more trigger on an event that has one, which then
-- succeeds, leaves the queue as it is.
pub restart_unsubscribed :
    (unmarshal : UnmarshalString) (e e1 : TelephonistScheduler) (q : EventQueue)
    → IsConsistent unmarshal e
    → e.queue ≡ some q
    → stop e ≡ done e1
    → (e2 : TelephonistScheduler) × (q2 : EventQueue) × (start e1 ≡ done (e2, none))
      × (e2.queue ≡ some q2)
      × ((ev : Bytes) → (triggers_of e2 ev ≡ triggers_of e ev) × (is_subscribed ev q2 ≡ false))
      × ((id : ℕ) (t : TaskTrigger) (ev : Bytes)
          → t.name ≡ trigger_event
          → unmarshal t.body ≡ some ev
          → triggers_of e ev ≢ []
          → (e3 : TelephonistScheduler) × (schedule_by_id unmarshal id t e2 ≡ done (e3, id, none))
            × (e3.queue ≡ some q2))
unfolding triggers_of is_subscribed new_queue lookup
restart_unsubscribed unmarshal e e1 q v on h =
    let (e2, again, triggers, counters, queue) = restarted e e1 q on h in
    (
      e2,
      new_queue e1.next_channel,
      again,
      queue,
      λ ev. (ground arith, refl),
      λ id t ev name body some_trigger.
          let (e3, called, same) =
            schedule-counted unmarshal id t ev e2 name body
              (λ missing. counted_already unmarshal e ev v some_trigger (ground arith)) in
          (e3, called, same ∙ queue),
    )
