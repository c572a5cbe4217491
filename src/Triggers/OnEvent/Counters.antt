-- ===== src/Triggers/OnEvent/Counters.antt =====
-- taskscheduler/trigger_scheduler.go: the counters of the event scheduler, against its triggers and
-- against the subscriptions of its queue.
use telephonist_agent.Base.{
  ℕ, zero, suc, ◌+◌, ◌≡◌, Bytes, [], Bool, true, false, Option, none, some, ite, Map, lookup,
  insert, delete, lookup-insert, lookup-delete, Option-cases, >>=-eq-done, nil_of_length,
  insert-nil, delete-nil, Bytes-discrete, ℕ_discrete, arith, done, inl, inr,
}
use telephonist_agent.Task.{TaskTrigger}
use telephonist_agent.Queue.Delivery.{
  is_subscribed-subscribe_queue, is_subscribed-unsubscribe_queue,
}
use telephonist_agent.Queue.{EventQueue, is_subscribed, subscribe_queue, unsubscribe_queue, found}
use telephonist_agent.Triggers.OnEvent.{
  TelephonistScheduler, queue_subscribe, queue_unsubscribe, add_trigger, count_up, drop_trigger,
  counter, count_down,
}

-- The triggers of an event; none is an empty map.
unfoldable pub triggers_of : TelephonistScheduler → Bytes → Map ℕ TaskTrigger
triggers_of e event = elim (lookup Bytes-discrete event e.event_triggers) [
  | none ↦ []
  | some triggers ↦ triggers
]

pub triggers_of-add :
    (id : ℕ) (t : TaskTrigger) (event ev : Bytes) (e : TelephonistScheduler)
    → triggers_of (add_trigger id t event e) ev
      ≡ ite (Bytes-discrete event ev) (insert ℕ_discrete id t (triggers_of e ev)) (triggers_of e ev)
unfolding triggers_of add_trigger
triggers_of-add id t event ev e = grind (arith, lookup-insert, insert-nil)

pub triggers_of-drop :
    (id : ℕ) (event ev : Bytes) (e : TelephonistScheduler)
    → triggers_of (drop_trigger id event e) ev
      ≡ ite (Bytes-discrete event ev) (delete ℕ_discrete id (triggers_of e ev)) (triggers_of e ev)
unfolding triggers_of drop_trigger
triggers_of-drop id event ev e =
    grind (arith, lookup-insert, lookup-delete, delete-nil, nil_of_length)

-- What a call for the queue changes: the queue and the client.
record Requeued (event : Bytes) (on : Bool) (e e' : TelephonistScheduler) : Type 0 where
  counters : e'.subscriptions_counters ≡ e.subscriptions_counters
  same_triggers : e'.triggers ≡ e.triggers
  same_events : e'.event_triggers ≡ e.event_triggers
  same_callback : e'.has_callback ≡ e.has_callback
  queues :
      (q' : EventQueue)
      → e'.queue ≡ some q'
      → (q : EventQueue) × (e.queue ≡ some q)
        × ((ev : Bytes)
            → is_subscribed ev q' ≡ ite (Bytes-discrete event ev) on (is_subscribed ev q))

queue_subscribe-Requeued :
    (event : Bytes) (e e' : TelephonistScheduler)
    → queue_subscribe event e ≡ done e'
    → Requeued event true e e'
unfolding queue_subscribe
queue_subscribe-Requeued event e e' h = elim (Option-cases e.queue) [
  | inl off ↦ absurd (ground arith)
  | inr (q, on) ↦
      let (r, subscribed, same) =
        >>=-eq-done (subscribe_queue event q e.client)
          (λ x. done (record e { client = x.1; queue = some x.0 }))
          (rw (on, queue_subscribe) at h) in
      record {
        counters = ground arith;
        same_triggers = ground arith;
        same_events = ground arith;
        same_callback = ground arith;
        queues = λ q' now. (
          q,
          on,
          λ ev. is_subscribed-subscribe_queue event ev q q' e.client r.1 r.2 (ground arith),
        );
      }
]

queue_unsubscribe-Requeued :
    (event : Bytes) (e e' : TelephonistScheduler)
    → queue_unsubscribe event e ≡ done e'
    → Requeued event false e e'
unfolding queue_unsubscribe
queue_unsubscribe-Requeued event e e' h = elim (Option-cases e.queue) [
  | inl off ↦ absurd (ground arith)
  | inr (q, on) ↦
      let (r, unsubscribed, same) =
        >>=-eq-done (unsubscribe_queue event q e.client)
          (λ x. done (record e { client = x.1; queue = some x.0 }))
          (rw (on, queue_unsubscribe) at h) in
      record {
        counters = ground arith;
        same_triggers = ground arith;
        same_events = ground arith;
        same_callback = ground arith;
        queues = λ q' now. (
          q,
          on,
          λ ev. is_subscribed-unsubscribe_queue event ev q q' e.client r.1 r.2 (ground arith),
        );
      }
]

-- A counter as the map holds it: 0 is a missing entry.
abbrev pub stored : ℕ → Option ℕ
stored zero = none
stored (suc n) = some (suc n)

-- What `count_up` leaves: the same triggers, one more on the event, and the event subscribed to.
pub record Counted (event : Bytes) (n : ℕ) (e e' : TelephonistScheduler) : Type 0 where
  pub same_triggers : e'.triggers ≡ e.triggers
  pub same_events : e'.event_triggers ≡ e.event_triggers
  pub same_callback : e'.has_callback ≡ e.has_callback
  pub counter_now :
      (ev : Bytes)
      → lookup Bytes-discrete ev e'.subscriptions_counters
        ≡ ite
            (Bytes-discrete event ev)
            (stored n)
            (lookup Bytes-discrete ev e.subscriptions_counters)
  pub subscribed_now :
      ((q : EventQueue)
        → e.queue ≡ some q
        → (ev : Bytes)
        → is_subscribed ev q ≡ found (lookup Bytes-discrete ev e.subscriptions_counters))
      → (q : EventQueue) → e'.queue ≡ some q
      → (ev : Bytes)
      → is_subscribed ev q ≡ found (lookup Bytes-discrete ev e'.subscriptions_counters)

pub count_up-Counted :
    (event : Bytes) (e e' : TelephonistScheduler)
    → count_up event e ≡ done e'
    → Counted event (suc (counter event e)) e e'
unfolding count_up counter
count_up-Counted event e e' h =
    elim (Option-cases (lookup Bytes-discrete event e.subscriptions_counters)) [
      | inr (n, there) ↦ record {
        same_triggers = ground arith;
        same_events = ground arith;
        same_callback = ground arith;
        counter_now = λ ev.
            ground (arith, lookup-insert Bytes-discrete event ev (n + 1) e.subscriptions_counters);
        subscribed_now = λ s q on ev. ground (
          arith,
          s q,
          s q (ground arith) ev,
          lookup-insert Bytes-discrete event ev (n + 1) e.subscriptions_counters,
        );
      }
      | inl missing ↦
          let e1 = record e {
            subscriptions_counters = insert Bytes-discrete event 1 e.subscriptions_counters;
          } in
          let r : Requeued event true e1 e' = queue_subscribe-Requeued event e1 e' (ground arith) in
          record {
            same_triggers = r.same_triggers;
            same_events = r.same_events;
            same_callback = r.same_callback;
            counter_now = λ ev. ground (
              arith,
              r.counters,
              lookup-insert Bytes-discrete event ev 1 e.subscriptions_counters,
            );
            subscribed_now = λ s q' on ev.
                let (q, before, now) = r.queues q' on in
                ground (
                  arith,
                  s q before ev,
                  now ev,
                  r.counters,
                  lookup-insert Bytes-discrete event ev 1 e.subscriptions_counters,
                );
          }
    ]

pub count_down-Counted :
    (event : Bytes) (n : ℕ) (e e' : TelephonistScheduler)
    → counter event e ≡ suc n
    → count_down event e ≡ done e'
    → Counted event n e e'
unfolding count_down
count_down-Counted event zero e e' c h =
    let e1 = record e {
      subscriptions_counters = delete Bytes-discrete event e.subscriptions_counters;
    } in
    let r : Requeued event false e1 e' = queue_unsubscribe-Requeued event e1 e' (ground arith) in
    record {
      same_triggers = r.same_triggers;
      same_events = r.same_events;
      same_callback = r.same_callback;
      counter_now = λ ev.
          ground
            (arith, r.counters, lookup-delete Bytes-discrete event ev e.subscriptions_counters);
      subscribed_now = λ s q' on ev.
          let (q, before, now) = r.queues q' on in
          ground (
            arith,
            s q before ev,
            now ev,
            r.counters,
            lookup-delete Bytes-discrete event ev e.subscriptions_counters,
          );
    }
count_down-Counted event (suc n) e e' c h =
    unfold counter in
    record {
      same_triggers = ground arith;
      same_events = ground arith;
      same_callback = ground arith;
      counter_now = λ ev.
          ground (arith, lookup-insert Bytes-discrete event ev (suc n) e.subscriptions_counters);
      subscribed_now = λ s q on ev. ground (
        arith,
        s q (ground arith) ev,
        lookup-insert Bytes-discrete event ev (suc n) e.subscriptions_counters,
      );
    }

pub triggers_of-same :
    (e e' : TelephonistScheduler) (ev : Bytes)
    → e'.event_triggers ≡ e.event_triggers
    → triggers_of e' ev ≡ triggers_of e ev
unfolding triggers_of
triggers_of-same e e' ev h = rw h

pub counter-Counted :
    (event : Bytes) (n : ℕ) (e e' : TelephonistScheduler) (ev : Bytes)
    → Counted event n e e'
    → counter ev e' ≡ ite (Bytes-discrete event ev) n (counter ev e)
unfolding counter
counter-Counted event zero e e' ev c = ground (arith, c.counter_now ev)
counter-Counted event (suc n) e e' ev c = ground (arith, c.counter_now ev)
