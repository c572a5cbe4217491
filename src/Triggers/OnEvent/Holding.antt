-- ===== src/Triggers/OnEvent/Holding.antt =====
-- taskscheduler/trigger_scheduler.go: the event scheduler's queue stands in its client's table.
use telephonist_agent.Base.{
  ℕ, ◌≡◌, Bytes, Option, none, some, insert, lookup, Bytes-discrete, Option-cases, inl, inr, arith,
  done, ◌+◌, >>=-eq-done,
}
use mathlib.Core.Path.{subst}
use telephonist_agent.Errors.{Error}
use telephonist_agent.Task.{TaskTrigger, UnmarshalString}
use telephonist_agent.Ws.Subscriptions.{IsSynced}
use telephonist_agent.Queue.{EventQueue, subscribe_queue}
use telephonist_agent.Queue.Delivery.{IsHeld, subscribe_queue-IsHeld}
use telephonist_agent.Triggers.OnEvent.{
  TelephonistScheduler, queue_subscribe, count_up, add_trigger, schedule_by_id,
}

-- The queue stands in the client's table under its channel, and the server holds a subscription to just
-- the events of that table.
pub record IsAttached (e : TelephonistScheduler) : Type 0 where
  pub held : (q : EventQueue) → e.queue ≡ some q → IsHeld q e.client
  pub synced : IsSynced e.client

queue_subscribe-IsAttached :
    (event : Bytes) (e e' : TelephonistScheduler)
    → IsAttached e
    → queue_subscribe event e ≡ done e'
    → IsAttached e'
unfolding queue_subscribe
queue_subscribe-IsAttached event e e' v h = elim (Option-cases e.queue) [
  | inl off ↦ absurd (ground arith)
  | inr (q, on) ↦
      let (r, subscribed, same) =
        >>=-eq-done (subscribe_queue event q e.client)
          (λ x. done (record e { client = x.1; queue = some x.0 }))
          (rw (on, queue_subscribe) at h) in
      let (held, synced, _) =
        subscribe_queue-IsHeld event q r.0 e.client r.1 r.2 (v.held q on) v.synced subscribed in
      let v' : IsAttached (record e { client = r.1; queue = some r.0 }) = record {
        held = λ q' on'. subst (λ x. IsHeld x r.1) (ground arith) held;
        synced = synced;
      } in
      subst IsAttached (ground arith) v'
]

count_up-IsAttached :
    (event : Bytes) (e e' : TelephonistScheduler)
    → IsAttached e
    → count_up event e ≡ done e'
    → IsAttached e'
unfolding count_up
count_up-IsAttached event e e' v h =
    elim (Option-cases (lookup Bytes-discrete event e.subscriptions_counters)) [
      | inr (n, there) ↦
          let v' : IsAttached (record e {
            subscriptions_counters = insert Bytes-discrete event (n + 1) e.subscriptions_counters;
          }) =
            record { held = v.held; synced = v.synced } in
          subst IsAttached (ground arith) v'
      | inl absent ↦
          queue_subscribe-IsAttached event
            (record e {
              subscriptions_counters = insert Bytes-discrete event 1 e.subscriptions_counters;
            })
            e' (record { held = v.held; synced = v.synced }) (ground arith)
    ]

-- A call of `ScheduleByID` that returns keeps the queue in the client's table, and the server's
-- subscriptions those of the table.
pub schedule_by_id-IsAttached :
    (unmarshal : UnmarshalString) (id : ℕ) (t : TaskTrigger) (e e' : TelephonistScheduler) (id' : ℕ)
    (err : Option Error)
    → IsAttached e
    → schedule_by_id unmarshal id t e ≡ done (e', id', err)
    → IsAttached e'
unfolding schedule_by_id add_trigger
schedule_by_id-IsAttached unmarshal id t e e' id' err v h = elim (Option-cases (unmarshal t.body)) [
  | inl malformed ↦ absurd (ground arith)
  | inr (event, body) ↦
      let (e2, counted, same) =
        >>=-eq-done {B = TelephonistScheduler × ℕ × Option Error}
          (count_up event (add_trigger id t event e)) (λ x. done (x, id, none)) {b = (e', id', err)}
          (ground arith) in
      subst IsAttached (ground arith) (
        count_up-IsAttached event (add_trigger id t event e) e2
          (record { held = v.held; synced = v.synced }) counted)
]
