-- ===== src/Triggers/OnEvent/Agreement.antt =====
-- taskscheduler/trigger_scheduler.go: what the event scheduler's counters agree with, and that a
-- trigger that comes or goes leaves them so.
use telephonist_agent.Base.{
  ℕ, zero, suc, ◌≡◌, refl, ◌∙◌, ◌≢◌, Bytes, none, some, ite, length, lookup, insert, delete,
  Distinct, lookup-insert, lookup-delete, insert-Distinct, delete-Distinct, length-insert,
  length-delete, Option-cases, Bytes-discrete, ℕ_discrete, arith, inl, inr,
}
use telephonist_agent.Task.{TaskTrigger, UnmarshalString}
use telephonist_agent.Queue.{EventQueue, is_subscribed, found}
use telephonist_agent.Triggers.OnEvent.{TelephonistScheduler, add_trigger, drop_trigger, counter}
use telephonist_agent.Triggers.OnEvent.Counters.{
  triggers_of, triggers_of-add, triggers_of-drop, Counted, triggers_of-same, counter-Counted,
}

-- The counters agree with the triggers, and the subscriptions of the queue with the counters.
pub record IsConsistent (unmarshal : UnmarshalString) (e : TelephonistScheduler) : Type 0 where
  pub counts : (ev : Bytes) → counter ev e ≡ length (triggers_of e ev)
  pub positive : (ev : Bytes) → lookup Bytes-discrete ev e.subscriptions_counters ≢ some 0
  pub distinct : (ev : Bytes) → Distinct ℕ_discrete (triggers_of e ev)
  pub filed :
      (id : ℕ) (t : TaskTrigger)
      → lookup ℕ_discrete id e.triggers ≡ some t
      → (ev : Bytes) × (unmarshal t.body ≡ some ev)
        × (lookup ℕ_discrete id (triggers_of e ev) ≡ some t)
  pub registered :
      (ev : Bytes) (id : ℕ) (t : TaskTrigger)
      → lookup ℕ_discrete id (triggers_of e ev) ≡ some t
      → (lookup ℕ_discrete id e.triggers ≡ some t) × (unmarshal t.body ≡ some ev)
  pub subscribed :
      (q : EventQueue)
      → e.queue ≡ some q
      → (ev : Bytes)
      → is_subscribed ev q ≡ found (lookup Bytes-discrete ev e.subscriptions_counters)

pub counter-add :
    (id : ℕ) (t : TaskTrigger) (event ev : Bytes) (e : TelephonistScheduler)
    → counter ev (add_trigger id t event e) ≡ counter ev e
unfolding counter add_trigger
counter-add id t event ev e = refl

pub counter-drop :
    (id : ℕ) (event ev : Bytes) (e : TelephonistScheduler)
    → counter ev (drop_trigger id event e) ≡ counter ev e
unfolding counter drop_trigger
counter-drop id event ev e = refl

triggers-add :
    (id : ℕ) (t : TaskTrigger) (event : Bytes) (e : TelephonistScheduler) (i : ℕ)
    → lookup ℕ_discrete i (add_trigger id t event e).triggers
      ≡ ite (ℕ_discrete id i) (some t) (lookup ℕ_discrete i e.triggers)
unfolding add_trigger
triggers-add id t event e i = lookup-insert ℕ_discrete id i t e.triggers

triggers-drop :
    (id : ℕ) (event : Bytes) (e : TelephonistScheduler) (i : ℕ)
    → lookup ℕ_discrete i (drop_trigger id event e).triggers
      ≡ ite (ℕ_discrete id i) none (lookup ℕ_discrete i e.triggers)
unfolding drop_trigger
triggers-drop id event e i = lookup-delete ℕ_discrete id i e.triggers

counters-same :
    (id : ℕ) (t : TaskTrigger) (event : Bytes) (e : TelephonistScheduler)
    → ((add_trigger id t event e).subscriptions_counters ≡ e.subscriptions_counters)
      × ((add_trigger id t event e).queue ≡ e.queue)
      × ((drop_trigger id event e).subscriptions_counters ≡ e.subscriptions_counters)
      × ((drop_trigger id event e).queue ≡ e.queue)
unfolding add_trigger drop_trigger
counters-same id t event e = (refl, refl, refl, refl)

positive-Counted :
    (event : Bytes) (n : ℕ) (e e' : TelephonistScheduler) (ev : Bytes)
    → lookup Bytes-discrete ev e.subscriptions_counters ≢ some 0
    → Counted event n e e'
    → lookup Bytes-discrete ev e'.subscriptions_counters ≢ some 0
positive-Counted event zero e e' ev p c q = ground (arith, c.counter_now ev)
positive-Counted event (suc n) e e' ev p c q = ground (arith, c.counter_now ev)

module _ (unmarshal : UnmarshalString) where
  absent_of_fresh :
      (id : ℕ) (ev : Bytes) (e : TelephonistScheduler)
      → IsConsistent unmarshal e
      → lookup ℕ_discrete id e.triggers ≡ none
      → lookup ℕ_discrete id (triggers_of e ev) ≡ none
  absent_of_fresh id ev e v fresh = elim (Option-cases (lookup ℕ_discrete id (triggers_of e ev))) [
    | inl absent ↦ absent
    | inr (t, there) ↦ absurd (ground (arith, v.registered ev id t there))
  ]

  pub add_trigger-IsConsistent :
      (id : ℕ) (t : TaskTrigger) (event : Bytes) (e e' : TelephonistScheduler)
      → IsConsistent unmarshal e
      → lookup ℕ_discrete id e.triggers ≡ none
      → unmarshal t.body ≡ some event
      → Counted event (suc (counter event e)) (add_trigger id t event e) e'
      → IsConsistent unmarshal e'
  add_trigger-IsConsistent id t event e e' v fresh body c = record {
    counts = λ ev. ground (
      arith,
      counter-Counted event (suc (counter event e)) e1 e' ev c,
      counter-add id t event ev e,
      now ev,
      v.counts ev,
      length-insert ℕ_discrete id t (triggers_of e ev),
      absent_of_fresh id ev e v fresh,
    );
    positive = λ ev.
        positive-Counted event _ e1 e' ev (rw (counters-same id t event e).0 (v.positive ev)) c;
    distinct = λ ev.
        ground (arith, now ev, v.distinct ev, insert-Distinct ℕ_discrete id t (triggers_of e ev));
    filed = λ i u h. elim (ℕ_discrete id i) [
      | yes p ↦ (
        event,
        ground (arith, c.same_triggers, triggers-add id t event e i),
        ground (
          arith,
          c.same_triggers,
          triggers-add id t event e i,
          now event,
          lookup-insert ℕ_discrete id i t (triggers_of e event),
        ),
      )
      | no p ↦
          let (ev, b, k) =
            v.filed i u (ground (arith, c.same_triggers, triggers-add id t event e i)) in
          (ev, b, ground (arith, now ev, lookup-insert ℕ_discrete id i t (triggers_of e ev)))
    ];
    registered = λ ev i u h. ground (
      arith,
      c.same_triggers,
      triggers-add id t event e i,
      now ev,
      lookup-insert ℕ_discrete id i t (triggers_of e ev),
      v.registered ev i u,
    );
    subscribed =
        c.subscribed_now
          (rw ((counters-same id t event e).0, (counters-same id t event e).1) v.subscribed);
  }
    where
      e1 : TelephonistScheduler
      e1 = add_trigger id t event e

      now :
          (ev : Bytes)
          → triggers_of e' ev
            ≡ ite
                (Bytes-discrete event ev)
                (insert ℕ_discrete id t (triggers_of e ev))
                (triggers_of e ev)
      now ev = triggers_of-same e1 e' ev c.same_events ∙ triggers_of-add id t event ev e

  pub drop_trigger-IsConsistent :
      (id n : ℕ) (t : TaskTrigger) (event : Bytes) (e e' : TelephonistScheduler)
      → IsConsistent unmarshal e
      → lookup ℕ_discrete id e.triggers ≡ some t
      → unmarshal t.body ≡ some event
      → counter event e ≡ suc n
      → Counted event n (drop_trigger id event e) e'
      → IsConsistent unmarshal e'
  drop_trigger-IsConsistent id n t event e e' v there body count c = record {
    counts = λ ev. ground (
      arith,
      counter-Counted event n e1 e' ev c,
      counter-drop id event ev e,
      now ev,
      v.counts ev,
      length-delete ℕ_discrete id t (triggers_of e ev) (v.distinct ev),
      held,
    );
    positive = λ ev.
        positive-Counted event n e1 e' ev (rw (counters-same id t event e).2 (v.positive ev)) c;
    distinct = λ ev.
        ground (arith, now ev, v.distinct ev, delete-Distinct ℕ_discrete id (triggers_of e ev));
    filed = λ i u h.
        let (ev, b, k) =
          v.filed i u (ground (arith, c.same_triggers, triggers-drop id event e i)) in
        (
          ev,
          b,
          ground (
            arith,
            c.same_triggers,
            triggers-drop id event e i,
            now ev,
            lookup-delete ℕ_discrete id i (triggers_of e ev),
          ),
        );
    registered = λ ev i u h. ground (
      arith,
      c.same_triggers,
      triggers-drop id event e i,
      now ev,
      lookup-delete ℕ_discrete id i (triggers_of e ev),
      v.registered ev i u,
      v.registered ev id u,
    );
    subscribed =
        c.subscribed_now
          (rw ((counters-same id t event e).2, (counters-same id t event e).3) v.subscribed);
  }
    where
      e1 : TelephonistScheduler
      e1 = drop_trigger id event e

      now :
          (ev : Bytes)
          → triggers_of e' ev
            ≡ ite
                (Bytes-discrete event ev)
                (delete ℕ_discrete id (triggers_of e ev))
                (triggers_of e ev)
      now ev = triggers_of-same e1 e' ev c.same_events ∙ triggers_of-drop id event ev e

      held : lookup ℕ_discrete id (triggers_of e event) ≡ some t
      held = let (ev, b, k) = v.filed id t there in ground arith
