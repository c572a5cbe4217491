-- ===== src/App/Lifecycle/Stopping.antt =====
-- scheduler.go: `Stop` of the application, and `Start` after it.
use telephonist_agent.Base.{
  ℕ, Bytes, Map, refl, ◌≡◌, [], ◌∷◌, true, false, none, done, ◌>>=◌, arith, Option-cases, List, inl,
  inr,
}
use telephonist_agent.Ws.{ClientState, ClientState-discrete, WsClient, pumped, closed}
use telephonist_agent.Ws.Sending.{Returns, remove_event_channel-Returns}
use telephonist_agent.Ws.Lifecycle.{stop, close_channel}
use telephonist_agent.Triggers.Children.{
  Child, cron, on_event, fs, trigger_executor, child_scheduler,
}
use telephonist_agent.Triggers.Composite.{composite_triggers_scheduler, stop_each}
use telephonist_agent.Triggers.Composite
use telephonist_agent.Triggers.Cron.{Gocron, CronTriggersScheduler}
use telephonist_agent.Triggers.Fs.{Watcher, FsTriggersScheduler}
use telephonist_agent.Triggers.OnEvent.{TelephonistScheduler}
use telephonist_agent.Triggers.OnEvent as OnEvent
use telephonist_agent.Queue.{unsubscribe_all, unsubscribe_each}
use telephonist_agent.Tasks.{TaskScheduler}
use telephonist_agent.Tasks
use telephonist_agent.App.Lifecycle.{
  all_parts, Agent, Executor, Environment, at_client, at_wsc, start, stop_agent,
}
use telephonist_agent.App.Lifecycle.Starting.{running, without_tasks}

-- The schedulers of triggers after `Stop`.
abbrev pub halted : {G J W : Type 0} → Gocron G J → Watcher W → G → WsClient → W → Executor G J W
halted gocron fsnotify g c w = record (running gocron g c w) {
  child_schedulers =
      cron (record {
        cron_scheduler = gocron.stop (gocron.start_async g);
        has_callback = true;
        jobs = [];
      })
      ∷ on_event (record {
        client = c;
        next_channel = 1;
        queue = none;
        subscriptions_counters = [];
        triggers = [];
        event_triggers = [];
        has_callback = true;
      })
      ∷ fs (record {
        watcher = fsnotify.close w;
        path_triggers = [];
        triggers = [];
        has_callback = true;
        is_running = false;
      })
      ∷ [];
  is_running = false;
}

unsubscribe_each-Returns :
    (m : Map Bytes ℕ) (c : WsClient) → c.send_messages ≡ pumped → Returns (unsubscribe_each m c)
unfolding unsubscribe_each
unsubscribe_each-Returns [] c p = (c, refl, p)
unsubscribe_each-Returns ((event, id) ∷ rest) c p =
    let (c1, removed, p1) = remove_event_channel-Returns event id c p in
    let (c2, others, p2) = unsubscribe_each-Returns rest c1 p1 in (c2, rw removed others, p2)

-- While the client sends, `Stop` of the event scheduler returns and forgets the queue.
on_event-stops :
    (t : TelephonistScheduler)
    → t.client.send_messages ≡ pumped
    → (t' : TelephonistScheduler) × (OnEvent.stop t ≡ done t')
      × (t'.queue ≡ none)
      × (t'.client.send_messages ≡ pumped)
unfolding OnEvent.stop unsubscribe_all
on_event-stops t p = elim (Option-cases t.queue) [
  | inl off ↦ (t, ground arith, off, p)
  | inr (q, on) ↦
      let (c, gone, p') = unsubscribe_each-Returns q.subscribed t.client p in
      (record t { client = c; queue = none }, ground arith, refl, p')
]

client-stops :
    (c : WsClient)
    → c.send_messages ≡ pumped
    → (c' : WsClient) × (stop c ≡ done c') × (c'.state ≡ ClientState.stopped)
unfolding stop close_channel
client-stops c p = elim (ClientState-discrete c.state ClientState.stopped) [
  | yes e ↦ (c, ground arith, e)
  | no n ↦ (record c { state = ClientState.stopped; send_messages = closed }, ground arith, refl)
]

module _ {G J W : Type 0} (env : Environment G J W) where
  -- The three children after `Stop`, with an event child.
  abbrev pub stopped_children :
      CronTriggersScheduler G J → TelephonistScheduler → FsTriggersScheduler W → List (Child G J W)
  stopped_children c t f =
      cron (record c { cron_scheduler = env.gocron.stop c.cron_scheduler })
      ∷ on_event t
      ∷ fs (record f { is_running = false; watcher = env.fsnotify.close f.watcher })
      ∷ []

  stop-three :
      (c : CronTriggersScheduler G J) (t t' : TelephonistScheduler) (f : FsTriggersScheduler W)
      → OnEvent.stop t ≡ done t'
      → stop_each
          (child_scheduler env.gocron env.fsnotify env.unmarshal)
          (cron c ∷ on_event t ∷ fs f ∷ [])
        ≡ done (stopped_children c t' f)
  unfolding stop_each child_scheduler
  stop-three c t t' f h = rw h refl

  -- When the three schedulers of an application run and the websocket client sends, `Stop` of the
  -- application returns. The cron library is stopped, the event scheduler has no queue, the file watcher is
  -- closed and its scheduler does not run, and the client is stopped. `Start` then reports no error and
  -- changes nothing, so that they all stay so.
  pub stop-start :
      (e : Agent G J W) (ts : TaskScheduler (Executor G J W)) (c : CronTriggersScheduler G J)
      (t : TelephonistScheduler) (f : FsTriggersScheduler W)
      → e.parts ≡ all_parts ts
      → ts.triggers_scheduler.is_running ≡ true
      → ts.triggers_scheduler.child_schedulers ≡ cron c ∷ on_event t ∷ fs f ∷ []
      → t.client.send_messages ≡ pumped
      → (e' : Agent G J W) × (ts' : TaskScheduler (Executor G J W)) × (t' : TelephonistScheduler)
        × (stop_agent env e ≡ done e')
        × (e'.parts ≡ all_parts ts')
        × (ts'.triggers_scheduler.is_running ≡ false)
        × (ts'.triggers_scheduler.child_schedulers ≡ stopped_children c t' f)
        × (t'.queue ≡ none)
        × (t'.client.state ≡ ClientState.stopped)
        × (start env e' ≡ done (e', none))
  unfolding start stop_agent Tasks.stop at_wsc at_client trigger_executor
      composite_triggers_scheduler Composite.stop
  stop-start e ts c t f all runs children sends =
      let (t1, halted, off, p1) = on_event-stops t sends in
      let (c2, shut, down) = client-stops t1.client p1 in
      let t2 = record t1 { client = c2 } in
      let ts2 : TaskScheduler (Executor G J W) = record ts {
        triggers_scheduler = record ts.triggers_scheduler {
          child_schedulers = stopped_children c t2 f;
          is_running = false;
        };
      } in
      let three = stop-three c t t1 f halted in
      (
        record e { parts = all_parts ts2 },
        ts2,
        t2,
        rw (stop_agent, all, runs, children, three, shut) refl,
        refl,
        refl,
        refl,
        off,
        down,
        refl,
      )

  -- `Stop` of an application that has just started and scheduled no task stops the three schedulers, and
  -- then comes to what `Stop` of its websocket client comes to, a panic included.
  pub stop_running :
      (e : Agent G J W) (g : G) (c : WsClient) (w : W)
      → e.parts ≡ all_parts (without_tasks (running env.gocron g c w))
      → stop_agent env e ≡ (
          stop c >>= λ c'.
          done (record e {
            parts = all_parts (without_tasks (halted env.gocron env.fsnotify g c' w));
          }))
  unfolding stop_agent at_wsc at_client Tasks.stop trigger_executor composite_triggers_scheduler
      Composite.stop stop_each child_scheduler OnEvent.stop unsubscribe_all unsubscribe_each
  stop_running e g c w all = ground arith
