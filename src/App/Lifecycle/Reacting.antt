-- ===== src/App/Lifecycle/Reacting.antt =====
-- scheduler.go: from `Start` of the application to the run of a task that the server gives it.
use telephonist_agent.Base.{
  ℕ, ◌≡◌, refl, [], ◌∷◌, inl, false, none, some, Map, Mem, lookup, insert, ℕ_discrete, done, arith,
}
use telephonist_agent.Task.{Event, TaskTrigger, DefinedTask, UnmarshalString, trigger_event}
use telephonist_agent.Rest.{Client}
use telephonist_agent.Ws.{WsClient, new_ws_client, pumped}
use telephonist_agent.Ws.Subscriptions.{IsSynced}
use telephonist_agent.Ws.Receiving.{offered, on_new_event}
use telephonist_agent.Queue.{EventQueue, is_subscribed}
use telephonist_agent.Triggers.{TriggeredEvent}
use telephonist_agent.Triggers.OnEvent.{TelephonistScheduler, drain_event, counter}
use telephonist_agent.Triggers.OnEvent.Counters.{triggers_of}
use telephonist_agent.Triggers.OnEvent.Agreement.{IsConsistent}
use telephonist_agent.Triggers.OnEvent.Holding.{IsAttached}
use telephonist_agent.Triggers.Children.{cron, on_event, fs}
use telephonist_agent.Tasks.{TaskScheduler, TaskTriggeredEvent, schedule, on_trigger}
use telephonist_agent.Config.{File}
use telephonist_agent.App.{on_task, save}
use telephonist_agent.App.Storage.{load_or_write}
use telephonist_agent.App.Reaction.{new_task_runs}
use telephonist_agent.App.Lifecycle.{
  Agent, Executor, Environment, all_parts, ops, start, agent_on_task,
}
use telephonist_agent.App.Lifecycle.Starting.{
  has_scheduler, running, running_cron, running_events, running_files, without_tasks, start_runs,
}

running_events-IsConsistent :
    (unmarshal : UnmarshalString) (c : WsClient) → IsConsistent unmarshal (running_events c)
unfolding counter triggers_of is_subscribed lookup
running_events-IsConsistent unmarshal c = record {
  counts = λ ev. refl;
  positive = λ ev h. absurd (ground arith);
  distinct = λ ev. tt;
  filed = λ id t h. absurd (ground arith);
  registered = λ ev id t h. absurd (ground arith);
  subscribed = λ q on ev. ground arith;
}

running_events-IsAttached : (c : WsClient) → IsSynced c → IsAttached (running_events c)
unfolding lookup
running_events-IsAttached c synced = record {
  held = λ q on e i there. absurd (ground arith);
  synced = synced;
}

module _ {G J W : Type 0} (env : Environment G J W) where
  pub on_task-parts :
      (d : DefinedTask) (e : Agent G J W) (ts ts' : TaskScheduler (Executor G J W))
      → e.parts ≡ all_parts ts
      → schedule (ops env) d ts ≡ done ts'
      → (e' : Agent G J W) × (agent_on_task env d e ≡ done e') × (e'.parts ≡ all_parts ts')
  unfolding agent_on_task on_task save
  on_task-parts d e ts ts' there scheduled =
      let r = save env.json (record {
        task_scheduler = ts';
        config = insert ℕ_discrete d.id d e.config;
        file = e.file;
      }) in
      (record e { parts = all_parts ts'; config = r.config; file = r.file }, ground arith, refl)

  -- For an agent with a REST client and without a task scheduler, when the configuration is read, or is not
  -- there and is written, without an error, the file watcher is made and the loop of the websocket client
  -- has connected by then, with the server's subscriptions those of the client's table, `Start` returns
  -- without an error, and so does `onTask` of a task whose one trigger is on an event. The server then holds
  -- subscriptions to just the events of the client's table. When the client receives an event of the
  -- trigger's key, it offers the event to the channel of the event scheduler's queue; a round of `drain` with
  -- the event calls back with the trigger; and that call makes the task scheduler call back with the task.
  pub started_agent_reacts :
      (e : Agent G J W) (cl : Client) (w : W) (config : Map ℕ DefinedTask) (file : File)
      (d : DefinedTask) (trigger : TaskTrigger) (event : Event) (now : ℕ)
      → has_scheduler e.parts ≡ false
      → e.client ≡ some cl
      → env.new_watcher ≡ inl w
      → load_or_write env.json e.config e.file ≡ (config, file, none)
      → (env.ran new_ws_client).send_messages ≡ pumped
      → IsSynced (env.ran new_ws_client)
      → d.triggers ≡ trigger ∷ []
      → trigger.name ≡ trigger_event
      → env.unmarshal trigger.body ≡ some event.event_key
      → (e1 : Agent G J W) × (e2 : Agent G J W) × (ts : TaskScheduler (Executor G J W))
        × (t : TelephonistScheduler) × (q : EventQueue) × (start env e ≡ done (e1, none))
        × (agent_on_task env d e1 ≡ done e2)
        × (e2.parts ≡ all_parts ts)
        × (ts.triggers_scheduler.child_schedulers
            ≡ cron (running_cron env.gocron env.new_gocron)
              ∷ on_event t
              ∷ fs (running_files w)
              ∷ [])
        × (t.queue ≡ some q)
        × IsSynced t.client
        × Mem (offered q.channel event) (on_new_event event t.client)
        × (te : TriggeredEvent) × Mem te (drain_event event t)
        × (te.trigger ≡ trigger)
        × (call : TaskTriggeredEvent) × Mem call (on_trigger now te ts)
        × (call.task ≡ d)
        × (call.trigger_event ≡ te)
  unfolding lookup
  started_agent_reacts e cl w config file d trigger event now fresh set watched read sends synced
        one name body =
      let c = env.ran new_ws_client in
      let (e1, started, _, _, parts) = start_runs env e cl w config file fresh set watched read in
      let (
        ts, t, q, scheduled, children, on, _, att, offers, te, drained, same, call, made, task, of,
      ) =
        new_task_runs env.gocron env.fsnotify env.unmarshal
          (without_tasks (running env.gocron env.new_gocron c w))
          (running_cron env.gocron env.new_gocron) (running_events c) (running_files w)
          (record { channel = 0; subscribed = [] }) d trigger event now refl refl refl
          (running_events-IsConsistent env.unmarshal c) refl sends
          (running_events-IsAttached c synced) one name body refl refl in
      let (e2, taken, parts') =
        on_task-parts d e1 (without_tasks (running env.gocron env.new_gocron c w)) ts parts
          scheduled in
      (
        e1, e2, ts, t, q, started, taken, parts', children, on, att.synced, offers, te, drained,
        same, call, made, task, of,
      )
