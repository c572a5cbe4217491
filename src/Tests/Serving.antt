-- ===== src/Tests/Serving.antt =====
-- scheduler.go: an agent that starts, is given a task and receives an event.
use telephonist_agent.Base.{
  Bytes-discrete, codes, exit, ℕ, ℕ_discrete, ◌≡◌, refl, [], ◌∷◌, true, false, none, some, Mem,
  lookup, done,
}
use telephonist_agent.Ws.{WsClient, new_ws_client, connected, pumped}
use telephonist_agent.Ws.Subscriptions.{IsSynced, subscribed_after}
use telephonist_agent.Ws.Receiving.{offered, on_new_event}
use telephonist_agent.Queue.{EventQueue}
use telephonist_agent.Triggers.{TriggeredEvent}
use telephonist_agent.Triggers.OnEvent.{TelephonistScheduler, drain_event}
use telephonist_agent.Triggers.Children.{cron, on_event, fs}
use telephonist_agent.Tasks.{TaskScheduler, TaskTriggeredEvent, on_trigger}
use telephonist_agent.Config.{load, read_into}
use telephonist_agent.App.Storage.{load_or_write}
use telephonist_agent.App.Lifecycle.{Agent, Environment, Executor, all_parts, start, agent_on_task}
use telephonist_agent.App.Lifecycle.Starting.{running_cron, running_events, running_files}
use telephonist_agent.App.Lifecycle.Reacting.{started_agent_reacts}
use telephonist_agent.App.Lifecycle.Timing.{started_agent_keeps_time}
use telephonist_agent.Triggers.Cron.{CronTriggersScheduler, trigger_job}
use telephonist_agent.Task.Id.{trigger_id}
use telephonist_agent.Task.{TaskTrigger, trigger_cron}
use telephonist_agent.App.Lifecycle.Watching.{started_agent_watches}
use telephonist_agent.Task.{DefinedTask}
use telephonist_agent.Triggers.Fs.{FsTriggersScheduler, dispatch_event, meta_of}
use telephonist_agent.Triggers.Fs.Paths.{matches_path, has_prefix, normalize_path, trim_slash}
use telephonist_agent.Errors.{message}
use telephonist_agent.Rest.Address.{join}
use telephonist_agent.Cli.Startup.{config_path, filename_helper}
use telephonist_agent.Cli.Agent.{before}
use telephonist_agent.Tests.Files.{on_a, write_under}
use telephonist_agent.Tests.Events.{on_build}
use telephonist_agent.Tests.Reactions.{build_task, built}
use telephonist_agent.Tests.Agents.{machine, dialled, gocron, stored, env, client, made}

-- A client whose loop has connected.
abbrev greeted : WsClient → WsClient
greeted c = record c { state = connected; send_messages = pumped; conn_open = true }

abbrev online : Environment ℕ ℕ ℕ
online = record env { ran = greeted }

greeted-IsSynced : IsSynced (greeted new_ws_client)
unfolding lookup subscribed_after new_ws_client
greeted-IsSynced e = refl

started_agent_reacts_example :
    (e1 : Agent ℕ ℕ ℕ) × (e2 : Agent ℕ ℕ ℕ) × (ts : TaskScheduler (Executor ℕ ℕ ℕ))
    × (t : TelephonistScheduler) × (q : EventQueue) × (start online made ≡ done (e1, none))
    × (agent_on_task online build_task e1 ≡ done e2)
    × (e2.parts ≡ all_parts ts)
    × (ts.triggers_scheduler.child_schedulers
        ≡ cron (running_cron gocron 0) ∷ on_event t ∷ fs (running_files 5) ∷ [])
    × (t.queue ≡ some q)
    × IsSynced t.client
    × Mem (offered q.channel built) (on_new_event built t.client)
    × (te : TriggeredEvent) × Mem te (drain_event built t)
    × (te.trigger ≡ on_build)
    × (call : TaskTriggeredEvent) × Mem call (on_trigger 5 te ts)
    × (call.task ≡ build_task)
    × (call.trigger_event ≡ te)
unfolding load_or_write load read_into
started_agent_reacts_example =
    started_agent_reacts online made client 5 [] stored build_task on_build built 5 refl refl refl
      refl refl greeted-IsSynced refl refl refl

-- A task on the files under /a.
abbrev watch_task : DefinedTask
watch_task = record build_task { triggers = on_a ∷ [] }

started_agent_watches_example :
    (e1 : Agent ℕ ℕ ℕ) × (e2 : Agent ℕ ℕ ℕ) × (ts : TaskScheduler (Executor ℕ ℕ ℕ))
    × (f : FsTriggersScheduler ℕ) × (start env made ≡ done (e1, none))
    × (agent_on_task env watch_task e1 ≡ done e2)
    × (e2.parts ≡ all_parts ts)
    × (ts.triggers_scheduler.child_schedulers
        ≡ cron (running_cron gocron 0)
          ∷ on_event (running_events (dialled new_ws_client))
          ∷ fs f
          ∷ [])
    × (te : TriggeredEvent) × Mem te (dispatch_event (λ p. some p) write_under f)
    × (te.trigger ≡ on_a)
    × (te.params ≡ meta_of (codes "/a/b") write_under)
    × (call : TaskTriggeredEvent) × Mem call (on_trigger 5 te ts)
    × (call.task ≡ watch_task)
    × (call.trigger_event ≡ te)
unfolding load_or_write load read_into matches_path has_prefix normalize_path trim_slash ℕ_discrete
started_agent_watches_example =
    started_agent_watches env made client 5 6 [] stored watch_task on_a (codes "/a") (codes "/a/b")
      (λ p. some p) write_under 5 refl refl refl refl refl refl refl refl refl refl

-- A task on a cron expression.
abbrev hourly : TaskTrigger
hourly = record { name = trigger_cron; body = codes "@hourly"; disabled = false }

abbrev hourly_task : DefinedTask
hourly_task = record build_task { triggers = hourly ∷ [] }

started_agent_keeps_time_example :
    (e1 : Agent ℕ ℕ ℕ) × (e2 : Agent ℕ ℕ ℕ) × (ts : TaskScheduler (Executor ℕ ℕ ℕ))
    × (c : CronTriggersScheduler ℕ ℕ) × (start env made ≡ done (e1, none))
    × (agent_on_task env hourly_task e1 ≡ done e2)
    × (e2.parts ≡ all_parts ts)
    × (ts.triggers_scheduler.child_schedulers
        ≡ cron c ∷ on_event (running_events (dialled new_ws_client)) ∷ fs (running_files 5) ∷ [])
    × (c.cron_scheduler ≡ 11)
    × (lookup ℕ_discrete (trigger_id hourly) c.jobs ≡ some 10)
    × (te : TriggeredEvent) × Mem te (trigger_job gocron env.unmarshal (trigger_id hourly) hourly c)
    × (te.trigger ≡ hourly)
    × (call : TaskTriggeredEvent) × Mem call (on_trigger 5 te ts)
    × (call.task ≡ hourly_task)
    × (call.trigger_event ≡ te)
unfolding load_or_write load read_into
started_agent_keeps_time_example =
    started_agent_keeps_time env made client 5 [] stored hourly_task hourly (codes "@hourly") 11 10
      5 refl refl refl refl refl refl refl refl

-- Without a flag the configuration stands in the folder, which is made first.
chosen :
    (before machine none (codes "/e") [] ≡ done (codes "/e", codes "/e/client-config.json"))
    × (before machine (some (message [])) (codes "/e") [] ≡ exit)
unfolding before config_path filename_helper join ℕ_discrete Bytes-discrete
chosen = (refl, refl)
