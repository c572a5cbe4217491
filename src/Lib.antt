-- ===== src/Lib.antt =====
-- TelephonistAgent, an agent that keeps a websocket connection to a Telephonist server, receives
-- tasks, schedules them on triggers, runs them in a shell and reports their output.
--
-- The parts and their files, with the code that each models:
-- - Base: maps, texts, lists and the result of a Go call, shared by all.
-- - Task, Task/Id, Task/Validation (telephonist/types.go): triggers, tasks, events, `Validate`, and
--   `GetID`, FNV-1a over native numbers modulo 2 ^ 64.
-- - Errors (utils/errors.go, telephonist/error.go): the error types, `ChainError` and `Error`.
-- - Ws (telephonist/wsclient.go): `WSClient`, `addEventChannel`, `removeEventChannel`,
--   `onGreetings`, with Ws/Subscriptions and Ws/Sending; Ws/Lifecycle: `connect`, a round of
--   `runLoop`, `onDisconnect`, `Stop`, `onIntroduction`, with Ws/Lifecycle/Connection and, for
--   its interleavings, Ws/Lifecycle/Loop, with Ws/Lifecycle/Loop/Channels; Ws/Receiving: `handleMessage`, `onNewEvent`;
--   Ws/Reading: `readPump`; Ws/Writing: `writePump`.
-- - Queue (telephonist/events.go): `EventQueue`, with Queue/Delivery, Queue/Offers and
--   Queue/Subscribing.
-- - Triggers (taskscheduler/trigger_scheduler.go): the interface `TriggersScheduler`; its
--   implementations are Triggers/Cron, Triggers/Fs (also taskscheduler/utils.go), Triggers/OnEvent
--   (`TelephonistScheduler`) and Triggers/Composite, with theorems below the last three;
--   Triggers/Explaining: the `Explain` methods.
-- - Tasks (taskscheduler/task_scheduler.go): `taskScheduler`, with Tasks/Links,
--   Tasks/Updating, Tasks/Schedule and Tasks/Returning, Tasks/Single, Tasks/Others; Tasks/AddTaskError
--   (taskscheduler/errors.go).
-- - Output (taskexecutor/output.go): `OutputBuffer`, with Output/Streams, Output/Writing
--   and Output/Loss.
-- - Shell (taskexecutor/executor.go, taskexecutor/utils.go): the shell and the environment of a
--   task, with Shell/Environment and Shell/Shebang; Shell/Execution: `Execute`; Shell/Lines:
--   `getLines`.
-- - Rest (telephonist/client.go, telephonist/sequence.go): the REST client, with Rest/Payloads for
--   what it sends, Rest/Endpoints for its calls, Rest/Address for its addresses and
--   Rest/Outcomes.
-- - Config (config.go): a configuration file, with Config/Saving.
-- - Db (db/db.go, db/records.go): the local database of sequences, with Db/Sequences.
-- - App (scheduler.go): `onTasks`, `onTask` and `onTaskRemoved`, with App/Removal; App/Storage:
--   `ExecutorConfigFile`; App/Lifecycle: `Start` and `Stop` of the application, with
--   App/Lifecycle/Starting and App/Lifecycle/Stopping, and, from `Start` to the runs of a task by
--   an event, a file and a cron job, App/Lifecycle/Reacting, App/Lifecycle/Watching and
--   App/Lifecycle/Timing; App/Running: `executeTask`, with App/Running/Reporting; App/Instance:
--   `getOrSetInstanceID`, and the local server of httpServer.go; App/Answer: what that server
--   answers; App/Hello (also telephonist/os.go): what the agent says of itself; App/Delivery and
--   App/Reaction, from a task's schedule and an event to the task's runs; App/Scheduling, `Schedule`
--   of a task with any triggers over the schedulers of the program. `createExecutor` makes the
--   schedulers of Triggers/Children, with Triggers/Children/Reaching and Triggers/Children/Taking.
-- - Cli (app.go, utils.go): Cli/Agent: `action`, the run of the agent, with Cli/Agent/Readiness;
--   Cli/Dialogue, the questions that are asked, with Cli/Dialogue/Tags and Cli/Dialogue/Trimming;
--   Cli/Startup, the client that the agent starts with, with Cli/Startup/Outcomes; Cli/Init, the
--   `init` command, with Cli/Init/Keys; Cli/Service (linuxService.go), the installation of the
--   service.
-- - Locales (locales/main.go): the choice of the language.
-- - LoadTest (test/test.go): the load test, with LoadTest/Counting.
-- - Tests: runs at concrete data.
--
-- How they interact. The task scheduler calls one `TriggersScheduler`, which in the program is the
-- composite one; that calls its children; the event scheduler calls an event queue, which calls the
-- websocket client. Here `TriggersScheduler` is a record of operations over a state, a parameter of
-- Tasks and Triggers/Composite, and each implementation fills it. A state that the code reaches by
-- a pointer is part of the state of what points to it: the client is a field of the event
-- scheduler. A callback is a flag, and what it would be called with is a list;
-- those of the websocket client's options are functions of the client, which they may change.
--
-- A method that changes its receiver takes it and returns it. `Go` says what a call comes to: a
-- value, a panic, the end of the process by a fatal log line, or a wait or loop without end.
-- A map is an association list in which an insertion replaces; ranges go in the list's order. Times
-- are arguments. A 32-bit or 64-bit number keeps its modulus; a UUID is a number; a text is a list
-- of bytes. No definition needs fuel but `log2_up` of Triggers/Composite, which counts the bits of
-- n at most n times; 2 ^ n is at least n, so that n rounds are enough.
--
-- `action` makes the client and then the application, which starts the schedulers and the websocket
-- client. The client is one object that the application and the event scheduler point to: before there
-- is a task scheduler it stands in the application, from then on in the event scheduler. A run of a task
-- goes from `onTrigger` to `executeTask`, which asks the REST client for a sequence, has the shell
-- executor run the task, hands the records of the output buffer on, and tells the server of the end.
-- `init` leaves the configuration that the agent reads when it starts.
--
-- Parameters, for code of other packages: the file watcher, the cron scheduler, JSON codecs, the HTTP
-- requests of gorequest, the validator, the store of bbolt, processes and pipes, `filepath.Abs`,
-- `url.Parse`, the text of a UUID or of a system error, and the answers of the server and of the
-- websocket dialer. What is typed is a list of lines, each of which is read at once, as a terminal
-- gives them; a reader's own buffer is not modelled.
--
-- Not modelled: locks, since every method runs as one step, but for the interleavings of
-- Ws/Lifecycle/Loop and LoadTest; the bytes on the wire; flags, logs and printed texts, and the
-- messages of locales/generated_messages.go; `main`, which only runs the application; types that only
-- carry JSON of answers; the process that a task runs in, so that the output which reaches the buffer before
-- `Run` closes the pipes is a parameter; the effect on the websocket client of the logs that
-- `executeTask` sends; tests, and loggers, of another package. The counters of subscriptions, of Go's
-- type int, are natural numbers: each counts entries of a map. `TrimSpace` is modelled for ASCII.
pub mod Base
pub mod Task
pub mod Errors
pub mod Ws
pub mod Queue
pub mod Triggers
pub mod Tasks
pub mod Output
pub mod Shell
pub mod Rest
pub mod Cli
pub mod Locales
pub mod LoadTest
pub mod Config
pub mod Db
pub mod App
pub mod Tests
