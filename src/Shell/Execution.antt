-- ===== src/Shell/Execution.antt =====
-- taskexecutor/executor.go: `Execute`, over the processes and pipes of the operating system.
use telephonist_agent.Base.{
  ℕ, ◌≡◌, ◌<◌, Bytes, List, [], ◌∷◌, ◌++◌, true, false, Option, none, some, Map, length, dec_lt,
  ite, Go, done, panic, blocked, ◌>>=◌, arith,
}
use telephonist_agent.Errors.{Error}
use telephonist_agent.Task.{task_must_string, DefinedTask, UnmarshalString}
use telephonist_agent.Ws.{LogRecord}
use telephonist_agent.Shell.{Value, can_execute, shell_of, environment}
use telephonist_agent.Output.{OutputBuffer, new_output_buffer, Step, closes, step, run}

-- How a process that ran ended: what its two streams and the clock did to the output buffer, the time
-- at which the buffer was stopped, and the error of `Run`. `Run` closes the pipes when the process ends, so
-- that the steps may lack output that the process wrote and nobody had read yet.
pub record Ended : Type 0 where
  pub steps : List Step
  pub stopped_at : ℕ
  pub error : Option Error

-- `exec.Cmd` of a shell: its pipes, and a run with an environment and an input. A pipe that nobody
-- reads takes `pipe_capacity` bytes. `W` is the state of all that stands outside of the process.
pub record Exec (W : Type 0) : Type 0 where
  pub stdin_pipe : Bytes → W → Option Error
  pub stdout_pipe : Bytes → W → Option Error
  pub stderr_pipe : Bytes → W → Option Error
  pub pipe_capacity : ℕ
  pub run_shell : Bytes → List Bytes → Bytes → W → W × Ended

-- The outside, the records that the callback was given, and the error.
abbrev pub Executed : Type 0 → Type 0
Executed W = W × List LogRecord × Option Error

-- `Start` of the output buffer.
started : ℕ → OutputBuffer → OutputBuffer
started now buf = record buf { last_flush = now }

-- The records of a buffer that was started, written to and stopped.
collected : ℕ → Ended → List LogRecord
unfolding started
collected now e =
    (step (closes e.stopped_at) (run e.steps (started now (new_output_buffer true)))).delivered

module _ {W : Type 0} (exec : Exec W) (unmarshal : UnmarshalString) where
  -- What follows once the input stands in its pipe.
  ran : ℕ → Bytes → List Bytes → Bytes → W → Executed W
  unfolding collected
  ran now shell env body w = elim (exec.stderr_pipe shell w) [
    | some err ↦ (w, [], some err)
    | none ↦ elim (exec.stdout_pipe shell w) [
      | some err ↦ (w, [], some err)
      | none ↦
          let (w', ended) = exec.run_shell shell env body w in
          (w', collected now ended, ended.error)
    ]
  ]

  -- The input is written before the process is started, so that nobody reads the pipe yet.
  fed : ℕ → Bytes → List Bytes → Bytes → W → Go (Executed W)
  unfolding ran
  fed now shell env body w = elim (exec.stdin_pipe shell w) [
    | some err ↦ done (w, [], some err)
    | none ↦ ite (dec_lt exec.pipe_capacity (length body)) blocked (done (ran now shell env body w))
  ]

  -- `Execute` with a callback.
  unfoldable pub execute : ℕ → DefinedTask → Map Bytes Value → W → Go (Executed W)
  unfolding fed
  execute now task params w = elim (can_execute task) [
    | false ↦ panic
    | true ↦ do
      text ← task_must_string unmarshal task
      fed now (shell_of task.body.body_type text) (environment params) (text ++ 10 ∷ []) w
  ]

  -- When the task can be executed, its body is a text and the input's pipe is made, but the text and
  -- its newline are longer than what a pipe takes, `Execute` waits for ever.
  pub execute_blocks :
      (now : ℕ) (task : DefinedTask) (params : Map Bytes Value) (text : Bytes) (w : W)
      → can_execute task ≡ true
      → unmarshal task.body.value ≡ some text
      → exec.stdin_pipe (shell_of task.body.body_type text) w ≡ none
      → exec.pipe_capacity < length (text ++ 10 ∷ [])
      → execute now task params w ≡ blocked
  unfolding execute
  execute_blocks now task params text w able decoded opened long = ground arith
