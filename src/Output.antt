-- ===== src/Output.antt =====
-- taskexecutor/output.go: the buffer between a task's output streams and the log of the server.
pub mod Streams
pub mod Writing
pub mod Loss
use telephonist_agent.Base.{
  ℕ, ◌+◌, Bytes, List, [], ◌∷◌, ◌++◌, Bool, true, false, length, ℕ_discrete, ite, dec_lt,
}
use telephonist_agent.Ws.{LogRecord}

pub data RecordType : Type 0 where
  no_record stdout_record stderr_record : RecordType

-- `SEVERITY_INFO` and `SEVERITY_ERROR`
abbrev pub severity_info : ℕ
severity_info = 20

abbrev pub severity_error : ℕ
severity_error = 40

-- Times are in microseconds. `delivered` is what the callback was given, the oldest first.
pub record OutputBuffer : Type 0 where
  pub has_callback : Bool
  pub last_flush : ℕ
  pub stdout : Bytes
  pub stderr : Bytes
  pub records : List LogRecord
  pub current_record_type : RecordType
  pub record_deadline_us : ℕ
  pub delivered : List LogRecord

unfoldable pub new_output_buffer : Bool → OutputBuffer
new_output_buffer has_callback = record {
  has_callback = has_callback;
  last_flush = 0;
  stdout = [];
  stderr = [];
  records = [];
  current_record_type = no_record;
  record_deadline_us = 0;
  delivered = [];
}

-- The records that a flush hands to the callback.
handed : Bool → List LogRecord → List LogRecord
handed true records = records
handed false records = []

unfoldable pub flush : ℕ → OutputBuffer → OutputBuffer
unfolding handed
flush now buf = ite (ℕ_discrete (length buf.records) 0) buf (record buf {
  last_flush = now;
  delivered = buf.delivered ++ handed buf.has_callback buf.records;
  records = [];
})

-- `FlushRecord`, by the type of the current record.
pub flush_as : RecordType → ℕ → OutputBuffer → OutputBuffer
flush_as no_record now buf = buf
flush_as stderr_record now buf = record buf {
  records = buf.records ++ record { time = now; severity = severity_error; body = buf.stderr } ∷ [];
  stderr = [];
  current_record_type = no_record;
}
flush_as stdout_record now buf = record buf {
  records = buf.records ++ record { time = now; severity = severity_info; body = buf.stdout } ∷ [];
  stdout = [];
  current_record_type = no_record;
}

unfoldable pub flush_record : ℕ → OutputBuffer → OutputBuffer
unfolding flush_as
flush_record now buf = flush_as buf.current_record_type now buf

-- The buffer's state when `Write` puts the bytes in: a record of the other stream, or one that is
-- past its deadline, ends here.
ready : RecordType → RecordType → ℕ → OutputBuffer → OutputBuffer
ready no_record _ now buf = record buf { record_deadline_us = now + 20000 }
ready stdout_record stderr_record now buf = flush_record now buf
ready stderr_record stdout_record now buf = flush_record now buf
ready _ _ now buf = ite (dec_lt buf.record_deadline_us now) (flush_record now buf) buf

put : Bytes → Bool → OutputBuffer → OutputBuffer
put bytes true buf = record buf {
  current_record_type = stderr_record;
  stderr = buf.stderr ++ bytes;
}
put bytes false buf = record buf {
  current_record_type = stdout_record;
  stdout = buf.stdout ++ bytes;
}

record_type : Bool → RecordType
record_type true = stderr_record
record_type false = stdout_record

-- `Write`; the clock reads the same throughout the call, and a write to memory does not fail.
unfoldable pub write : ℕ → Bytes → Bool → OutputBuffer → OutputBuffer
unfolding ready put record_type flush_record
write now bytes is_stderr buf =
    ite (ℕ_discrete (length bytes) 0) buf
      (put bytes is_stderr (ready buf.current_record_type (record_type is_stderr) now buf))

-- What can happen to a buffer: a write, a round of `flushLoop`, and the end of that loop.
pub data Step : Type 0 where
  writes : ℕ → Bytes → Bool → Step
  ticks : ℕ → Step
  closes : ℕ → Step

unfoldable pub step : Step → OutputBuffer → OutputBuffer
unfolding write flush flush_record
step (writes now bytes is_stderr) buf = write now bytes is_stderr buf
step (ticks now) buf = flush now buf
step (closes now) buf = flush now (flush_record now buf)

unfoldable pub run : List Step → OutputBuffer → OutputBuffer
run [] buf = buf
run (s ∷ steps) buf = run steps (step s buf)
