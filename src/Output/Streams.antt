-- ===== src/Output/Streams.antt =====
-- taskexecutor/output.go: what the streams have given so far, and what a flush leaves of it.
use mathlib.Core.List.{append_assoc, append-nil}
use mathlib.Core.Path.{subst}
use telephonist_agent.Base.{
  ℕ, ◌≡◌, refl, sym, ◌∙◌, ap, ap₂, Bytes, List, [], ◌∷◌, ◌++◌, Bool, true, false, length,
  ℕ_discrete, ite, arith, nil_of_length,
}
use telephonist_agent.Ws.{LogRecord}
use telephonist_agent.Output.{
  new_output_buffer, OutputBuffer, RecordType, no_record, stdout_record, stderr_record,
  severity_info, severity_error, handed, flush, flush_as, flush_record,
}

-- The bytes of the records of one severity.
pub logged : ℕ → List LogRecord → Bytes
logged severity [] = []
logged severity (r ∷ rs) =
    ite (ℕ_discrete r.severity severity) (r.body ++ logged severity rs) (logged severity rs)

-- The severity under which a stream is logged.
abbrev pub severity_of : Bool → ℕ
severity_of true = severity_error
severity_of false = severity_info

abbrev pub pending : Bool → OutputBuffer → Bytes
pending true buf = buf.stderr
pending false buf = buf.stdout

-- All that a stream has given so far: delivered, in records, and in the buffer.
unfoldable pub streamed : Bool → OutputBuffer → Bytes
unfolding logged
streamed s buf =
    logged (severity_of s) buf.delivered ++ (logged (severity_of s) buf.records ++ pending s buf)

-- Only the stream of the current record has bytes in its buffer.
abbrev pub IsClean : RecordType → OutputBuffer → Type 0
IsClean no_record buf = (buf.stdout ≡ []) × (buf.stderr ≡ [])
IsClean stdout_record buf = buf.stderr ≡ []
IsClean stderr_record buf = buf.stdout ≡ []

-- So it is, and the callback is set.
pub record IsValid (buf : OutputBuffer) : Type 0 where
  pub callback : buf.has_callback ≡ true
  pub clean : IsClean buf.current_record_type buf

logged-append : (n : ℕ) (rs qs : List LogRecord) → logged n (rs ++ qs) ≡ logged n rs ++ logged n qs
unfolding logged
logged-append n [] qs = refl
logged-append n (r ∷ rs) qs =
    ground (arith, logged-append n rs qs, append_assoc r.body (logged n rs) (logged n qs))

-- What a step has to leave: a valid buffer, with the same streams but for what is written.
pub record Keeps (more : Bool → Bytes) (buf buf' : OutputBuffer) : Type 0 where
  pub valid : IsValid buf'
  pub streams : (s : Bool) → streamed s buf' ≡ streamed s buf ++ more s

pub flush-Keeps : (now : ℕ) (buf : OutputBuffer) → IsValid buf → Keeps (λ s. []) buf (flush now buf)
unfolding flush streamed logged
flush-Keeps now buf v = record {
  valid = ground arith;
  streams = λ s. ground (
    arith,
    append-nil (streamed s buf),
    logged-append (severity_of s) buf.delivered buf.records,
    append_assoc (logged (severity_of s) buf.delivered) (logged (severity_of s) buf.records)
        (pending s buf),
  );
}

pub flush_as-streams :
    (t : RecordType) (s : Bool) (now : ℕ) (buf : OutputBuffer)
    → IsClean t buf
    → streamed s (flush_as t now buf) ≡ streamed s buf
unfolding flush_as streamed logged
flush_as-streams no_record s now buf v = refl
flush_as-streams stdout_record true now buf v = ground (
  arith,
  logged-append (severity_of true) buf.records
      (record { time = now; severity = severity_info; body = buf.stdout } ∷ []),
  append-nil buf.stdout,
  append-nil (logged (severity_of true) buf.records),
)
flush_as-streams stdout_record false now buf v = ground (
  arith,
  logged-append (severity_of false) buf.records
      (record { time = now; severity = severity_info; body = buf.stdout } ∷ []),
  append-nil buf.stdout,
  append-nil (logged (severity_of false) buf.records ++ buf.stdout),
)
flush_as-streams stderr_record true now buf v = ground (
  arith,
  logged-append (severity_of true) buf.records
      (record { time = now; severity = severity_error; body = buf.stderr } ∷ []),
  append-nil buf.stderr,
  append-nil (logged (severity_of true) buf.records ++ buf.stderr),
)
flush_as-streams stderr_record false now buf v = ground (
  arith,
  logged-append (severity_of false) buf.records
      (record { time = now; severity = severity_error; body = buf.stderr } ∷ []),
  append-nil buf.stderr,
  append-nil (logged (severity_of false) buf.records),
)

pub flush_as-IsValid :
    (t : RecordType) (now : ℕ) (buf : OutputBuffer)
    → t ≡ buf.current_record_type
    → IsClean t buf
    → buf.has_callback ≡ true
    → IsValid (flush_as t now buf)
unfolding flush_as
flush_as-IsValid no_record now buf e v h = record {
  callback = h;
  clean = subst (λ u. IsClean u buf) e v;
}
flush_as-IsValid stdout_record now buf e v h = record { callback = h; clean = (refl, v) }
flush_as-IsValid stderr_record now buf e v h = record { callback = h; clean = (v, refl) }

pub closing-Keeps :
    (now : ℕ) (buf : OutputBuffer)
    → IsValid buf
    → Keeps (λ s. []) buf (flush now (flush_record now buf))
unfolding flush_record
closing-Keeps now buf v =
    let buf' = flush_as buf.current_record_type now buf in
    let k =
      flush-Keeps now buf'
        (flush_as-IsValid buf.current_record_type now buf refl v.clean v.callback) in
    record {
      valid = k.valid;
      streams = λ s.
          k.streams s
          ∙ ap (λ w. w ++ []) (flush_as-streams buf.current_record_type s now buf v.clean);
    }

pub flush_as-pending :
    (t : RecordType) (s : Bool) (now : ℕ) (buf : OutputBuffer)
    → IsClean t buf
    → pending s (flush_as t now buf) ≡ []
unfolding flush_as
flush_as-pending no_record true now buf v = v.1
flush_as-pending no_record false now buf v = v.0
flush_as-pending stdout_record true now buf v = v
flush_as-pending stdout_record false now buf v = refl
flush_as-pending stderr_record true now buf v = refl
flush_as-pending stderr_record false now buf v = v

pub flush-pending :
    (s : Bool) (now : ℕ) (buf : OutputBuffer) → pending s (flush now buf) ≡ pending s buf
unfolding flush
flush-pending true now buf = ground arith
flush-pending false now buf = ground arith

pub flush-records : (now : ℕ) (buf : OutputBuffer) → (flush now buf).records ≡ []
unfolding flush
flush-records now buf =
    elim (ℕ_discrete (length buf.records) 0)
      as (λ d.
        (ite d buf (record buf {
          last_flush = now;
          delivered = buf.delivered ++ handed buf.has_callback buf.records;
          records = [];
        })).records
        ≡ []) [ yes e ↦ nil_of_length buf.records e | no _ ↦ refl ]

pub delivered-streamed :
    (s : Bool) (buf : OutputBuffer)
    → buf.records ≡ []
    → pending s buf ≡ []
    → logged (severity_of s) buf.delivered ≡ streamed s buf
unfolding streamed logged
delivered-streamed s buf e f = sym (
    ap₂ (λ rs p. logged (severity_of s) buf.delivered ++ (logged (severity_of s) rs ++ p)) e f
    ∙ append-nil (logged (severity_of s) buf.delivered))

-- A buffer that was just started is valid and has given nothing.
pub streamed-new :
    (now : ℕ) (s : Bool) → streamed s (record (new_output_buffer true) { last_flush = now }) ≡ []
unfolding streamed logged new_output_buffer
streamed-new now true = refl
streamed-new now false = refl

pub new_output_buffer-IsValid :
    (now : ℕ) → IsValid (record (new_output_buffer true) { last_flush = now })
unfolding new_output_buffer
new_output_buffer-IsValid now = record { callback = refl; clean = (refl, refl) }
