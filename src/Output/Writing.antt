-- ===== src/Output/Writing.antt =====
-- taskexecutor/output.go: what `Write` adds to what the streams have given.
use mathlib.Core.List.{append_assoc, append-nil}
use mathlib.Core.Path.{subst}
use telephonist_agent.Base.{
  ℕ, ◌+◌, ◌≡◌, refl, sym, ◌∙◌, ap, Bytes, [], ◌++◌, Bool, true, false, not, ◌≢◌, length, ℕ_discrete,
  ite, dec_lt, arith, nil_of_length,
}
use telephonist_agent.Output.Streams.{
  logged, pending, streamed, IsClean, IsValid, Keeps, flush_as-streams,
}
use telephonist_agent.Output.{
  OutputBuffer, RecordType, no_record, stdout_record, stderr_record, severity_info, severity_error,
  flush_as, flush_record, ready, put, record_type, write,
}

-- What `Write` finds: the same streams, and the other stream's buffer empty.
record Ready (is_stderr : Bool) (buf buf' : OutputBuffer) : Type 0 where
  callback : buf'.has_callback ≡ buf.has_callback
  other : pending (not is_stderr) buf' ≡ []
  same : (s : Bool) → streamed s buf' ≡ streamed s buf

flush_as-empty :
    (t : RecordType) (is_stderr : Bool) (now : ℕ) (buf : OutputBuffer)
    → IsClean t buf
    → t ≢ no_record
    → (pending (not is_stderr) (flush_as t now buf) ≡ [])
      × ((flush_as t now buf).has_callback ≡ buf.has_callback)
unfolding flush_as
flush_as-empty no_record b now buf v h = absurd (h refl)
flush_as-empty stdout_record true now buf v h = (refl, refl)
flush_as-empty stdout_record false now buf v h = (v, refl)
flush_as-empty stderr_record true now buf v h = (v, refl)
flush_as-empty stderr_record false now buf v h = (refl, refl)

ended-Ready :
    (t : RecordType) (b : Bool) (now : ℕ) (buf : OutputBuffer)
    → t ≡ buf.current_record_type
    → IsClean t buf
    → t ≢ no_record
    → Ready b buf (flush_record now buf)
unfolding flush_record
ended-Ready t b now buf e v h =
    subst (λ u. Ready b buf (flush_as u now buf)) e
      (record {
        callback = (flush_as-empty t b now buf v h).1;
        other = (flush_as-empty t b now buf v h).0;
        same = λ s. flush_as-streams t s now buf v;
      })

untimed_streams :
    (now : ℕ) (buf : OutputBuffer) (s : Bool)
    → streamed s (record buf { record_deadline_us = now + 20000 }) ≡ streamed s buf
unfolding streamed
untimed_streams now buf true = refl
untimed_streams now buf false = refl

ready-Ready :
    (t : RecordType) (is_stderr : Bool) (now : ℕ) (buf : OutputBuffer)
    → t ≡ buf.current_record_type
    → IsClean t buf
    → Ready is_stderr buf (ready t (record_type is_stderr) now buf)
unfolding ready record_type streamed
ready-Ready no_record true now buf e v = record {
  callback = refl;
  other = v.0;
  same = untimed_streams now buf;
}
ready-Ready no_record false now buf e v = record {
  callback = refl;
  other = v.1;
  same = untimed_streams now buf;
}
ready-Ready stdout_record true now buf e v = ended-Ready stdout_record true now buf e v (λ h. cc)
ready-Ready stderr_record false now buf e v = ended-Ready stderr_record false now buf e v (λ h. cc)
ready-Ready stdout_record false now buf e v =
    elim (dec_lt buf.record_deadline_us now)
      as (λ d. Ready false buf (ite d (flush_record now buf) buf)) [
        | yes _ ↦ ended-Ready stdout_record false now buf e v (λ h. cc)
        | no _ ↦ record { callback = refl; other = v; same = λ s. refl }
      ]
ready-Ready stderr_record true now buf e v =
    elim (dec_lt buf.record_deadline_us now)
      as (λ d. Ready true buf (ite d (flush_record now buf) buf)) [
        | yes _ ↦ ended-Ready stderr_record true now buf e v (λ h. cc)
        | no _ ↦ record { callback = refl; other = v; same = λ s. refl }
      ]

-- The bytes that a write adds to a stream.
abbrev pub added : Bytes → Bool → Bool → Bytes
added bytes true true = bytes
added bytes true false = []
added bytes false true = []
added bytes false false = bytes

put-streams :
    (s : Bool) (b : Bool) (bytes : Bytes) (buf : OutputBuffer)
    → streamed s (put bytes b buf) ≡ streamed s buf ++ added bytes b s
unfolding streamed put
put-streams true true bytes buf = ground (
  arith,
  append_assoc (logged severity_error buf.delivered)
      (logged severity_error buf.records ++ buf.stderr) bytes,
  append_assoc (logged severity_error buf.records) buf.stderr bytes,
)
put-streams false false bytes buf = ground (
  arith,
  append_assoc (logged severity_info buf.delivered) (logged severity_info buf.records ++ buf.stdout)
      bytes,
  append_assoc (logged severity_info buf.records) buf.stdout bytes,
)
put-streams true false bytes buf = sym (append-nil (streamed true buf))
put-streams false true bytes buf = sym (append-nil (streamed false buf))

put-IsValid :
    (b : Bool) (bytes : Bytes) (buf buf' : OutputBuffer)
    → IsValid buf
    → Ready b buf buf'
    → IsValid (put bytes b buf')
unfolding put
put-IsValid true bytes buf buf' v r = record { callback = r.callback ∙ v.callback; clean = r.other }
put-IsValid false bytes buf buf' v r = record {
  callback = r.callback ∙ v.callback;
  clean = r.other;
}

added-nil : (b : Bool) (s : Bool) → added [] b s ≡ []
added-nil true true = refl
added-nil true false = refl
added-nil false true = refl
added-nil false false = refl

empty-Keeps :
    (b : Bool) (bytes : Bytes) (buf : OutputBuffer)
    → length bytes ≡ 0
    → IsValid buf
    → Keeps (added bytes b) buf buf
empty-Keeps b bytes buf e v = record {
  valid = v;
  streams = λ s. sym (
      ap (λ w. streamed s buf ++ w) (ap (λ w. added w b s) (nil_of_length bytes e) ∙ added-nil b s)
      ∙ append-nil (streamed s buf));
}

pub write-Keeps :
    (now : ℕ) (bytes : Bytes) (b : Bool) (buf : OutputBuffer)
    → IsValid buf
    → Keeps (added bytes b) buf (write now bytes b buf)
unfolding write
write-Keeps now bytes b buf v =
    let r = ready-Ready buf.current_record_type b now buf refl v.clean in
    let buf' = ready buf.current_record_type (record_type b) now buf in
    elim (ℕ_discrete (length bytes) 0)
      as (λ d. Keeps (added bytes b) buf (ite d buf (put bytes b buf'))) [
        | yes e ↦ empty-Keeps b bytes buf e v
        | no _ ↦ record {
          valid = put-IsValid b bytes buf buf' v r;
          streams = λ s. put-streams s b bytes buf' ∙ ap (λ w. w ++ added bytes b s) (r.same s);
        }
      ]
