-- ===== src/Output/Loss.antt =====
-- taskexecutor/output.go: no output is lost, made up or reordered within its stream.
use mathlib.Core.List.{append_assoc, append-nil}
use telephonist_agent.Base.{
  ℕ, ◌≡◌, refl, sym, ◌∙◌, ap, Bytes, List, [], ◌∷◌, ◌++◌, Bool, true, false,
}
use telephonist_agent.Output.Streams.{
  logged, severity_of, pending, streamed, IsValid, Keeps, flush-Keeps, closing-Keeps,
  flush_as-pending, flush-pending, flush-records, delivered-streamed,
}
use telephonist_agent.Output.{
  OutputBuffer, flush, flush_as, flush_record, Step, writes, ticks, closes, step, run,
}
use telephonist_agent.Output.Writing.{added, write-Keeps}

-- What the steps write to a stream.
unfoldable pub written : Bool → List Step → Bytes
written s [] = []
written true (writes now bytes true ∷ steps) = bytes ++ written true steps
written true (writes now bytes false ∷ steps) = written true steps
written false (writes now bytes true ∷ steps) = written false steps
written false (writes now bytes false ∷ steps) = bytes ++ written false steps
written s (ticks now ∷ steps) = written s steps
written s (closes now ∷ steps) = written s steps

-- The bytes that one step writes to a stream.
abbrev wrote : Step → Bool → Bytes
wrote (writes now bytes b) s = added bytes b s
wrote (ticks now) s = []
wrote (closes now) s = []

step-Keeps : (t : Step) (buf : OutputBuffer) → IsValid buf → Keeps (wrote t) buf (step t buf)
unfolding step
step-Keeps (writes now bytes b) buf v = write-Keeps now bytes b buf v
step-Keeps (ticks now) buf v = flush-Keeps now buf v
step-Keeps (closes now) buf v = closing-Keeps now buf v

written-step :
    (s : Bool) (t : Step) (steps : List Step) → written s (t ∷ steps) ≡ wrote t s ++ written s steps
unfolding written
written-step true (writes now bytes true) steps = refl
written-step true (writes now bytes false) steps = refl
written-step false (writes now bytes true) steps = refl
written-step false (writes now bytes false) steps = refl
written-step s (ticks now) steps = refl
written-step s (closes now) steps = refl

-- From a buffer that has a callback and holds bytes of the current record's stream only, whatever
-- writes, flushes and closings follow, the buffer stays so, and what each stream has given
-- (delivered, in records, in the buffer) is what it had given before followed by what the steps
-- wrote to it.
pub run-streamed :
    (steps : List Step) (buf : OutputBuffer)
    → IsValid buf
    → IsValid (run steps buf)
      × ((s : Bool) → streamed s (run steps buf) ≡ streamed s buf ++ written s steps)
unfolding run written
run-streamed [] buf v = (v, λ s. sym (append-nil (streamed s buf)))
run-streamed (t ∷ steps) buf v =
    let k = step-Keeps t buf v in
    let (v', h) = run-streamed steps (step t buf) k.valid in
    (
      v',
      λ s.
          h s
          ∙ ap (λ w. w ++ written s steps) (k.streams s)
          ∙ append_assoc (streamed s buf) (wrote t s) (written s steps)
          ∙ ap (λ w. streamed s buf ++ w) (sym (written-step s t steps)),
    )

-- From a buffer that has a callback and holds bytes of the current record's stream only, once the
-- flush loop closes after any steps, all that was written to a stream has been delivered: no record
-- waits, both stream buffers are empty, and the delivered bytes of each stream are what the
-- buffer held before followed by what the steps wrote.
pub closed_delivers :
    (steps : List Step) (now : ℕ) (buf : OutputBuffer)
    → IsValid buf
    → let buf' = step (closes now) (run steps buf) in
      (buf'.records ≡ [])
      × ((s : Bool)
          → (pending s buf' ≡ [])
            × (logged (severity_of s) buf'.delivered ≡ streamed s buf ++ written s steps))
unfolding step flush_record
closed_delivers steps now buf v =
    let (v', h) = run-streamed steps buf v in
    let at_end = run steps buf in
    let ended = flush_as at_end.current_record_type now at_end in
    let none_left = flush-records now ended in
    (
      none_left,
      λ s.
          let empty =
            flush-pending s now ended
            ∙ flush_as-pending at_end.current_record_type s now at_end v'.clean in
          (
            empty,
            delivered-streamed s (flush now ended) none_left empty
                ∙ (closing-Keeps now at_end v').streams s
                ∙ append-nil (streamed s at_end)
                ∙ h s,
          ),
    )
