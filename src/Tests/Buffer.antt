-- ===== src/Tests/Buffer.antt =====
-- taskexecutor/output.go at a small buffer.
use telephonist_agent.Base.{◌≡◌, refl, codes, List, [], ◌∷◌, ◌++◌, Bool, true, false}
use telephonist_agent.Output.{OutputBuffer, no_record, Step, writes, ticks, closes, step, run}
use telephonist_agent.Output.Streams.{logged, severity_of, pending, streamed, IsValid}
use telephonist_agent.Output.Loss.{written, run-streamed, closed_delivers}

abbrev empty : OutputBuffer
empty = record {
  has_callback = true;
  last_flush = 0;
  stdout = [];
  stderr = [];
  records = [];
  current_record_type = no_record;
  record_deadline_us = 0;
  delivered = [];
}

-- Both streams write, and the buffer flushes in between.
abbrev steps : List Step
steps =
    writes 1 (codes "a") false
    ∷ writes 2 (codes "b") true
    ∷ ticks 3
    ∷ writes 4 (codes "c") false
    ∷ []

empty-IsValid : IsValid empty
empty-IsValid = record { callback = refl; clean = (refl, refl) }

run-streamed_example :
    IsValid (run steps empty)
    × ((s : Bool) → streamed s (run steps empty) ≡ streamed s empty ++ written s steps)
run-streamed_example = run-streamed steps empty empty-IsValid

closed_delivers_example :
    let buf = step (closes 9) (run steps empty) in
    (buf.records ≡ [])
    × ((s : Bool)
        → (pending s buf ≡ [])
          × (logged (severity_of s) buf.delivered ≡ streamed s empty ++ written s steps))
closed_delivers_example = closed_delivers steps 9 empty empty-IsValid
