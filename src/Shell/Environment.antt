-- ===== src/Shell/Environment.antt =====
-- taskexecutor/executor.go: what of the parameters reaches the environment of a task.
use telephonist_agent.Base.{
  ℕ, suc, zero, ◌+◌, ◌-◌, ◌≤◌, ◌≡◌, refl, Bytes, [], ◌∷◌, none, some, Map, length, length-append,
  arith,
}
use telephonist_agent.Shell.{
  Value, other, value_text, assignment, assignments, empties, environment,
}

assignments-bound : (params : Map Bytes Value) → length (assignments params) ≤ length params
unfolding assignments assignment
assignments-bound [] = omega arith
assignments-bound ((param, value) ∷ params) =
    elim (value_text value)
      as (λ t. length (assignment param t (assignments params)) ≤ suc (length params)) [
        | none ↦ ground (arith, assignments-bound params)
        | some t ↦ ground (arith, assignments-bound params)
      ]

length-empties : (n : ℕ) → length (empties n) ≡ n
unfolding empties
length-empties zero = refl
length-empties (suc n) = ground (arith, length-empties n)

-- The environment has one entry more than there are parameters: the loop never writes past the
-- entries that were made for it.
pub environment-length :
    (params : Map Bytes Value) → length (environment params) ≡ length params + 1
unfolding environment
environment-length params = ground (
  arith,
  assignments-bound params,
  length-append (assignments params) (empties (length params + 1 - length (assignments params))),
  length-empties (length params + 1 - length (assignments params)),
)

-- Each parameter is a value that `json.Marshal` is called for and does not fail on.
pub data AllMarshalled : Map Bytes Value → Type 0 where
  nil : AllMarshalled []
  cons :
      (param : Bytes) (marshalled : Bytes) (params : Map Bytes Value)
      → AllMarshalled params
      → AllMarshalled ((param, other (some marshalled)) ∷ params)

-- Of parameters that are neither strings nor `int`s and that `json.Marshal` succeeds on, none is
-- assigned in the environment.
pub assignments_marshalled :
    (params : Map Bytes Value) → AllMarshalled params → assignments params ≡ []
unfolding assignments assignment value_text
assignments_marshalled params nil = refl
assignments_marshalled params (cons param marshalled rest h) = assignments_marshalled rest h
