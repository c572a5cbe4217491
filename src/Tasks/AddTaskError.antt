-- ===== src/Tasks/AddTaskError.antt =====
-- taskscheduler/errors.go: `AddTaskError`.
use telephonist_agent.Base.{
  ℕ, ◌+◌, ◌≡◌, refl, Bytes, codes, List, [], ◌∷◌, ◌++◌, Option, none, some, show_ℕ,
}
use telephonist_agent.Errors.{Error, error_text}

-- `str`, the text that was made by an earlier call of `Error`, is empty before the first.
pub record AddTaskError : Type 0 where
  pub trigger_errors : List (Option Error)
  pub str : Bytes

unfoldable pub errors_count : List (Option Error) → ℕ
errors_count [] = 0
errors_count (none ∷ rest) = errors_count rest
errors_count (some err ∷ rest) = errors_count rest + 1

unfoldable pub numbered : (ℕ → Bytes) → ℕ → List (Option Error) → Bytes
numbered strerror index [] = []
numbered strerror index (none ∷ rest) = numbered strerror (index + 1) rest
numbered strerror index (some err ∷ rest) =
    codes "\n\t["
    ++ (show_ℕ index
        ++ (codes "]: " ++ (error_text strerror err ++ numbered strerror (index + 1) rest)))

unfoldable pub text_of : (ℕ → Bytes) → List (Option Error) → Bytes
unfolding errors_count numbered
text_of strerror errors =
    codes "Following triggers' registration errored ("
    ++ (show_ℕ (errors_count errors) ++ (codes " in total)" ++ numbered strerror 0 errors))

-- The text where there is one already, or else the one that is kept.
unfoldable pub kept : Bytes → AddTaskError → AddTaskError × Bytes
kept new e = elim e.str [ [] ↦ (record e { str = new }, new) | c ∷ s ↦ (e, c ∷ s) ]

-- `Error`
unfoldable pub error : (ℕ → Bytes) → AddTaskError → AddTaskError × Bytes
unfolding kept text_of
error strerror e = kept (text_of strerror e.trigger_errors) e

kept-again :
    (c : ℕ) (new new' str : Bytes) (errors errors' : List (Option Error))
    → let first = kept (c ∷ new) (record { trigger_errors = errors; str = str }) in
      (kept new' (record first.0 { trigger_errors = errors' })).1 ≡ first.1
unfolding kept
kept-again c new new' [] errors errors' = refl
kept-again c new new' (d ∷ str) errors errors' = refl

-- Once `Error` was called, a later call gives the same text, whatever has become of the triggers'
-- errors and of the system's texts.
pub error-again :
    (strerror strerror' : ℕ → Bytes) (e : AddTaskError) (errors : List (Option Error))
    → let first = error strerror e in
      (error strerror' (record first.0 { trigger_errors = errors })).1 ≡ first.1
unfolding error text_of
error-again strerror strerror' e errors =
    kept-again _ _ (text_of strerror' errors) e.str e.trigger_errors errors
