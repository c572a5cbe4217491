-- ===== src/Tests/Programs.antt =====
-- taskexecutor/utils.go, taskexecutor/executor.go and telephonist/types.go at small texts.
use telephonist_agent.Base.{◌≡◌, codes, Bytes, [], ◌∷◌, ◌++◌, false, some, Map, map}
use telephonist_agent.Task.{TaskTrigger, trigger_event}
use telephonist_agent.Task.Id.{fnv_offset, get_ids, fnv1a, get_ids-fnv1a}
use telephonist_agent.Shell.{Value, null, text, other}
use telephonist_agent.Shell.Environment.{nil, cons}
use telephonist_agent.Shell.Shebang.{IsLine, nil, cons}

abbrev on_build : TaskTrigger
on_build = record { name = trigger_event; body = codes "b"; disabled = false }

get_ids-fnv1a_example :
    get_ids fnv_offset (on_build ∷ on_build ∷ [])
    ≡ map (λ t. fnv1a (t.name ++ 0 ∷ t.body)) (on_build ∷ on_build ∷ [])
get_ids-fnv1a_example = get_ids-fnv1a (on_build ∷ on_build ∷ [])

abbrev first_line : Bytes
first_line = codes "#! a"

first_line-IsLine : IsLine first_line
first_line-IsLine =
    cons 35 _ (λ e. cc) (cons 33 _ (λ e. cc) (cons 32 _ (λ e. cc) (cons 97 _ (λ e. cc) nil)))

abbrev params : Map Bytes Value
params = (codes "A", text (codes "x")) ∷ (codes "B", null) ∷ (codes "C", other (some [])) ∷ []

abbrev stamped : Map Bytes Value
stamped = (codes "TRIGGERED_AT", other (some (codes "1"))) ∷ []
