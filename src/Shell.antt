-- ===== src/Shell.antt =====
-- taskexecutor: the shell that runs a task, and the environment that it runs in.
pub mod Environment
pub mod Shebang
pub mod Execution
pub mod Lines
use telephonist_agent.Base.{
  ℕ, zero, suc, ◌+◌, ◌-◌, Bytes, codes, List, [], ◌∷◌, ◌++◌, Bool, true, false, Option, none, some,
  Map, length, Bytes-discrete, ℕ_discrete, ite, show_ℕ,
}
use telephonist_agent.Task.{DefinedTask, task_type_exec, task_type_script}

is_blank : ℕ → Bool
is_blank c = ite (ℕ_discrete c 32) true (ite (ℕ_discrete c 9) true false)

-- `strings.TrimLeft(s, " \t")`
unfoldable pub trim_left : Bytes → Bytes
unfolding is_blank
trim_left [] = []
trim_left (c ∷ s) = elim (is_blank c) [ true ↦ trim_left s | false ↦ c ∷ s ]

-- A byte before a text whose end is trimmed.
before_trimmed : ℕ → Bytes → Bytes
unfolding is_blank
before_trimmed c [] = elim (is_blank c) [ true ↦ [] | false ↦ c ∷ [] ]
before_trimmed c (x ∷ s) = c ∷ x ∷ s

unfoldable pub trim_right : Bytes → Bytes
unfolding before_trimmed
trim_right [] = []
trim_right (c ∷ s) = before_trimmed c (trim_right s)

-- A byte put on the first line.
onto_first : ℕ → List Bytes → List Bytes
onto_first c [] = (c ∷ []) ∷ []
onto_first c (line ∷ lines) = (c ∷ line) ∷ lines

-- `strings.Split(s, "\n")`
unfoldable pub split_lines : Bytes → List Bytes
unfolding onto_first
split_lines [] = [] ∷ []
split_lines (c ∷ s) =
    let rest = split_lines s in ite (ℕ_discrete c 10) ([] ∷ rest) (onto_first c rest)

after_mark : Bytes → Bytes
after_mark [] = []
after_mark (c ∷ []) = []
after_mark (c ∷ d ∷ s) =
    ite (ℕ_discrete c 35) (ite (ℕ_discrete d 33) (trim_right (trim_left s)) []) []

-- What a line names as the interpreter, or nothing.
unfoldable pub shebang_of : Bytes → Bytes
unfolding after_mark
shebang_of line = after_mark (trim_left line)

-- The loop of `findShebang`.
unfoldable pub first_shebang : List Bytes → Bytes
unfolding shebang_of
first_shebang [] = []
first_shebang (line ∷ lines) =
    let rest = first_shebang lines in
    ite (Bytes-discrete (shebang_of line) []) rest (shebang_of line)

unfoldable pub find_shebang : Bytes → Bytes
unfolding first_shebang split_lines
find_shebang script = first_shebang (split_lines script)

-- `CanExecute`
unfoldable pub can_execute : DefinedTask → Bool
can_execute task =
    ite (Bytes-discrete task.body.body_type task_type_exec) true
      (ite (Bytes-discrete task.body.body_type task_type_script) true false)

bash_path : Bytes
bash_path = codes "/bin/bash"

or_bash : Bytes → Bytes
unfolding bash_path
or_bash [] = bash_path
or_bash (c ∷ s) = c ∷ s

-- The shell of a task, given its type and the text of its body.
unfoldable pub shell_of : Bytes → Bytes → Bytes
unfolding or_bash find_shebang bash_path
shell_of body_type text =
    ite (Bytes-discrete body_type task_type_script) (or_bash (find_shebang (text ++ 10 ∷ [])))
      bash_path

-- A parameter of a task. The last case has what `json.Marshal` makes of the value, if it does not
-- fail.
pub data Value : Type 0 where
  null : Value
  text : Bytes → Value
  int : Bool → ℕ → Value  -- whether it is negative, and its absolute value
  other : Option Bytes → Value

signed : Bool → ℕ → Bytes
signed true n = 45 ∷ show_ℕ n
signed false n = show_ℕ n

-- The text of a value in the environment, if the value gets there.
unfoldable pub value_text : Value → Option Bytes
unfolding signed
value_text null = none
value_text (text s) = some s
value_text (int negative n) = some (signed negative n)
value_text (other none) = some []
value_text (other (some marshalled)) = none

assignment : Bytes → Option Bytes → List Bytes → List Bytes
assignment param none rest = rest
assignment param (some value) rest = (param ++ 61 ∷ value) ∷ rest

-- The assignments of the loop over the parameters.
unfoldable pub assignments : Map Bytes Value → List Bytes
unfolding assignment value_text
assignments [] = []
assignments ((param, value) ∷ params) = assignment param (value_text value) (assignments params)

-- Empty strings.
empties : ℕ → List Bytes
empties zero = []
empties (suc n) = [] ∷ empties n

-- `cmd.Env`, made with room for every parameter and one more.
unfoldable pub environment : Map Bytes Value → List Bytes
unfolding assignments empties
environment params = let set = assignments params in set ++ empties (length params + 1 - length set)
