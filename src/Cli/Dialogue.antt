-- ===== src/Cli/Dialogue.antt =====
-- utils.go and app.go: the questions that the command line asks.
pub mod Tags
pub mod Trimming
use telephonist_agent.Base.Sets.{contains, add_to_set}
use telephonist_agent.Base.{
  ℕ, Bytes, List, [], ◌∷◌, ◌++◌, Bool, true, false, ◌&&◌, ◌||◌, Bytes-discrete, ℕ_discrete, ite,
  dec_le, Go, done, panic, blocked, ◌>>=◌,
}

-- What is typed: the lines, without their line breaks, and then the end of the input. A read takes
-- one line.
abbrev pub Console : Type 0
Console = List Bytes

-- `strings.Trim` with a cut set.
unfoldable pub trim_left : Bytes → Bytes → Bytes
unfolding contains
trim_left cutset [] = []
trim_left cutset (c ∷ s) = elim (contains ℕ_discrete cutset c) [
  | true ↦ trim_left cutset s
  | false ↦ c ∷ s
]

-- A byte before a text whose end is trimmed.
unfoldable pub before_trimmed : Bytes → ℕ → Bytes → Bytes
unfolding contains
before_trimmed cutset c [] = elim (contains ℕ_discrete cutset c) [ true ↦ [] | false ↦ c ∷ [] ]
before_trimmed cutset c (x ∷ s) = c ∷ x ∷ s

unfoldable pub trim_right : Bytes → Bytes → Bytes
unfolding before_trimmed
trim_right cutset [] = []
trim_right cutset (c ∷ s) = before_trimmed cutset c (trim_right cutset s)

unfoldable pub trim : Bytes → Bytes → Bytes
unfolding trim_left trim_right
trim cutset s = trim_right cutset (trim_left cutset s)

-- The space characters of `strings.TrimSpace`, of the ASCII ones.
abbrev pub space : Bytes
space = 32 ∷ 9 ∷ 10 ∷ 11 ∷ 12 ∷ 13 ∷ []

onto_first : ℕ → List Bytes → List Bytes
onto_first c [] = (c ∷ []) ∷ []
onto_first c (part ∷ parts) = (c ∷ part) ∷ parts

-- `strings.Split(s, ",")`
unfoldable pub split_commas : Bytes → List Bytes
unfolding onto_first
split_commas [] = [] ∷ []
split_commas (c ∷ s) =
    let rest = split_commas s in ite (ℕ_discrete c b',') ([] ∷ rest) (onto_first c rest)

-- `readYn`, with the words of the language. At the end of the input there is no line break to cut
-- off, and the slice is out of range.
unfoldable pub read_yn : List Bytes → List Bytes → Console → Go (Console × Bool)
unfolding contains
read_yn no_words yes_words [] = panic
read_yn no_words yes_words (line ∷ rest) =
    let again = read_yn no_words yes_words rest in
    elim (contains Bytes-discrete no_words line) [
      | true ↦ done (rest, false)
      | false ↦ elim (contains Bytes-discrete yes_words line) [
        | true ↦ done (rest, true)
        | false ↦ again
      ]
    ]

-- `readString`
unfoldable pub read_string : Console → Go (Console × Bytes)
read_string [] = panic
read_string (line ∷ rest) = done (rest, trim space line)

-- `readStringWithCondition`. The condition reads the line with its break; at the end of the input it
-- is asked of the empty text again and again.
unfoldable pub read_string_with_condition : (Bytes → Bool) → Console → Go (Console × Bytes)
read_string_with_condition condition [] = elim (condition []) [
  | true ↦ done ([], [])
  | false ↦ blocked
]
read_string_with_condition condition (line ∷ rest) =
    let again = read_string_with_condition condition rest in
    elim (condition (line ++ (10 ∷ []))) [ true ↦ done (rest, trim space line) | false ↦ again ]

-- `[\d\w_]`
is_word : ℕ → Bool
is_word c =
    (ite (dec_le 48 c) true false && ite (dec_le c 57) true false)
    || ((ite (dec_le 65 c) true false && ite (dec_le c 90) true false)
        || ((ite (dec_le 97 c) true false && ite (dec_le c 122) true false)
            || ite (ℕ_discrete c 95) true false))

some_word : Bytes → Bool
unfolding is_word
some_word [] = false
some_word (c ∷ s) = is_word c || some_word s

-- `isValidApplicationName`: the expression is found somewhere in the text.
unfoldable pub is_valid_application_name : Bytes → Bool
unfolding some_word
is_valid_application_name [] = false
is_valid_application_name (c ∷ s) = some_word (c ∷ s)

add_tag : List Bytes → Bytes → List Bytes
unfolding add_to_set
add_tag tags [] = tags
add_tag tags (c ∷ part) = add_to_set Bytes-discrete tags (c ∷ part)

-- The loop of `readTags` over the parts of the line.
pub tags_of : List Bytes → List Bytes → List Bytes
unfolding add_tag trim
tags_of tags [] = tags
tags_of tags (part ∷ parts) = tags_of (add_tag tags (trim (32 ∷ 9 ∷ []) part)) parts

-- `readTags`
unfoldable pub read_tags : Console → Go (Console × List Bytes)
unfolding read_string tags_of split_commas
read_tags console = do (rest, str) ← read_string console; done (rest, tags_of [] (split_commas str))
