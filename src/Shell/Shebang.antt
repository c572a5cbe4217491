-- ===== src/Shell/Shebang.antt =====
-- taskexecutor/utils.go: the search for a script's interpreter goes line by line.
use telephonist_agent.Base.{ℕ, ◌≡◌, ◌≢◌, ap, ◌∙◌, Bytes, [], ◌∷◌, ◌++◌, arith}
use telephonist_agent.Shell.{split_lines, onto_first, shebang_of, first_shebang, find_shebang}

-- A text without a newline.
pub data IsLine : Bytes → Type 0 where
  nil : IsLine []
  cons : (c : ℕ) (s : Bytes) → c ≢ 10 → IsLine s → IsLine (c ∷ s)

split_lines-line :
    (line rest : Bytes) → IsLine line → split_lines (line ++ 10 ∷ rest) ≡ line ∷ split_lines rest
unfolding split_lines onto_first
split_lines-line line rest nil = ground arith
split_lines-line line rest (cons c s h hs) = ground (arith, split_lines-line s rest hs)

-- The interpreter of a script that begins with a whole line is the one that this line names after
-- its `#!`, and, when the line names none, the interpreter of the rest.
pub find_shebang-line :
    (line rest : Bytes)
    → IsLine line
    → (shebang_of line ≢ [] → find_shebang (line ++ 10 ∷ rest) ≡ shebang_of line)
      × (shebang_of line ≡ [] → find_shebang (line ++ 10 ∷ rest) ≡ find_shebang rest)
unfolding find_shebang first_shebang
find_shebang-line line rest h =
    let e = ap first_shebang (split_lines-line line rest h) in
    (λ n. e ∙ ground arith, λ n. e ∙ ground arith)
