-- ===== src/Shell/Lines.antt =====
-- taskexecutor/utils.go: `getLines`, which cuts the full lines off the start of a text.
use mathlib.Core.List.{append_assoc, append-nil}
use telephonist_agent.Shell.{split_lines, onto_first}
use telephonist_agent.Base.{
  ℕ, ◌≡◌, ◌≢◌, refl, sym, ap, ◌∙◌, Bytes, List, [], ◌∷◌, ◌++◌, Bool, true, false, ℕ_discrete, ite,
  arith, Bool-cases, inl, inr, ◌⊎◌,
}

-- The loop's variables: `line` is `data[startIndex:i]` and `remaining` is `data[stopIndex+1:i]`.
pub record Scan : Type 0 where
  pub lines : List Bytes
  pub line : Bytes
  pub is_empty_line : Bool
  pub remaining : Bytes

abbrev pub scan_start : Scan
scan_start = record { lines = []; line = []; is_empty_line = true; remaining = [] }

unfoldable pub is_space : ℕ → Bool
is_space c =
    ite (ℕ_discrete c 32) true (ite (ℕ_discrete c 9) true (ite (ℕ_discrete c 13) true false))

-- The byte ends a line.
unfoldable pub end_line : Scan → Scan
end_line s = elim s.is_empty_line [
  | true ↦ record s { line = []; remaining = s.remaining ++ (10 ∷ []) }
  | false ↦ record {
    lines = s.lines ++ (s.line ∷ []);
    line = [];
    is_empty_line = true;
    remaining = [];
  }
]

unfoldable pub scan_byte : ℕ → Scan → Scan
unfolding is_space end_line
scan_byte c s = ite (ℕ_discrete c 10) (end_line s) (record s {
  line = s.line ++ (c ∷ []);
  is_empty_line = elim (is_space c) [ true ↦ s.is_empty_line | false ↦ false ];
  remaining = s.remaining ++ (c ∷ []);
})

unfoldable pub scan : Bytes → Scan → Scan
unfolding scan_byte
scan [] s = s
scan (c ∷ data') s = scan data' (scan_byte c s)

unfoldable pub all_space : Bytes → Bool
unfolding is_space
all_space [] = true
all_space (c ∷ s) = elim (is_space c) [ true ↦ all_space s | false ↦ false ]

unfoldable pub kept : Bytes → Bytes
unfolding all_space
kept remaining = elim (all_space remaining) [ true ↦ [] | false ↦ remaining ]

-- `getLines`
unfoldable pub get_lines : Bytes → List Bytes × Bytes
unfolding scan kept
get_lines data' = let s = scan data' scan_start in (s.lines, kept s.remaining)

scan-append : (xs ys : Bytes) (s : Scan) → scan (xs ++ ys) s ≡ scan ys (scan xs s)
unfolding scan
scan-append [] ys s = refl
scan-append (c ∷ xs) ys s = scan-append xs ys (scan_byte c s)

-- The same state, with lines before its own.
abbrev after : List Bytes → Scan → Scan
after ls s = record s { lines = ls ++ s.lines }

scan_byte-after :
    (c : ℕ) (ls : List Bytes) (s : Scan) → scan_byte c (after ls s) ≡ after ls (scan_byte c s)
unfolding scan_byte end_line
scan_byte-after c ls s = ground (arith, append_assoc ls s.lines (s.line ∷ []))

scan-after : (xs : Bytes) (ls : List Bytes) (s : Scan) → scan xs (after ls s) ≡ after ls (scan xs s)
unfolding scan
scan-after [] ls s = refl
scan-after (c ∷ xs) ls s = ap (scan xs) (scan_byte-after c ls s) ∙ scan-after xs ls (scan_byte c s)

-- The bytes that remain are scanned again to the same state, but for the lines.
abbrev less : Scan → Scan
less s = record s { lines = [] }

abbrev IsResumable : Scan → Type 0
IsResumable s = scan s.remaining scan_start ≡ less s

-- A byte either ends a line that is taken, or is one more that remains.
scan_byte-cases :
    (c : ℕ) (s : Scan)
    → (less (scan_byte c s) ≡ scan_start)
      ⊎ (((scan_byte c s).remaining ≡ s.remaining ++ (c ∷ []))
          × (scan_byte c (less s) ≡ less (scan_byte c s)))
unfolding scan_byte end_line
scan_byte-cases c s = elim (ℕ_discrete c 10) [
  | no p ↦ inr (ground arith, ground arith)
  | yes p ↦ elim (Bool-cases s.is_empty_line) [
    | inl blank ↦ inr (ground arith, ground arith)
    | inr full ↦ inl (ground arith)
  ]
]

scan_byte-IsResumable : (c : ℕ) (s : Scan) → IsResumable s → IsResumable (scan_byte c s)
unfolding scan
scan_byte-IsResumable c s h = elim (scan_byte-cases c s) [
  | inl e ↦ ap (λ t. scan t.remaining scan_start) e ∙ sym e
  | inr (rem, e) ↦
      ap (λ t. scan t scan_start) rem
      ∙ (scan-append s.remaining (c ∷ []) scan_start ∙ (ap (scan_byte c) h ∙ e))
]

scan-IsResumable : (xs : Bytes) (s : Scan) → IsResumable s → IsResumable (scan xs s)
unfolding scan
scan-IsResumable [] s h = h
scan-IsResumable (c ∷ xs) s h = scan-IsResumable xs (scan_byte c s) (scan_byte-IsResumable c s h)

kept-full : (remaining : Bytes) → kept remaining ≢ [] → kept remaining ≡ remaining
unfolding kept
kept-full remaining h = ground arith

-- When the rest that `getLines` gives is not empty, more data can be put after the rest alone: the lines
-- of the whole are those of the first part and then those of the rest with the data after it, and the
-- rest is the latter's.
pub get_lines-append :
    (xs ys : Bytes)
    → (get_lines xs).1 ≢ []
    → let whole = get_lines (xs ++ ys) in
      let more = get_lines ((get_lines xs).1 ++ ys) in
      (whole.0 ≡ (get_lines xs).0 ++ more.0) × (whole.1 ≡ more.1)
unfolding get_lines
get_lines-append xs ys h =
    let s = scan xs scan_start in
    let same : scan (xs ++ ys) scan_start ≡ after s.lines (scan ys (less s)) =
      scan-append xs ys scan_start
      ∙ (ap (λ l. scan ys (record s { lines = l })) (sym (append-nil s.lines))
          ∙ scan-after ys s.lines (less s)) in
    let again : scan (s.remaining ++ ys) scan_start ≡ scan ys (less s) =
      scan-append s.remaining ys scan_start ∙ ap (scan ys) (scan-IsResumable xs scan_start refl) in
    let rest : kept s.remaining ≡ s.remaining = kept-full s.remaining h in
    (
      ap (λ t. t.lines) same
          ∙ ap (λ t. s.lines ++ t.lines) (sym again)
          ∙ ap (λ t. s.lines ++ (scan (t ++ ys) scan_start).lines) (sym rest),
      ap (λ t. kept t.remaining) same
          ∙ ap (λ t. kept t.remaining) (sym again)
          ∙ ap (λ t. kept (scan (t ++ ys) scan_start).remaining) (sym rest),
    )

-- The lines but the last one, without those that only have spaces, tabs and returns.
unfoldable pub full_lines : List Bytes → List Bytes
unfolding all_space
full_lines [] = []
full_lines (line ∷ []) = []
full_lines (line ∷ next ∷ rest) =
    let others = full_lines (next ∷ rest) in
    elim (all_space line) [ true ↦ others | false ↦ line ∷ others ]

-- A text before the first line.
abbrev onto : Bytes → List Bytes → List Bytes
onto l [] = l ∷ []
onto l (line ∷ rest) = (l ++ line) ∷ rest

all_space-snoc :
    (l : Bytes) (c : ℕ)
    → all_space (l ++ (c ∷ [])) ≡ elim (is_space c) [ true ↦ all_space l | false ↦ false ]
unfolding all_space
all_space-snoc [] c = ground arith
all_space-snoc (x ∷ l) c = ground (arith, all_space-snoc l c)

split_lines-cons :
    (xs : Bytes) → (line : Bytes) × (rest : List Bytes) × (split_lines xs ≡ line ∷ rest)
unfolding split_lines onto_first
split_lines-cons [] = ([], [], refl)
split_lines-cons (c ∷ xs) =
    let (line, rest, e) = split_lines-cons xs in
    elim (ℕ_discrete c 10) [
      | yes p ↦ ([], split_lines xs, ground arith)
      | no p ↦ (c ∷ line, rest, ground arith)
    ]

scan-lines :
    (xs : Bytes) (s : Scan)
    → s.is_empty_line ≡ all_space s.line
    → (scan xs s).lines ≡ s.lines ++ full_lines (onto s.line (split_lines xs))
unfolding scan scan_byte end_line split_lines onto_first full_lines all_space
scan-lines [] s v = sym (append-nil s.lines)
scan-lines (c ∷ xs) s v =
    let (line, rest, e) = split_lines-cons xs in
    elim (ℕ_discrete c 10) [
      | yes p ↦ elim (Bool-cases s.is_empty_line) [
        | inl blank ↦
            let s2 : Scan = record s { line = []; remaining = s.remaining ++ (10 ∷ []) } in
            ground (arith, scan-lines xs s2 blank, append-nil s.line)
        | inr full ↦
            let s2 : Scan = record {
              lines = s.lines ++ (s.line ∷ []);
              line = [];
              is_empty_line = true;
              remaining = [];
            } in
            ground (
              arith,
              scan-lines xs s2 refl,
              append-nil s.line,
              append_assoc s.lines (s.line ∷ []) (full_lines (line ∷ rest)),
            )
      ]
      | no p ↦
          let s2 : Scan = record s {
            line = s.line ++ (c ∷ []);
            is_empty_line = elim (is_space c) [ true ↦ s.is_empty_line | false ↦ false ];
            remaining = s.remaining ++ (c ∷ []);
          } in
          ground (
            arith,
            scan-lines xs s2 (ground (arith, all_space-snoc s.line c)),
            append_assoc s.line (c ∷ []) line,
          )
    ]

-- The lines that `getLines` gives are the lines of the text but the last one, without those that only
-- have spaces, tabs and returns.
pub get_lines-lines : (xs : Bytes) → (get_lines xs).0 ≡ full_lines (split_lines xs)
unfolding get_lines all_space
get_lines-lines xs =
    let (line, rest, e) = split_lines-cons xs in
    scan-lines xs scan_start refl ∙ ap full_lines (ap (onto []) e ∙ sym e)
