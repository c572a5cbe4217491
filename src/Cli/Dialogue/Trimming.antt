-- ===== src/Cli/Dialogue/Trimming.antt =====
-- utils.go and app.go: what trimming leaves of a text.
use telephonist_agent.Base.{
  ℕ, ◌≡◌, ◌≢◌, ◌↔◌, inl, inr, refl, sym, ◌∙◌, Bytes, [], ◌∷◌, Bool, true, false, ℕ_discrete, arith,
  Bool-cases, ap,
}
use telephonist_agent.Base.Sets.{contains}
use telephonist_agent.Cli.Dialogue.{trim, trim_left, before_trimmed, trim_right}

-- Every byte is in the cut set.
abbrev pub all_cut : Bytes → Bytes → Bool
all_cut cutset [] = true
all_cut cutset (c ∷ s) = elim (contains ℕ_discrete cutset c) [
  | true ↦ all_cut cutset s
  | false ↦ false
]

-- The bytes of the first set are in the second.
abbrev pub Within : Bytes → Bytes → Type 0
Within some_set cutset =
    (c : ℕ) → contains ℕ_discrete some_set c ≡ true → contains ℕ_discrete cutset c ≡ true

module _ (cutset other : Bytes) (within : Within other cutset) where
  all_cut-trim_left : (s : Bytes) → all_cut cutset (trim_left other s) ≡ all_cut cutset s
  unfolding trim_left
  all_cut-trim_left [] = refl
  all_cut-trim_left (c ∷ s) = elim (Bool-cases (contains ℕ_discrete other c)) [
    | inl there ↦ ground (arith, within c there, all_cut-trim_left s)
    | inr new ↦ ground arith
  ]

  all_cut-before :
      (c : ℕ) (s : Bytes) → all_cut cutset (before_trimmed other c s) ≡ all_cut cutset (c ∷ s)
  unfolding before_trimmed
  all_cut-before c [] = elim (Bool-cases (contains ℕ_discrete other c)) [
    | inl there ↦ ground (arith, within c there)
    | inr new ↦ ground arith
  ]
  all_cut-before c (x ∷ s) = refl

  all_cut-trim_right : (s : Bytes) → all_cut cutset (trim_right other s) ≡ all_cut cutset s
  unfolding trim_right
  all_cut-trim_right [] = refl
  all_cut-trim_right (c ∷ s) =
      ground (arith, all_cut-before c (trim_right other s), all_cut-trim_right s)

  -- Trimming by a smaller set leaves the bytes that are not in the larger one.
  pub all_cut-trim : (s : Bytes) → all_cut cutset (trim other s) ≡ all_cut cutset s
  unfolding trim
  all_cut-trim s = all_cut-trim_right (trim_left other s) ∙ all_cut-trim_left s

trim_left-nil : (cutset s : Bytes) → all_cut cutset s ≡ true → trim_left cutset s ≡ []
unfolding trim_left
trim_left-nil cutset [] h = refl
trim_left-nil cutset (c ∷ s) h = ground (arith, trim_left-nil cutset s)

-- A text is trimmed to nothing just when all its bytes are in the cut set.
pub trim-nil_iff : (cutset s : Bytes) → (trim cutset s ≡ []) ↔ (all_cut cutset s ≡ true)
unfolding trim trim_right
trim-nil_iff cutset s = (
  (λ h. sym (all_cut-trim cutset cutset (λ c h'. h') s) ∙ ap (all_cut cutset) h),
  λ h. ap (trim_right cutset) (trim_left-nil cutset s h),
)

all_cut-Within :
    (some_set cutset s : Bytes)
    → Within some_set cutset
    → all_cut some_set s ≡ true
    → all_cut cutset s ≡ true
all_cut-Within some_set cutset [] within h = refl
all_cut-Within some_set cutset (c ∷ s) within h =
    ground (arith, within c, all_cut-Within some_set cutset s within)

-- A text of which something is left under the one set leaves something that the other set, with no
-- byte more and with all of the text's, leaves something of.
pub trim-trim :
    (cutset other s : Bytes)
    → Within other cutset
    → (all_cut cutset s ≡ true → all_cut other s ≡ true)
    → trim other s ≢ []
    → trim cutset (trim other s) ≢ []
trim-trim cutset other s within back left nothing = left (
    (trim-nil_iff other s).1 (
      back (
        sym (all_cut-trim cutset other within s) ∙ (trim-nil_iff cutset (trim other s)).0 nothing)))

-- No byte is a line break.
abbrev pub IsLine : Bytes → Type 0
IsLine [] = Unit {0}
IsLine (c ∷ s) = (c ≢ 10) × IsLine s

abbrev pub key_space : Bytes
key_space = 32 ∷ 9 ∷ 10 ∷ []

-- A line of which something is left is left with a key that is not blank.
pub line_key :
    (line : Bytes)
    → trim (32 ∷ 10 ∷ 9 ∷ []) line ≢ []
    → trim key_space (trim (32 ∷ 10 ∷ 9 ∷ []) line) ≢ []
unfolding contains
line_key line =
    trim-trim key_space (32 ∷ 10 ∷ 9 ∷ []) line (λ c h. ground arith)
      (all_cut-Within key_space (32 ∷ 10 ∷ 9 ∷ []) line (λ c h. ground arith))

all_cut-line :
    (line : Bytes) → IsLine line → all_cut key_space line ≡ true → all_cut (32 ∷ 9 ∷ []) line ≡ true
unfolding contains
all_cut-line [] ok h = refl
all_cut-line (c ∷ line) (other, ok) h = ground (arith, all_cut-line line ok)

pub line_text :
    (line : Bytes)
    → IsLine line
    → trim (32 ∷ 9 ∷ []) line ≢ []
    → trim key_space (trim (32 ∷ 9 ∷ []) line) ≢ []
unfolding contains
line_text line ok =
    trim-trim key_space (32 ∷ 9 ∷ []) line (λ c h. ground arith) (all_cut-line line ok)

-- The order of the bytes in the cut set does not matter.
pub same_space : (s : Bytes) → trim key_space s ≡ [] → trim (32 ∷ 10 ∷ 9 ∷ []) s ≡ []
unfolding contains
same_space s h = (trim-nil_iff (32 ∷ 10 ∷ 9 ∷ []) s).1 (
    all_cut-Within key_space (32 ∷ 10 ∷ 9 ∷ []) s (λ c h'. ground arith)
      ((trim-nil_iff key_space s).0 h))
