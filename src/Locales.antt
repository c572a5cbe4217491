-- ===== src/Locales.antt =====
-- locales/main.go: the language of the texts.
use telephonist_agent.Base.{
  ◌≡◌, refl, ℕ, Bytes, codes, [], ◌∷◌, ◌++◌, Bool, true, false, ◌&&◌, Option, none, some, ite,
  ℕ_discrete, Bytes-discrete, lookup, must, Go, arith,
}

-- What the pattern `^(.*)[-_]([^.]*)(\..*)?$` asks of a separator, of its last group, and of what stands
-- behind the separator. A point matches no line break.
unfoldable pub is_separator : ℕ → Bool
is_separator c = ite (ℕ_discrete c b'-') true (ite (ℕ_discrete c b'_') true false)

unfoldable pub one_line : Bytes → Bool
one_line [] = true
one_line (c ∷ s) = elim (ℕ_discrete c 10) [ yes _ ↦ false | no _ ↦ one_line s ]

unfoldable pub is_region : Bytes → Bool
unfolding one_line
is_region [] = true
is_region (c ∷ s) = elim (ℕ_discrete c b'.') [ yes _ ↦ one_line s | no _ ↦ is_region s ]

-- The first group of the match, which is as long as it can be, if there is a match.
unfoldable pub language_part : Bytes → Option Bytes
unfolding is_separator is_region
language_part [] = none
language_part (c ∷ s) =
    let later = language_part s in
    elim (ℕ_discrete c 10) [
      | yes _ ↦ none
      | no _ ↦ elim later [
        | some part ↦ some (c ∷ part)
        | none ↦ elim (is_separator c && is_region s) [ true ↦ some [] | false ↦ none ]
      ]
    ]

-- `strings.ToUpper`, the two embedded files, and `json.Unmarshal` of a file into new messages.
pub record Texts (M : Type 0) : Type 0 where
  pub to_upper : Bytes → Bytes
  pub en : Bytes
  pub ru : Bytes
  pub unmarshal : Bytes → Option M

module _ {M : Type 0} (texts : Texts M) where
  -- `normalizeLang`
  unfoldable pub normalize_lang : Bytes → Bytes
  unfolding language_part
  normalize_lang language = elim (language_part language) [
    | some part ↦ part
    | none ↦ texts.to_upper language
  ]

  -- The file of a language in `langMap`, or the English one.
  unfoldable pub file_of : Bytes → Bytes
  unfolding lookup
  file_of language =
      elim (lookup Bytes-discrete language ((codes "EN", texts.en) ∷ (codes "RU", texts.ru) ∷ [])) [
        | some src ↦ src
        | none ↦ texts.en
      ]

  unfoldable pub source : Bytes → Bytes
  unfolding normalize_lang file_of
  source language = file_of (normalize_lang language)

  -- `getMessages`
  unfoldable pub get_messages : Bytes → Go M
  unfolding source
  get_messages language = must (texts.unmarshal (source language))

-- `detectLanguage`, which looks the same variable up twice.
unfoldable pub detect_language : (Bytes → Option Bytes) → Bytes
detect_language lookup_env = elim (lookup_env (codes "LANG")) [
  | some lang ↦ lang
  | none ↦ elim (lookup_env (codes "LANG")) [ some lang ↦ lang | none ↦ codes "EN" ]
]

-- `init`
unfoldable pub init : {M : Type 0} → Texts M → (Bytes → Option Bytes) → Go M
unfolding get_messages detect_language
init texts lookup_env = get_messages texts (detect_language lookup_env)

-- No byte of the text is a separator.
abbrev pub HasNoSeparator : Bytes → Type 0
HasNoSeparator [] = Unit {0}
HasNoSeparator (c ∷ s) = (is_separator c ≡ false) × HasNoSeparator s

language_part-none : (s : Bytes) → HasNoSeparator s → language_part s ≡ none
unfolding language_part
language_part-none [] h = refl
language_part-none (c ∷ s) h = ground (arith, language_part-none s h.1)

language_part-append :
    (part rest : Bytes) (c : ℕ)
    → one_line part ≡ true
    → is_separator c ≡ true
    → HasNoSeparator rest
    → is_region rest ≡ true
    → language_part (part ++ c ∷ rest) ≡ some part
unfolding language_part one_line
language_part-append [] rest c line sep plain region = ground (arith, language_part-none rest plain)
language_part-append (x ∷ part) rest c line sep plain region =
    ground (arith, language_part-append part rest c)

module _ {M : Type 0} (texts : Texts M) where
  file_of-Russian :
      (language : Bytes)
      → file_of texts language ≡ ite (Bytes-discrete language (codes "RU")) texts.ru texts.en
  unfolding file_of lookup
  file_of-Russian language = ground arith

  -- For a language with a region, as ru_RU.UTF-8, whose part before the last separator is on one line
  -- and whose text behind its last point, if any, is too, the Russian file is read just when that part
  -- is RU in capital letters, and the English one otherwise. For a language without a separator the
  -- Russian file is read just when it is RU once it is in capitals.
  pub source-region :
      (part rest : Bytes) (c : ℕ)
      → one_line part ≡ true
      → is_separator c ≡ true
      → HasNoSeparator rest
      → is_region rest ≡ true
      → (source texts (part ++ c ∷ rest) ≡ ite (Bytes-discrete part (codes "RU")) texts.ru texts.en)
        × (source texts rest
            ≡ ite (Bytes-discrete (texts.to_upper rest) (codes "RU")) texts.ru texts.en)
  unfolding source normalize_lang
  source-region part rest c line sep plain region = (
    rw (language_part-append part rest c line sep plain region, normalize_lang)
        (file_of-Russian part),
    rw (language_part-none rest plain, normalize_lang) (file_of-Russian (texts.to_upper rest)),
  )
