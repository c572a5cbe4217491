-- ===== src/Errors.antt =====
-- The error values of the program and their texts: utils/errors.go and telephonist/error.go.
use telephonist_agent.Base.{ℕ, suc, Bytes, codes, [], ◌∷◌, ◌++◌, ℕ_discrete, ite}

mutual
  pub data Error : Type 0 where
    message : Bytes → Error  -- `errors.New`, `fmt.Errorf`, and the errors of other packages
    errno : ℕ → Error  -- `syscall.Errno`
    chained : Bytes → Error → ℕ → Error  -- `*ChainedError`: Message, InnerError, level
    combined : Errors → Error  -- `*CombinedError`
    unexpected_status_code : ℕ → Bytes → Bytes → Error  -- Status, StatusText, ResponseBody

  pub data Errors : Type 0 where
    nil : Errors
    cons : Error → Errors → Errors

level_of : Error → ℕ
level_of (chained m inner level) = suc level
level_of _ = 0

-- `ChainError`.
unfoldable pub chain_error : Bytes → Error → Error
unfolding level_of
chain_error m inner = chained m inner (level_of inner)

-- `strings.ReplaceAll(s, "\n", "\n"+prefix)`
indented : Bytes → Bytes → Bytes
indented prefix [] = []
indented prefix (c ∷ s) =
    ite (ℕ_discrete c 10) (10 ∷ prefix ++ indented prefix s) (c ∷ indented prefix s)

status_text : Bytes → Bytes → Bytes
status_text text body =
    codes "Unexpected status code: " ++ text ++ codes ", response body: " ++ body

-- `Error()` of each type of error, with the system's text of an `Errno`. `chain_text` is the loop of
-- a `ChainedError`, from one of its errors on.
unfoldable mutual
  unfolding indented status_text

  pub error_text : (ℕ → Bytes) → Error → Bytes
  error_text strerror (message m) = m
  error_text strerror (errno n) = strerror n
  error_text strerror (chained m inner level) =
      10 ∷ indented (10 ∷ []) m ++ chain_text strerror (10 ∷ 9 ∷ []) inner
  error_text strerror (combined errors) = combined_text strerror errors
  error_text strerror (unexpected_status_code status text body) = status_text text body

  chain_text : (ℕ → Bytes) → Bytes → Error → Bytes
  chain_text strerror prefix (message m) = prefix ++ indented prefix m
  chain_text strerror prefix (errno n) = prefix ++ indented prefix (strerror n)
  chain_text strerror prefix (chained m inner level) =
      prefix ++ indented prefix m ++ chain_text strerror (prefix ++ 9 ∷ []) inner
  chain_text strerror prefix (combined errors) =
      prefix ++ indented prefix (combined_text strerror errors)
  chain_text strerror prefix (unexpected_status_code status text body) =
      prefix ++ indented prefix (status_text text body)

  combined_text : (ℕ → Bytes) → Errors → Bytes
  combined_text strerror nil = codes "Multiple errors occured:"
  combined_text strerror (cons e nil) = error_text strerror e
  combined_text strerror (cons e (cons e' rest)) =
      codes "Multiple errors occured:"
      ++ (10 ∷ 9 ∷ error_text strerror e)
      ++ (10 ∷ 9 ∷ error_text strerror e')
      ++ listed_text strerror rest

  listed_text : (ℕ → Bytes) → Errors → Bytes
  listed_text strerror nil = []
  listed_text strerror (cons e rest) = (10 ∷ 9 ∷ error_text strerror e) ++ listed_text strerror rest
