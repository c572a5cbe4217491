-- ===== src/Triggers/Fs/Paths.antt =====
-- taskscheduler/utils.go: paths as they are kept and matched.
use telephonist_agent.Base.{
  ◌≡◌, refl, Bytes, codes, [], ◌∷◌, ◌++◌, Bool, true, false, ite, ℕ_discrete, arith,
}

-- `strings.HasPrefix(s, prefix)`
unfoldable pub has_prefix : Bytes → Bytes → Bool
has_prefix s [] = true
has_prefix [] (p ∷ ps) = false
has_prefix (c ∷ s) (p ∷ ps) = ite (ℕ_discrete c p) (has_prefix s ps) false

-- `strings.TrimSuffix(s, "/")`
unfoldable pub trim_slash : Bytes → Bytes
trim_slash [] = []
trim_slash (c ∷ []) = ite (ℕ_discrete c b'/') [] (c ∷ [])
trim_slash (c ∷ c' ∷ s) = c ∷ trim_slash (c' ∷ s)

unfoldable pub matches_path : Bytes → Bytes → Bool
unfolding has_prefix
matches_path root path = has_prefix path root

unfoldable pub normalize_path : Bytes → Bytes
unfolding has_prefix trim_slash
normalize_path path =
    trim_slash (elim (has_prefix path (codes "/")) [ true ↦ path | false ↦ codes "/" ++ path ])

-- A prefix test passes just when some rest completes the prefix.
pub has_prefix_sound : (s p : Bytes) → has_prefix s p ≡ true → (r : Bytes) × (s ≡ p ++ r)
unfolding has_prefix
has_prefix_sound s [] h = (s, refl)
has_prefix_sound [] (p ∷ ps) h = ([], ground arith)
has_prefix_sound (c ∷ s) (p ∷ ps) h = elim (ℕ_discrete c p) [
  | yes e ↦ let (r, q) = has_prefix_sound s ps (ground arith) in (r, ground arith)
  | no e ↦ ([], ground arith)
]

pub has_prefix_complete : (p r : Bytes) → has_prefix (p ++ r) p ≡ true
unfolding has_prefix
has_prefix_complete [] r = refl
has_prefix_complete (c ∷ p) r = ground (arith, has_prefix_complete p r)
