-- ===== src/Base/Text.antt =====
-- Texts as lists of bytes.
use Prim.Native.Nat.{ℕ}
use Prim.Native.Char.{code}
use Prim.Native.String.{String}
use mathlib.Core.Path.{◌≡◌, refl, ap₂}
use mathlib.Core.List.{List, [], ◌∷◌}
use native.Mathlib.Decide.{ℕ_discrete}
use native.Mathlib.Omega.{arith}

abbrev pub Bytes : Type 0
Bytes = List ℕ

-- The bytes of an ASCII text.
abbrev pub codes : String → Bytes
codes String.[] = []
codes (String.◌∷◌ c s) = code c ∷ codes s

nil-ne-cons : (x : ℕ) (xs : Bytes) → ¬ ([] ≡ x ∷ xs)
nil-ne-cons x xs e = cc

cons-ne-nil : (x : ℕ) (xs : Bytes) → ¬ (x ∷ xs ≡ [])
cons-ne-nil x xs e = cc

head_ne : (x y : ℕ) (xs ys : Bytes) → ¬ (x ≡ y) → ¬ (x ∷ xs ≡ y ∷ ys)
head_ne x y xs ys h e = h (ground arith)

tail_ne : (x y : ℕ) (xs ys : Bytes) → ¬ (xs ≡ ys) → ¬ (x ∷ xs ≡ y ∷ ys)
tail_ne x y xs ys h e = h (ground arith)

-- Go's `==` on strings.
unfoldable pub Bytes-discrete : Discrete Bytes
unfolding ℕ_discrete nil-ne-cons cons-ne-nil head_ne tail_ne
Bytes-discrete [] [] = yes refl
Bytes-discrete [] (y ∷ ys) = no (nil-ne-cons y ys)
Bytes-discrete (x ∷ xs) [] = no (cons-ne-nil x xs)
Bytes-discrete (x ∷ xs) (y ∷ ys) = elim (ℕ_discrete x y) [
  | no p ↦ no (head_ne x y xs ys p)
  | yes p ↦ elim (Bytes-discrete xs ys) [
    | no q ↦ no (tail_ne x y xs ys q)
    | yes q ↦ yes (ap₂ ◌∷◌ p q)
  ]
]
