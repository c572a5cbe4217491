-- ===== src/Base/Sets.antt =====
-- A set as a list: utils.go, and `contains` of taskscheduler/trigger_scheduler.go.
use mathlib.Core.Path.{◌≡◌, refl}
use mathlib.Core.Logic.{inl, inr, ite}
use mathlib.Core.Bool.{Bool, true, false}
use mathlib.Core.List.{List, [], ◌∷◌, ◌++◌}
use native.Mathlib.Omega.{arith}
use telephonist_agent.Base.Maps.{Bool-cases}

-- `contains`, and `addToSet`
unfoldable pub contains {ℓ} : {A : Type ℓ} → Discrete A → List A → A → Bool
contains dec [] v = false
contains dec (item ∷ arr) v = ite (dec item v) true (contains dec arr v)

unfoldable pub add_to_set {ℓ} : {A : Type ℓ} → Discrete A → List A → A → List A
unfolding contains
add_to_set dec arr v = elim (contains dec arr v) [ true ↦ arr | false ↦ arr ++ (v ∷ []) ]

contains-snoc {ℓ} :
    {A : Type ℓ} (dec : Discrete A) (xs : List A) (v w : A)
    → contains dec (xs ++ (v ∷ [])) w ≡ ite (dec v w) true (contains dec xs w)
unfolding contains
contains-snoc dec [] v w = refl
contains-snoc dec (x ∷ xs) v w = ground (arith, contains-snoc dec xs v w)

-- No element is there twice.
abbrev pub IsSetLike {ℓ} : {A : Type ℓ} → Discrete A → List A → Type 0
IsSetLike dec [] = Unit {0}
IsSetLike dec (x ∷ xs) = (contains dec xs x ≡ false) × IsSetLike dec xs

snoc-IsSetLike {ℓ} :
    {A : Type ℓ} (dec : Discrete A) (xs : List A) (v : A)
    → IsSetLike dec xs
    → contains dec xs v ≡ false
    → IsSetLike dec (xs ++ (v ∷ []))
unfolding contains
snoc-IsSetLike dec [] v s new = (refl, tt)
snoc-IsSetLike dec (x ∷ xs) v (new_x, s) new =
    (ground (arith, contains-snoc dec xs v x), snoc-IsSetLike dec xs v s (ground arith))

pub add_to_set-IsSetLike {ℓ} :
    {A : Type ℓ} (dec : Discrete A) (xs : List A) (v : A)
    → IsSetLike dec xs
    → IsSetLike dec (add_to_set dec xs v)
unfolding add_to_set
add_to_set-IsSetLike dec xs v s = elim (Bool-cases (contains dec xs v)) [
  | inl there ↦ let e : add_to_set dec xs v ≡ xs = ground arith in rw e s
  | inr new ↦
      let e : add_to_set dec xs v ≡ xs ++ (v ∷ []) = ground arith in
      rw e (snoc-IsSetLike dec xs v s new)
]

pub contains-add_to_set {ℓ} :
    {A : Type ℓ} (dec : Discrete A) (xs : List A) (v w : A)
    → contains dec (add_to_set dec xs v) w ≡ ite (dec v w) true (contains dec xs w)
unfolding add_to_set
contains-add_to_set dec xs v w = ground (arith, contains-snoc dec xs v w)
