-- ===== src/Base/Maps.antt =====
-- Go maps as association lists. `m[k] = v` replaces the entry of `k` or adds one, and `delete`
-- drops it; a loop over a map goes in the list's order, which Go leaves open.
use Prim.Native.Nat.{ℕ, suc}
use mathlib.Core.Path.{◌≡◌, refl, ap}
use mathlib.Core.Logic.{ite, ◌≢◌, ◌⊎◌, inl, inr}
use mathlib.Core.Bool.{Bool, true, false}
use mathlib.Core.Option.{Option, none, some}
use mathlib.Core.List.{List, [], ◌∷◌, Mem, mem-cons_self, mem-cons_of_mem}
unfoldable pub use mathlib.Core.List.{lookup}
use native.Mathlib.Omega.{arith}

abbrev pub Map : Type 0 → Type 0 → Type 0
Map K V = List (K × V)

abbrev pub length : {A : Type 0} → List A → ℕ
length [] = 0
length (x ∷ xs) = suc (length xs)

pub Option-cases : {A : Type 0} (o : Option A) → (o ≡ none) ⊎ ((a : A) × (o ≡ some a))
Option-cases none = inl refl
Option-cases (some a) = inr (a, refl)

pub Sum-cases : {A B : Type 0} (x : A ⊎ B) → ((a : A) × (x ≡ inl a)) ⊎ ((b : B) × (x ≡ inr b))
Sum-cases (inl a) = inl (a, refl)
Sum-cases (inr b) = inr (b, refl)

pub Bool-cases : (b : Bool) → (b ≡ true) ⊎ (b ≡ false)
Bool-cases true = inl refl
Bool-cases false = inr refl

pub nil_of_length : {A : Type 0} (xs : List A) → length xs ≡ 0 → xs ≡ []
nil_of_length [] h = refl
nil_of_length (x ∷ xs) h = absurd (omega arith)

-- The keys of a map, each once if the map is distinct.
abbrev pub keys : {K V : Type 0} → Map K V → List K
keys [] = []
keys (e ∷ m) = e.0 ∷ keys m

module _ {K V : Type 0} (dec : Discrete K) where
  unfoldable pub insert : K → V → Map K V → Map K V
  insert k v [] = (k, v) ∷ []
  insert k v (e ∷ m) = ite (dec k e.0) ((k, v) ∷ m) (e ∷ insert k v m)

  unfoldable pub delete : K → Map K V → Map K V
  delete k [] = []
  delete k (e ∷ m) = ite (dec k e.0) (delete k m) (e ∷ delete k m)

  -- No key has two entries, as in every Go map.
  abbrev pub Distinct : Map K V → Type 0
  Distinct [] = Unit {0}
  Distinct (e ∷ m) = (lookup dec e.0 m ≡ none) × Distinct m

  pub lookup-insert :
      (k j : K) (v : V) (m : Map K V)
      → lookup dec j (insert k v m) ≡ ite (dec k j) (some v) (lookup dec j m)
  unfolding lookup insert
  lookup-insert k j v [] = ground arith
  lookup-insert k j v (e ∷ m) = ground (arith, lookup-insert k j v m)

  pub lookup-delete :
      (k j : K) (m : Map K V) → lookup dec j (delete k m) ≡ ite (dec k j) none (lookup dec j m)
  unfolding lookup delete
  lookup-delete k j [] = ground arith
  lookup-delete k j (e ∷ m) = ground (arith, lookup-delete k j m)

  pub insert-Distinct : (k : K) (v : V) (m : Map K V) → Distinct m → Distinct (insert k v m)
  unfolding insert lookup
  insert-Distinct k v [] d = (refl, tt)
  insert-Distinct k v (e ∷ m) d = ground (arith, insert-Distinct k v m d.1, lookup-insert k e.0 v m)

  pub delete-Distinct : (k : K) (m : Map K V) → Distinct m → Distinct (delete k m)
  unfolding delete
  delete-Distinct k [] d = tt
  delete-Distinct k (e ∷ m) d = ground (arith, delete-Distinct k m d.1, lookup-delete k e.0 m)

  -- A map with no entry left has none at any key.
  pub ne-nil_of_lookup : (k : K) (v : V) (m : Map K V) → lookup dec k m ≡ some v → m ≢ []
  unfolding lookup
  ne-nil_of_lookup k v [] h e = cc
  ne-nil_of_lookup k v (x ∷ m) h e = cc

  pub insert-ne-nil : (k : K) (v : V) (m : Map K V) → insert k v m ≢ []
  unfolding insert
  insert-ne-nil k v [] e = cc
  insert-ne-nil k v (x ∷ m) e = ground arith

  pub delete_absent : (k : K) (m : Map K V) → lookup dec k m ≡ none → delete k m ≡ m
  unfolding lookup delete
  delete_absent k [] h = refl
  delete_absent k (e ∷ m) h = ground (arith, delete_absent k m)

  -- The number of entries, as `len` gives it.
  pub length-insert :
      (k : K) (v : V) (m : Map K V)
      → length (insert k v m) ≡ elim (lookup dec k m) [ none ↦ suc (length m) | some _ ↦ length m ]
  unfolding lookup insert
  length-insert k v [] = refl
  length-insert k v (e ∷ m) = ground (arith, length-insert k v m)

  pub length-delete :
      (k : K) (v : V) (m : Map K V)
      → Distinct m
      → lookup dec k m ≡ some v
      → suc (length (delete k m)) ≡ length m
  unfolding lookup delete
  length-delete k v [] d h = cc
  length-delete k v (e ∷ m) d h = ground (arith, length-delete k v m d.1, delete_absent k m)

  pub mem_of_lookup : (k : K) (v : V) (m : Map K V) → lookup dec k m ≡ some v → Mem (k, v) m
  unfolding lookup
  mem_of_lookup k v [] h = absurd (ground arith)
  mem_of_lookup k v (e ∷ m) h = elim (dec k e.0) [
    | yes p ↦ subst_mem (ground arith)
    | no p ↦ mem-cons_of_mem e (mem_of_lookup k v m (ground arith))
  ]
    where
      subst_mem : (k, v) ≡ e → Mem (k, v) (e ∷ m)
      subst_mem q = rw q mem-cons_self

  pub lookup_of_empty : (k : K) (m : Map K V) → length m ≡ 0 → lookup dec k m ≡ none
  unfolding lookup
  lookup_of_empty k [] h = refl
  lookup_of_empty k (e ∷ m) h = absurd (omega arith)

  pub lookup-singleton :
      (k j : K) (v : V) → lookup dec j ((k, v) ∷ []) ≡ ite (dec k j) (some v) none
  unfolding lookup
  lookup-singleton k j v = ground arith

  pub delete-length_one :
      (k : K) (v : V) (m : Map K V)
      → Distinct m
      → length m ≡ 1
      → lookup dec k m ≡ some v
      → (j : K) → j ≢ k
      → lookup dec j m ≡ none
  unfolding lookup
  delete-length_one k v [] d l h j n = refl
  delete-length_one k v (e ∷ []) d l h j n = ground arith
  delete-length_one k v (e ∷ f ∷ m) d l h j n = absurd (omega arith)

  pub delete-ne-nil : (k : K) (m : Map K V) → Distinct m → m ≢ [] → length m ≢ 1 → delete k m ≢ []
  delete-ne-nil k m d n l e = elim (Option-cases (lookup dec k m)) [
    | inl absent ↦ n (ground (arith, delete_absent k m))
    | inr (v, there) ↦ l (omega (arith, length-delete k v m d there, ap length e))
  ]

  pub insert-nil : (k : K) (v : V) → insert k v [] ≡ (k, v) ∷ []
  unfolding insert
  insert-nil k v = refl

  pub delete-nil : (k : K) → delete k [] ≡ []
  unfolding delete
  delete-nil k = refl
