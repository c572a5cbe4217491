-- ===== src/Task/Id.antt =====
-- telephonist/types.go: `GetID`, the 64-bit FNV-1a hash of a trigger, taken with a hash object
-- that all the calls share.
use telephonist_agent.Base.{
  ℕ, ◌≡◌, refl, sym, ap₂, ◌*◌, ◌%◌, ◌^◌, ◌<◌, ◌++◌, bit_xor, List, [], ◌∷◌, Bytes, map, arith,
}
use telephonist_agent.Task.{TaskTrigger}

abbrev pub fnv_offset : ℕ
fnv_offset = 14695981039346656037

abbrev fnv_prime : ℕ
fnv_prime = 1099511628211

-- One byte of the FNV-1a hash.
fnv_step : ℕ → ℕ → ℕ
fnv_step h c = (bit_xor h c * fnv_prime) % 2 ^ 64

-- `Write` of `hash/fnv`, whose state is one word.
fnv_write : ℕ → Bytes → ℕ
unfolding fnv_step
fnv_write h [] = h
fnv_write h (c ∷ cs) = fnv_write (fnv_step h c) cs

-- The identifier, and the state in which the shared hash object is left.
get_id : ℕ → TaskTrigger → ℕ × ℕ
unfolding fnv_write
get_id h trigger =
    let h1 = fnv_write h trigger.name in
    let h2 = fnv_write h1 (0 ∷ []) in let h3 = fnv_write h2 trigger.body in (h3, fnv_offset)

-- A row of calls one after another, from the state that the hash object has before them.
unfoldable pub get_ids : ℕ → List TaskTrigger → List ℕ
unfolding get_id
get_ids h [] = []
get_ids h (t ∷ ts) = let (id, h') = get_id h t in id ∷ get_ids h' ts

-- The identifier from a reset hash object.
unfoldable pub trigger_id : TaskTrigger → ℕ
unfolding get_id
trigger_id trigger = (get_id fnv_offset trigger).0

-- The hash of a text in one piece.
unfoldable pub fnv1a : Bytes → ℕ
unfolding fnv_write
fnv1a b = fnv_write fnv_offset b

fnv_write-append : (h : ℕ) (a b : Bytes) → fnv_write h (a ++ b) ≡ fnv_write (fnv_write h a) b
unfolding fnv_write
fnv_write-append h [] b = refl
fnv_write-append h (c ∷ a) b = fnv_write-append (fnv_step h c) a b

fnv_write-lt : (h : ℕ) (a : Bytes) → h < 2 ^ 64 → fnv_write h a < 2 ^ 64
unfolding fnv_write
fnv_write-lt h [] p = p
fnv_write-lt h (c ∷ a) p = fnv_write-lt (fnv_step h c) a (omega arith)

trigger_id-fnv1a : (t : TaskTrigger) → trigger_id t ≡ fnv1a (t.name ++ 0 ∷ t.body)
unfolding trigger_id fnv1a
trigger_id-fnv1a t = sym (fnv_write-append fnv_offset t.name (0 ∷ t.body))

-- Every identifier of a row of calls, whatever came before it, is the hash of the trigger's name,
-- a zero byte and its body in one piece.
pub get_ids-fnv1a :
    (ts : List TaskTrigger) → get_ids fnv_offset ts ≡ map (λ t. fnv1a (t.name ++ 0 ∷ t.body)) ts
unfolding get_ids trigger_id
get_ids-fnv1a [] = refl
get_ids-fnv1a (t ∷ ts) = ap₂ ◌∷◌ (trigger_id-fnv1a t) (get_ids-fnv1a ts)

-- An identifier fits in 64 bits.
pub trigger_id-lt : (t : TaskTrigger) → trigger_id t < 2 ^ 64
unfolding fnv1a
trigger_id-lt t =
    rw (trigger_id-fnv1a t) (fnv_write-lt fnv_offset (t.name ++ 0 ∷ t.body) (omega arith))
