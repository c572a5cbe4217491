-- ===== src/Base/Calls.antt =====
-- What a call of a Go function comes to. A method returns the changed receiver first, and a
-- multiple result is a tuple.
use mathlib.Core.Path.{◌≡◌, refl}
use mathlib.Core.Option.{Option, none, some}

pub data Go {ℓ} (A : Type ℓ) : Type ℓ where
  done : A → Go A
  panic : Go A  -- the process ends with a panic: nothing in the program recovers
  exit : Go A  -- `Fatal` of the logger or `os.Exit`, which end the process
  blocked : Go A  -- the goroutine waits for ever on a channel, or loops for ever

infixl 5 ◌>>=◌
abbrev pub ◌>>=◌ {ℓ κ} : {A : Type ℓ} {B : Type κ} → Go A → (A → Go B) → Go B
done a >>= f = f a
panic >>= f = panic
exit >>= f = exit
blocked >>= f = blocked

-- A value that the code cannot do without.
abbrev pub must {ℓ} : {A : Type ℓ} → Option A → Go A
must none = panic
must (some a) = done a

-- A chain that returns has a first call that returns.
pub >>=-eq-done {ℓ κ} :
    {A : Type ℓ} {B : Type κ} (m : Go A) (f : A → Go B) {b : B}
    → (m >>= f) ≡ done b
    → (a : A) × (m ≡ done a) × (f a ≡ done b)
>>=-eq-done (done a) f h = (a, refl, h)
>>=-eq-done panic f h = cc
>>=-eq-done exit f h = cc
>>=-eq-done blocked f h = cc
