-- ===== src/LoadTest.antt =====
-- test/test.go: a program that keeps many shells running and counts how they end.
pub mod Counting
use telephonist_agent.Base.{
  ℕ, suc, ◌+◌, ◌-◌, ◌%◌, ◌^◌, ◌<◌, ◌≡◌, Bytes, List, [], ◌∷◌, Bool, true, false, Option, none, some,
  length, ite, ℕ_discrete, get_elem?, set, ◌⊎◌,
}
use telephonist_agent.Errors.{Error}

-- The counters of `test`; an int64 is read modulo 2 ^ 64.
pub record Counters : Type 0 where
  pub running : ℕ
  pub total : ℕ
  pub completed : ℕ
  pub successful : ℕ
  pub failed : ℕ

-- `atomic.AddInt64` of 1 and of -1.
abbrev pub up : ℕ → ℕ
up n = (n + 1) % 2 ^ 64

abbrev pub down : ℕ → ℕ
down n = (n + 2 ^ 64 - 1) % 2 ^ 64

-- Where a goroutine of `spawn` stands: before each of its additions, in `sleep`, or at its end. The
-- flag is whether `sleep` gave no error.
pub data Goroutine : Type 0 where
  begun : Goroutine
  counted : Goroutine
  sleeping : Goroutine
  slept : Bool → Goroutine
  left : Bool → Goroutine
  complete : Bool → Goroutine
  ended : Bool → Goroutine

-- One step of a goroutine.
pub data Move (c : Counters) : Goroutine → Counters → Goroutine → Type 0 where
  add_running : Move c begun (record c { running = up c.running }) counted
  add_total : Move c counted (record c { total = up c.total }) sleeping
  wakes : (ok : Bool) → Move c sleeping c (slept ok)
  drop_running : {ok : Bool} → Move c (slept ok) (record c { running = down c.running }) (left ok)
  add_completed :
      {ok : Bool} → Move c (left ok) (record c { completed = up c.completed }) (complete ok)
  add_successful : Move c (complete true) (record c { successful = up c.successful }) (ended true)
  add_failed : Move c (complete false) (record c { failed = up c.failed }) (ended false)

-- The program: the counters, the goroutines of `spawn`, and how many more the loop of `run` has to
-- start before it sleeps.
pub record Test : Type 0 where
  pub counters : Counters
  pub goroutines : List Goroutine
  pub left_to_spawn : ℕ

-- An int64 below 200.
abbrev pub IsBelow200 : ℕ → Type 0
IsBelow200 n = (n < 200) ⊎ (2 ^ 63 < n + 1)

pub data Step (t : Test) : Test → Type 0 where
  decide :
      (count : ℕ)
      → t.left_to_spawn ≡ 0
      → IsBelow200 t.counters.running
      → count < 50
      → Step t (record t { left_to_spawn = count })
  spawn :
      (count : ℕ)
      → t.left_to_spawn ≡ suc count
      → Step t (record t { goroutines = begun ∷ t.goroutines; left_to_spawn = count })
  moves :
      (i : ℕ) {g g' : Goroutine} {c : Counters}
      → get_elem? t.goroutines i ≡ some g
      → Move t.counters g c g'
      → Step t (record t { counters = c; goroutines = set t.goroutines i g' })

-- `test{seconds: 20, period: 1}`
abbrev pub new_test : Test
new_test = record {
  counters = record { running = 0; total = 0; completed = 0; successful = 0; failed = 0 };
  goroutines = [];
  left_to_spawn = 0;
}

pub data Reachable : Test → Type 0 where
  initially : Reachable new_test
  next : {t t' : Test} → Reachable t → Step t t' → Reachable t'

-- The program that `sleep` runs: the errors of the two pipes and of `Run`, and what its output and
-- its errors hold.
pub record Shell : Type 0 where
  pub stderr_error : Option Error
  pub stdout_error : Option Error
  pub run_error : Option Error
  pub output : Bytes
  pub errors : Bytes

-- What `sleep` returns after `Run`: `err` where a length is not the one that is expected.
unfoldable pub judged : Option Error → Bytes → Bytes → Option Error
judged err output errors =
    ite (ℕ_discrete (length output) 2) (ite (ℕ_discrete (length errors) 0) none err) err

-- `sleep`
unfoldable pub sleep : Shell → Option Error
unfolding judged
sleep sh = elim sh.stderr_error [
  | some err ↦ some err
  | none ↦ elim sh.stdout_error [
    | some err ↦ some err
    | none ↦ elim sh.run_error [ some err ↦ some err | none ↦ judged none sh.output sh.errors ]
  ]
]
