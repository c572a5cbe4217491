-- ===== src/Triggers/Composite/Starting.antt =====
-- taskscheduler/trigger_scheduler.go: `Start` of the composite scheduler when all the children
-- start, and when one does not.
use telephonist_agent.Base.{
  ℕ, zero, suc, ◌+◌, ◌≡◌, refl, List, [], ◌∷◌, ◌++◌, true, false, none, some, length, get_elem?,
  set, Go, done, panic, ◌>>=◌, arith, >>=-eq-done, length-append,
}
use telephonist_agent.Errors.{Error}
use telephonist_agent.Triggers.{TriggersScheduler}
use telephonist_agent.Triggers.Composite.{CompositeTriggersScheduler, start_from, rollback, start}

module _ {A : Type 0} where
  get_elem?-append : (xs ys : List A) (y : A) → get_elem? (xs ++ y ∷ ys) (length xs) ≡ some y
  get_elem?-append [] ys y = refl
  get_elem?-append (x ∷ xs) ys y = get_elem?-append xs ys y

  get_elem?-length : (xs : List A) → get_elem? xs (length xs) ≡ none
  get_elem?-length [] = refl
  get_elem?-length (x ∷ xs) = get_elem?-length xs

  set-append : (xs ys : List A) (y z : A) → set (xs ++ y ∷ ys) (length xs) z ≡ xs ++ z ∷ ys
  set-append [] ys y z = refl
  set-append (x ∷ xs) ys y z = rw (set-append xs ys y z)

  append_one : (xs : List A) (y : A) (ys : List A) → xs ++ y ∷ ys ≡ (xs ++ y ∷ []) ++ ys
  append_one [] y ys = refl
  append_one (x ∷ xs) y ys = rw (← append_one xs y ys)

module _ {C : Type 0} (ops : TriggersScheduler C) where
  -- Each of the schedulers starts without an error.
  abbrev pub AllStart : List C → List C → Type 0
  AllStart [] [] = Unit {0}
  AllStart [] (y ∷ ys) = ⊥
  AllStart (x ∷ xs) [] = ⊥
  AllStart (x ∷ xs) (y ∷ ys) = (ops.start x ≡ done (y, none)) × AllStart xs ys

  -- `n` calls of `Stop` on one scheduler.
  unfoldable pub stop_times : ℕ → C → Go C
  stop_times zero c = done c
  stop_times (suc n) c = do c' ← ops.stop c; stop_times n c'

  AllStart-length : (xs ys : List C) → AllStart xs ys → length xs ≡ length ys
  AllStart-length [] [] a = refl
  AllStart-length [] (y ∷ ys) a = absurd a
  AllStart-length (x ∷ xs) [] a = absurd a
  AllStart-length (x ∷ xs) (y ∷ ys) a = omega (arith, AllStart-length xs ys a.1)

  start_from_all :
      (i : ℕ) (xs ys : List C)
      → AllStart xs ys
      → start_from ops i xs ≡ done (ys, none, i + length xs)
  unfolding start_from
  start_from_all i [] [] a = ground arith
  start_from_all i [] (y ∷ ys) a = absurd a
  start_from_all i (x ∷ xs) [] a = absurd a
  start_from_all i (x ∷ xs) (y ∷ ys) a = ground (arith, start_from_all (i + 1) xs ys a.1)

  start_from_fails :
      (i : ℕ) (xs ys zs : List C) (c c' : C) (err : Error)
      → AllStart xs ys
      → ops.start c ≡ done (c', some err)
      → start_from ops i (xs ++ c ∷ zs) ≡ done (ys ++ c' ∷ zs, some err, i + length xs + 1)
  unfolding start_from
  start_from_fails i [] [] zs c c' err a f = ground arith
  start_from_fails i [] (y ∷ ys) zs c c' err a f = absurd a
  start_from_fails i (x ∷ xs) [] zs c c' err a f = absurd a
  start_from_fails i (x ∷ xs) (y ∷ ys) zs c c' err a f =
      ground (arith, start_from_fails (i + 1) xs ys zs c c' err a.1 f)

  rollback_times :
      (n : ℕ) (xs ys : List C) (c c' : C)
      → stop_times n c ≡ done c'
      → rollback ops n (length xs) (xs ++ c ∷ ys) ≡ done (xs ++ c' ∷ ys)
  unfolding rollback stop_times
  rollback_times zero xs ys c c' h = ground arith
  rollback_times (suc n) xs ys c c' h =
      let (d, stopped, rest) = >>=-eq-done (ops.stop c) (stop_times n) h in
      ground (
        arith,
        get_elem?-append xs ys c,
        stopped,
        set-append xs ys c d,
        rollback_times n xs ys d c' rest,
      )

  -- When the scheduler does not run and every child starts without an error, `Start` leaves the
  -- children as their starts left them and the scheduler running, without an error.
  pub start_succeeds :
      (e : CompositeTriggersScheduler C) (cs : List C)
      → e.is_running ≡ false
      → AllStart e.child_schedulers cs
      → start ops e ≡ done (record e { child_schedulers = cs; is_running = true }, none)
  unfolding start
  start_succeeds e cs off a = ground (arith, start_from_all 0 e.child_schedulers cs a)

  -- When the scheduler does not run, a child other than the last fails to start, and every child
  -- before it starts, the error is reported; the children before it stay started, and it is the
  -- child after the failing one that is stopped, two times more than there are children before the
  -- failing one, provided that those calls return.
  pub start_stops_the_next :
      (e : CompositeTriggersScheduler C) (xs ys zs : List C) (c c' d d' : C) (err : Error)
      → e.is_running ≡ false
      → e.child_schedulers ≡ xs ++ c ∷ d ∷ zs
      → AllStart xs ys
      → ops.start c ≡ done (c', some err)
      → stop_times (length xs + 2) d ≡ done d'
      → start ops e ≡ done (record e { child_schedulers = ys ++ c' ∷ d' ∷ zs }, some err)
  unfolding start
  start_stops_the_next e xs ys zs c c' d d' err off children a f s = ground (
    arith,
    start_from_fails 0 xs ys (d ∷ zs) c c' err a f,
    AllStart-length xs ys a,
    append_one ys c' (d ∷ zs),
    append_one ys c' (d' ∷ zs),
    length-append ys (c' ∷ []),
    rollback_times (length xs + 2) (ys ++ c' ∷ []) zs d d' s,
  )

  -- When the scheduler does not run, the last child fails to start and every child before it starts,
  -- `Start` panics.
  pub start_panics :
      (e : CompositeTriggersScheduler C) (xs ys : List C) (c c' : C) (err : Error)
      → e.is_running ≡ false
      → e.child_schedulers ≡ xs ++ c ∷ []
      → AllStart xs ys
      → ops.start c ≡ done (c', some err)
      → start ops e ≡ panic
  unfolding start rollback
  start_panics e xs ys c c' err off children a f = ground (
    arith,
    start_from_fails 0 xs ys [] c c' err a f,
    AllStart-length xs ys a,
    length-append ys (c' ∷ []),
    get_elem?-length (ys ++ c' ∷ []),
  )
