-- ===== src/Triggers/Composite/Routing.antt =====
-- taskscheduler/trigger_scheduler.go: to which child the composite scheduler sends a trigger, and
-- the table `ids` by which it finds the child again.
use telephonist_agent.Base.{
  ℕ, zero, suc, ◌+◌, ◌<◌, ◌≡◌, refl, ◌↔◌, List, [], ◌∷◌, true, false, Option, none, some, length,
  get_elem?, set, Bytes, lookup, insert, ℕ_discrete, lookup-insert, done, ◌>>=◌, arith, >>=-eq-done,
  Option-cases, Bool-cases, inl, inr,
}
use telephonist_agent.Errors.{Error}
use telephonist_agent.Task.{TaskTrigger}
use telephonist_agent.Triggers.{TriggersScheduler}
use telephonist_agent.Triggers.Composite.{
  CompositeTriggersScheduler, first_able, routed, schedule_by_id, schedule, unschedule,
  can_schedule,
}

module _ {A : Type 0} where
  length-set : (xs : List A) (i : ℕ) (v : A) → length (set xs i v) ≡ length xs
  length-set [] i v = refl
  length-set (x ∷ xs) zero v = refl
  length-set (x ∷ xs) (suc i) v = omega (arith, length-set xs i v)

  get_elem?-set_self :
      (xs : List A) (i : ℕ) (v w : A) → get_elem? xs i ≡ some w → get_elem? (set xs i v) i ≡ some v
  get_elem?-set_self [] i v w h = cc
  get_elem?-set_self (x ∷ xs) zero v w h = refl
  get_elem?-set_self (x ∷ xs) (suc i) v w h = get_elem?-set_self xs i v w h

  lt_of_get_elem? : (xs : List A) (i : ℕ) (v : A) → get_elem? xs i ≡ some v → i < length xs
  lt_of_get_elem? [] i v h = absurd (ground arith)
  lt_of_get_elem? (x ∷ xs) zero v h = omega arith
  lt_of_get_elem? (x ∷ xs) (suc i) v h = omega (arith, lt_of_get_elem? xs i v h)

module _ {C : Type 0} (ops : TriggersScheduler C) where
  -- The choice is a child at the given index that can schedule the type, and none before it can.
  first_able_sound :
      (n : ℕ) (name : Bytes) (cs : List C) (i : ℕ) (c : C)
      → first_able ops n name cs ≡ some (i, c)
      → (k : ℕ) × (i ≡ n + k)
        × (get_elem? cs k ≡ some c)
        × (ops.can_schedule c name ≡ true)
        × ((j : ℕ) (d : C) → j < k → get_elem? cs j ≡ some d → ops.can_schedule d name ≡ false)
  unfolding first_able
  first_able_sound n name [] i c h = absurd (ground arith)
  first_able_sound n name (x ∷ cs) i c h = elim (Bool-cases (ops.can_schedule x name)) [
    | inl able ↦ (0, ground arith, ground arith, ground arith, λ j d lt. absurd (omega arith))
    | inr unable ↦
        let (k, at, there, able, before) =
          first_able_sound (n + 1) name cs i c (rw (unable, first_able) at h) in
        (suc k, omega arith, there, able, earlier x cs k unable before)
  ]
    where
      earlier :
          (x : C) (cs : List C) (k : ℕ)
          → ops.can_schedule x name ≡ false
          → ((j : ℕ) (d : C) → j < k → get_elem? cs j ≡ some d → ops.can_schedule d name ≡ false)
          → (j : ℕ) (d : C) → j < suc k
          → get_elem? (x ∷ cs) j ≡ some d
          → ops.can_schedule d name ≡ false
      earlier x cs k unable before zero d lt e = ground arith
      earlier x cs k unable before (suc j) d lt e = before j d (omega arith) e

  first_able-none :
      (n : ℕ) (name : Bytes) (cs : List C)
      → first_able ops n name cs ≡ none
      → (j : ℕ) (d : C) → get_elem? cs j ≡ some d
      → ops.can_schedule d name ≡ false
  unfolding first_able
  first_able-none n name [] h j d e = absurd (ground arith)
  first_able-none n name (x ∷ cs) h zero d e = ground arith
  first_able-none n name (x ∷ cs) h (suc j) d e =
      first_able-none (n + 1) name cs (ground arith) j d e

  routed_returns :
      (i : ℕ) (e e' : CompositeTriggersScheduler C) (r : C × ℕ × Option Error) (id' : ℕ)
      → routed ops i e r ≡ (e', id', none)
      → (r ≡ (r.0, id', none))
        × (r.1 ≡ id')
        × (e' ≡ record e {
          child_schedulers = set e.child_schedulers i r.0;
          ids = insert ℕ_discrete id' i e.ids;
        })
  unfolding routed
  routed_returns i e e' (d, j, none) id' h = ground arith
  routed_returns i e e' (d, j, some err) id' h = absurd (ground arith)

  found_again :
      (id k : ℕ) (e : CompositeTriggersScheduler C) (c : C)
      → lookup ℕ_discrete id e.ids ≡ some k
      → get_elem? e.child_schedulers k ≡ some c
      → unschedule ops id e ≡ (
          ops.unschedule id c >>= λ r.
          done (record e { child_schedulers = set e.child_schedulers k r.0 }, r.1, r.2))
  unfolding unschedule
  found_again id k e c entry there = ground arith

  -- Every index in the table is one of a child.
  abbrev pub IsRouted : CompositeTriggersScheduler C → Type 0
  IsRouted e = (id i : ℕ) → lookup ℕ_discrete id e.ids ≡ some i → i < length e.child_schedulers

  -- A trigger goes to the first child that can schedule its type. If that child schedules it, the
  -- identifier is entered with the child's index, the table stays sound, and `Unschedule` of the
  -- identifier calls that child in the state that it was left in.
  pub unschedule-schedule_by_id :
      (id : ℕ) (t : TaskTrigger) (e e' : CompositeTriggersScheduler C) (id' : ℕ)
      → IsRouted e
      → schedule_by_id ops id t e ≡ done (e', id', none)
      → (i : ℕ) × (c : C) × (c' : C) × (get_elem? e.child_schedulers i ≡ some c)
        × (ops.can_schedule c t.name ≡ true)
        × ((j : ℕ) (d : C)
            → j < i
            → get_elem? e.child_schedulers j ≡ some d
            → ops.can_schedule d t.name ≡ false)
        × (ops.schedule_by_id id t c ≡ done (c', id', none))
        × IsRouted e'
        × (unschedule ops id' e' ≡ (
            ops.unschedule id' c' >>= λ r.
            done (record e' { child_schedulers = set e'.child_schedulers i r.0 }, r.1, r.2)))
  unfolding schedule_by_id
  unschedule-schedule_by_id id t e e' id' v h =
      elim (Option-cases (first_able ops 0 t.name e.child_schedulers)) [
        | inl nobody ↦ absurd (ground arith)
        | inr ((i, c), choice) ↦
            let (k, at, there, able, before) =
              first_able_sound 0 t.name e.child_schedulers i c choice in
            let (r, called, entered) =
              >>=-eq-done (ops.schedule_by_id id t c) (λ r. done (routed ops i e r))
                (rw (choice, schedule_by_id) at h) in
            let (ok, same_id, e'_is) = routed_returns i e e' r id' (ground arith) in
            (
              k,
              c,
              r.0,
              there,
              able,
              before,
              ground arith,
              λ a j p. ground (
                arith,
                v a j,
                lookup-insert ℕ_discrete id' a i e.ids,
                length-set e.child_schedulers i r.0,
                lt_of_get_elem? e.child_schedulers k c there,
              ),
              found_again id' k e' r.0 (ground (arith, lookup-insert ℕ_discrete id' id' i e.ids))
                  (ground (arith, get_elem?-set_self e.child_schedulers k r.0 c there)),
            )
      ]

  -- An identifier that `Schedule` gives out is entered nowhere: the table stays as it was.
  pub schedule-ids :
      (t : TaskTrigger) (e e' : CompositeTriggersScheduler C) (id : ℕ) (err : Option Error)
      → schedule ops t e ≡ done (e', id, err)
      → e'.ids ≡ e.ids
  unfolding schedule
  schedule-ids t e e' id err h = ground arith

  -- A type can be scheduled just when some child can schedule it.
  pub can_schedule_iff :
      (e : CompositeTriggersScheduler C) (name : Bytes)
      → (can_schedule ops e name ≡ true) ↔ (
          (i : ℕ) × (c : C) × (get_elem? e.child_schedulers i ≡ some c)
          × (ops.can_schedule c name ≡ true))
  unfolding can_schedule
  can_schedule_iff e name = (
    λ h. elim (Option-cases (first_able ops 0 name e.child_schedulers)) [
      | inl nobody ↦ absurd (ground arith)
      | inr ((i, c), choice) ↦
          let (k, at, there, able, before) =
            first_able_sound 0 name e.child_schedulers i c choice in
          (k, c, there, able)
    ],
    λ h. elim (Option-cases (first_able ops 0 name e.child_schedulers)) [
      | inl nobody ↦
          absurd (ground (arith, first_able-none 0 name e.child_schedulers nobody h.0 h.1 h.2, h.3))
      | inr (choice, chosen) ↦ rw (chosen, can_schedule)
    ],
  )
