-- ===== src/Tasks/Updating.antt =====
-- taskscheduler/task_scheduler.go: what the loop of updates over a task's triggers makes them run.
use telephonist_agent.Base.{
  ◌⊎◌, inl, inr, refl, ℕ, ◌≡◌, sym, ap, ◌∙◌, List, [], ◌∷◌, true, Option, none, some, lookup,
  ℕ_discrete, done, ◌>>=◌, arith, >>=-eq-done,
}
use telephonist_agent.Errors.{Error}
use telephonist_agent.Task.{TaskTrigger, DefinedTask}
use telephonist_agent.Task.Id.{trigger_id}
use telephonist_agent.Triggers.{TriggersScheduler}
use telephonist_agent.Tasks.{
  linked, TaskScheduler, ScheduledTask, update_trigger, update_each, member, note,
}
use telephonist_agent.Tasks.Links.{
  runs, update_trigger-runs, update_trigger-task, update_trigger-still,
}
use mathlib.Core.Path.{subst, subst₂}

-- In its good states the scheduler takes the triggers that are fit, without an error, and stays in such
-- a state.
abbrev pub Takes :
    {S : Type 0} → TriggersScheduler S → (S → Type 0) → (TaskTrigger → Type 0) → Type 0
Takes {S} ops Good Ok =
    (t : TaskTrigger) (s : S)
    → Good s
    → Ok t
    → (s' : S) × (i : ℕ) × (ops.schedule_by_id (trigger_id t) t s ≡ done (s', i, none)) × Good s'

abbrev pub AllOk : (TaskTrigger → Type 0) → List TaskTrigger → Type 0
AllOk Ok [] = Unit {0}
AllOk Ok (t ∷ ts) = Ok t × AllOk Ok ts

-- Each of the triggers runs a task as it is defined, and stands among the identifiers.
abbrev pub AllRun :
    {S : Type 0} → TaskScheduler S → ℕ → DefinedTask → List ℕ → List TaskTrigger → Type 0
AllRun e task_id d ids [] = Unit {0}
AllRun e task_id d ids (t ∷ ts) =
    ((runs e (trigger_id t) task_id ≡ some d) × (member (trigger_id t) ids ≡ true))
    × AllRun e task_id d ids ts

module _ {S : Type 0} (ops : TriggersScheduler S) where
  pub update_each_cons :
      (task_id : ℕ) (t : TaskTrigger) (ts : List TaskTrigger) (e e' : TaskScheduler S)
      (ids : List ℕ)
      → update_each ops task_id (t ∷ ts) e ≡ done (e', ids)
      → (r : TaskScheduler S × ℕ × Option Error) × (rest : List ℕ) × (update_trigger ops task_id t e
          ≡ done r)
        × (update_each ops task_id ts r.0 ≡ done (e', rest))
        × (ids ≡ note r.2 r.1 rest)
  unfolding update_each
  update_each_cons task_id t ts e e' ids h =
      let (r, first, h1) =
        >>=-eq-done (update_trigger ops task_id t e)
          (λ r. update_each ops task_id ts r.0 >>= λ x. done (x.0, note r.2 r.1 x.1)) h in
      let (x, others, h2) =
        >>=-eq-done (update_each ops task_id ts r.0) (λ x. done (x.0, note r.2 r.1 x.1)) h1 in
      (r, x.1, first, ground arith, ground arith)

  update_each-still :
      (task_id : ℕ) (ts : List TaskTrigger) (st : ScheduledTask) (e e' : TaskScheduler S)
      (ids : List ℕ) (i : ℕ)
      → lookup ℕ_discrete task_id e.tasks ≡ some st
      → runs e i task_id ≡ some st.defined_task
      → update_each ops task_id ts e ≡ done (e', ids)
      → runs e' i task_id ≡ some st.defined_task
  unfolding update_each
  update_each-still task_id [] st e e' ids i there now h = ground arith
  update_each-still task_id (t ∷ ts) st e e' ids i there now h =
      let (r, rest, first, others, _) = update_each_cons task_id t ts e e' ids h in
      let (st', there', same) = update_trigger-task ops task_id t st e r.0 r.1 r.2 there first in
      let still = update_trigger-still ops task_id t st e r.0 r.1 r.2 i there now first in
      update_each-still task_id ts st' r.0 e' rest i there' (rw same still) others ∙ ap some same

  AllRun-cons :
      (e : TaskScheduler S) (task_id : ℕ) (d : DefinedTask) (id : ℕ) (ids : List ℕ)
      (ts : List TaskTrigger)
      → AllRun e task_id d ids ts
      → AllRun e task_id d (id ∷ ids) ts
  unfolding member
  AllRun-cons e task_id d id ids [] a = tt
  AllRun-cons e task_id d id ids (t ∷ ts) a =
      ((a.0.0, ground arith), AllRun-cons e task_id d id ids ts a.1)

  member_here : (id : ℕ) (ids : List ℕ) → member id (id ∷ ids) ≡ true
  unfolding member
  member_here id ids = ground arith

  module _ (Good : S → Type 0) (Ok : TaskTrigger → Type 0) (takes : Takes ops Good Ok) where
    update_trigger-no_error :
        (task_id : ℕ) (t : TaskTrigger) (e : TaskScheduler S)
        (r : TaskScheduler S × ℕ × Option Error)
        → Good e.triggers_scheduler
        → Ok t
        → update_trigger ops task_id t e ≡ done r
        → (r.2 ≡ none) × Good r.0.triggers_scheduler
    unfolding update_trigger linked
    update_trigger-no_error task_id t e r good ok h =
        let (s, i, called, good') = takes t e.triggers_scheduler good ok in
        let left : (r.0.triggers_scheduler ≡ e.triggers_scheduler) ⊎ (r.0.triggers_scheduler ≡ s) =
          grind arith in
        (
          grind arith,
          elim left [
            | inl same ↦ subst Good (sym same) good
            | inr same ↦ subst Good (sym same) good'
          ],
        )

    pub update_each-AllRun :
        (task_id : ℕ) (ts : List TaskTrigger) (st : ScheduledTask) (e e' : TaskScheduler S)
        (ids : List ℕ)
        → Good e.triggers_scheduler
        → AllOk Ok ts
        → lookup ℕ_discrete task_id e.tasks ≡ some st
        → update_each ops task_id ts e ≡ done (e', ids)
        → AllRun e' task_id st.defined_task ids ts
          × ((st' : ScheduledTask) × (lookup ℕ_discrete task_id e'.tasks ≡ some st')
              × (st'.defined_task ≡ st.defined_task))
    unfolding update_each member
    update_each-AllRun task_id [] st e e' ids good oks there h = (tt, (st, ground arith, refl))
    update_each-AllRun task_id (t ∷ ts) st e e' ids good (ok, oks) there h =
        let (r, rest, first, others, ids_are) = update_each_cons task_id t ts e e' ids h in
        let (clean, good') = update_trigger-no_error task_id t e r good ok first in
        let (same_id, now) = update_trigger-runs ops task_id t st e r.0 r.1 there (ground arith) in
        let (st', there', same) = update_trigger-task ops task_id t st e r.0 r.1 r.2 there first in
        let (all, more) = update_each-AllRun task_id ts st' r.0 e' rest good' oks there' others in
        let still =
          update_each-still task_id ts st' r.0 e' rest (trigger_id t) there' (rw same now) others in
        let ids_now : ids ≡ trigger_id t ∷ rest = ground arith in
        (
          subst₂ (λ d ks. AllRun e' task_id d ks (t ∷ ts)) same (sym ids_now)
              (
                (still, member_here (trigger_id t) rest),
                AllRun-cons e' task_id st'.defined_task (trigger_id t) rest ts all,
              ),
          (more.0, more.1, more.2 ∙ same),
        )
