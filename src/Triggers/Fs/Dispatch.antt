-- ===== src/Triggers/Fs/Dispatch.antt =====
-- taskscheduler/trigger_scheduler.go: which triggers of the file scheduler an event runs.
use mathlib.Core.Path.{subst, sym}
use mathlib.Core.List.{
  Mem-prop, mem-append_left, mem-append_right, mem-append, mem-cons_self, mem-cons_of_mem, mem-cons,
  not-mem-nil,
}
use mathlib.Core.Logic.Or
use mathlib.Core.Logic.{∥∥₁_map, ∥∥₁_elim, ◌↔◌}
use telephonist_agent.Base.{
  ℕ, ◌≡◌, refl, ◌≢◌, Bytes, [], ◌∷◌, true, Option, none, some, Map, Mem, lookup, insert, delete,
  Distinct, lookup-insert, lookup-delete, Option-cases, Bytes-discrete, ℕ_discrete, arith, inl, inr,
  Bool-cases,
}
use telephonist_agent.Task.{TaskTrigger}
use telephonist_agent.Triggers.{TriggeredEvent}
use telephonist_agent.Triggers.Fs.Paths.{matches_path}
use telephonist_agent.Triggers.Fs.{
  FsEvent, FsTriggersScheduler, calls_for, calls_under, meta_of, dispatch_event,
}

-- The trigger that a path runs under an identifier.
unfoldable pub watched : Map Bytes (Map ℕ TaskTrigger) → Bytes → ℕ → Option TaskTrigger
watched m path id = elim (lookup Bytes-discrete path m) [
  | none ↦ none
  | some pt ↦ lookup ℕ_discrete id pt
]

mem-calls_for :
    (meta : Map Bytes Bytes) (id : ℕ) (t : TaskTrigger) (m : Map ℕ TaskTrigger)
    → lookup ℕ_discrete id m ≡ some t
    → Mem (record { trigger_id = id; trigger = t; params = meta }) (calls_for meta m)
unfolding lookup calls_for
mem-calls_for meta id t [] h = absurd (ground arith)
mem-calls_for meta id t ((i, u) ∷ m) h = elim (ℕ_discrete id i) [
  | yes p ↦ rw (p) (subst_head (ground arith))
  | no p ↦ mem-cons_of_mem _ (mem-calls_for meta id t m (ground arith))
]
  where
    subst_head :
        t ≡ u
        → Mem (record { trigger_id = i; trigger = t; params = meta }) (calls_for meta ((i, u) ∷ m))
    subst_head q = rw q mem-cons_self

mem-calls_under :
    (path root : Bytes) (meta : Map Bytes Bytes) (id : ℕ) (t : TaskTrigger)
    (m : Map Bytes (Map ℕ TaskTrigger))
    → watched m root id ≡ some t
    → matches_path root path ≡ true
    → Mem (record { trigger_id = id; trigger = t; params = meta }) (calls_under path meta m)
unfolding lookup calls_under watched
mem-calls_under path root meta id t [] h p = absurd (ground arith)
mem-calls_under path root meta id t ((r, ts) ∷ m) h p = elim (Bytes-discrete root r) [
  | yes q ↦
      let e : matches_path r path ≡ true = ground arith in
      rw (e, calls_under) (mem-append_left _ (mem-calls_for meta id t ts (ground arith)))
  | no q ↦
      let rest = mem-calls_under path root meta id t m (ground arith) p in
      elim (Bool-cases (matches_path r path)) [
        | inl e ↦ rw (e, calls_under) (mem-append_right _ rest)
        | inr e ↦ rw (e, calls_under) rest
      ]
]

-- A table of paths as Go's maps of maps are: no path and no identifier twice.
abbrev pub IsTable : Map Bytes (Map ℕ TaskTrigger) → Type 0
IsTable [] = Unit {0}
IsTable (e ∷ m) =
    (lookup Bytes-discrete e.0 m ≡ none) × Distinct ℕ_discrete e.1 × (e.1 ≢ []) × IsTable m

pub insert-IsTable :
    (path : Bytes) (pt : Map ℕ TaskTrigger) (m : Map Bytes (Map ℕ TaskTrigger))
    → IsTable m
    → Distinct ℕ_discrete pt
    → pt ≢ []
    → IsTable (insert Bytes-discrete path pt m)
unfolding insert lookup
insert-IsTable path pt [] v d n = (refl, d, n, tt)
insert-IsTable path pt (e ∷ m) v d n =
    ground (arith, lookup-insert Bytes-discrete path e.0 pt m, insert-IsTable path pt m v.3 d n)

pub insert-IsTable_one :
    (path : Bytes) (id : ℕ) (t : TaskTrigger) (m : Map Bytes (Map ℕ TaskTrigger))
    → IsTable m
    → IsTable (insert Bytes-discrete path ((id, t) ∷ []) m)
unfolding lookup
insert-IsTable_one path id t m v = insert-IsTable path ((id, t) ∷ []) m v (refl, tt) (λ e. cc)

pub delete-IsTable :
    (path : Bytes) (m : Map Bytes (Map ℕ TaskTrigger))
    → IsTable m
    → IsTable (delete Bytes-discrete path m)
unfolding delete
delete-IsTable path [] v = tt
delete-IsTable path (e ∷ m) v =
    ground (arith, lookup-delete Bytes-discrete path e.0 m, delete-IsTable path m v.3)

pub IsTable-lookup :
    (path : Bytes) (pt : Map ℕ TaskTrigger) (m : Map Bytes (Map ℕ TaskTrigger))
    → IsTable m
    → lookup Bytes-discrete path m ≡ some pt
    → Distinct ℕ_discrete pt × (pt ≢ [])
unfolding lookup
IsTable-lookup path pt [] v h = cc
IsTable-lookup path pt (e ∷ m) v h = elim (Bytes-discrete path e.0) [
  | yes q ↦ let same : e.1 ≡ pt = ground arith in rw (← same) (v.1, v.2)
  | no q ↦ IsTable-lookup path pt m v.3 (ground arith)
]

-- What one path or all of them give: the identifier, the trigger and the parameters of a call.
abbrev Runs : Map Bytes Bytes → Map ℕ TaskTrigger → TriggeredEvent → Type 0
Runs meta m r = (lookup ℕ_discrete r.trigger_id m ≡ some r.trigger) × (r.params ≡ meta)

calls_for_sound :
    (meta : Map Bytes Bytes) (m : Map ℕ TaskTrigger) (r : TriggeredEvent)
    → Distinct ℕ_discrete m
    → Mem r (calls_for meta m)
    → Runs meta m r
unfolding lookup calls_for
calls_for_sound meta [] r d h = absurd (not-mem-nil h)
calls_for_sound meta ((i, t) ∷ m) r d h =
    Or.elim (hlevel) (mem-cons.0 h) (λ e. ground arith)
      (λ k. ground (arith, calls_for_sound meta m r d.1 k))

-- The paths under which a call can come about.
abbrev pub RunsUnder :
    Bytes → Map Bytes Bytes → Map Bytes (Map ℕ TaskTrigger) → TriggeredEvent → Bytes → Type 0
RunsUnder path meta m r root =
    (matches_path root path ≡ true)
    × (watched m root r.trigger_id ≡ some r.trigger)
    × (r.params ≡ meta)

RunsUnder-cons :
    (path r_path : Bytes) (meta : Map Bytes Bytes) (pt : Map ℕ TaskTrigger)
    (m : Map Bytes (Map ℕ TaskTrigger)) (r : TriggeredEvent) (root : Bytes)
    → lookup Bytes-discrete r_path m ≡ none
    → RunsUnder path meta m r root
    → RunsUnder path meta ((r_path, pt) ∷ m) r root
unfolding watched lookup
RunsUnder-cons path r_path meta pt m r root absent u = ground arith

RunsUnder-here :
    (path root : Bytes) (meta : Map Bytes Bytes) (pt : Map ℕ TaskTrigger)
    (m : Map Bytes (Map ℕ TaskTrigger)) (r : TriggeredEvent)
    → Distinct ℕ_discrete pt
    → matches_path root path ≡ true
    → Mem r (calls_for meta pt)
    → RunsUnder path meta ((root, pt) ∷ m) r root
unfolding watched lookup
RunsUnder-here path root meta pt m r d e k = ground (arith, calls_for_sound meta pt r d k)

calls_under_sound :
    (path : Bytes) (meta : Map Bytes Bytes) (m : Map Bytes (Map ℕ TaskTrigger)) (r : TriggeredEvent)
    → IsTable m
    → Mem r (calls_under path meta m)
    → ∥ ((root : Bytes) × RunsUnder path meta m r root) ∥₁
unfolding calls_under
calls_under_sound path meta [] r v h = absurd (not-mem-nil h)
calls_under_sound path meta ((root, pt) ∷ m) r v h =
    let more : Mem r (calls_under path meta m)
        → ∥ ((root' : Bytes) × RunsUnder path meta ((root, pt) ∷ m) r root') ∥₁ =
      λ k.
        ∥∥₁_map (calls_under_sound path meta m r v.3 k)
          (λ u. (u.0, RunsUnder-cons path root meta pt m r u.0 v.0 u.1)) in
    elim (Bool-cases (matches_path root path)) [
      | inl e ↦
          Or.elim squash₁ (mem-append.0 (rw (e, calls_under) at h))
            (λ k. ∣ (root, RunsUnder-here path root meta pt m r v.1 e k) ∣₁) more
      | inr e ↦ more (rw (e, calls_under) at h)
    ]

called :
    (path root : Bytes) (meta : Map Bytes Bytes) (m : Map Bytes (Map ℕ TaskTrigger))
    (r : TriggeredEvent)
    → RunsUnder path meta m r root
    → Mem r (calls_under path meta m)
called path root meta m r u =
    subst (λ p. Mem (record r { params = p }) (calls_under path meta m)) (sym u.2)
      (mem-calls_under path root meta r.trigger_id r.trigger m u.1 u.0)

module _ {W : Type 0} where
  -- The callback is called with an identifier, a trigger and parameters just when it is set, the
  -- event's name has an absolute path, some watched path is a prefix of that and runs the trigger
  -- under the identifier, and the parameters are the path and the operation. The table is to be
  -- one that Go's maps can hold.
  pub dispatch_event_iff :
      (abs : Bytes → Option Bytes) (event : FsEvent) (e : FsTriggersScheduler W)
      (r : TriggeredEvent)
      → IsTable e.path_triggers
      → Mem r (dispatch_event abs event e)
        ↔ ∥ (
            (path : Bytes) × (root : Bytes) × (e.has_callback ≡ true)
            × (abs event.name ≡ some path)
            × RunsUnder path (meta_of path event) e.path_triggers r root) ∥₁
  unfolding dispatch_event
  dispatch_event_iff abs event e r v = (
    λ h. elim (Bool-cases e.has_callback) [
      | inr off ↦ absurd (not-mem-nil (rw (off, dispatch_event) at h))
      | inl set ↦ elim (Option-cases (abs event.name)) [
        | inl relative ↦ absurd (not-mem-nil (rw (set, relative, dispatch_event) at h))
        | inr (path, a) ↦
            ∥∥₁_map
              (calls_under_sound path (meta_of path event) e.path_triggers r v
                (rw (set, a, dispatch_event) at h))
              (λ u. (path, u.0, set, a, u.1))
      ]
    ],
    λ h. ∥∥₁_elim h Mem-prop (λ x.
        let (path, root, set, a, u) = x in
        rw (set, a, dispatch_event) (called path root (meta_of path event) e.path_triggers r u)),
  )
