-- ===== src/LoadTest/Counting.antt =====
-- test/test.go: what the counters count.
use telephonist_agent.Base.{
  ℕ, zero, suc, ◌+◌, ◌%◌, ◌^◌, ◌<◌, ◌≡◌, List, [], ◌∷◌, Bool, true, false, none, some, length,
  get_elem?, set, arith,
}
use telephonist_agent.LoadTest.{
  Counters, Goroutine, begun, counted, sleeping, slept, left, complete, ended, Move, add_running,
  add_total, wakes, drop_running, add_completed, add_successful, add_failed, Test, decide, spawn,
  moves, Reachable, initially, next, Shell, sleep, judged,
}

-- How many of the goroutines are such that the weight is 1.
abbrev pub sum : (Goroutine → ℕ) → List Goroutine → ℕ
sum f [] = 0
sum f (g ∷ gs) = f g + sum f gs

sum-set :
    (f : Goroutine → ℕ) (gs : List Goroutine) (i : ℕ) (g g' : Goroutine)
    → get_elem? gs i ≡ some g
    → sum f (set gs i g') + f g ≡ sum f gs + f g'
sum-set f [] i g g' h = cc
sum-set f (x ∷ gs) zero g g' h = ground arith
sum-set f (x ∷ gs) (suc i) g g' h = ground (arith, sum-set f gs i g g' h)

abbrev pub is_running : Goroutine → ℕ
is_running counted = 1
is_running sleeping = 1
is_running (slept ok) = 1
is_running _ = 0

abbrev pub is_counted : Goroutine → ℕ
is_counted begun = 0
is_counted counted = 0
is_counted _ = 1

abbrev pub is_completed : Goroutine → ℕ
is_completed (complete ok) = 1
is_completed (ended ok) = 1
is_completed _ = 0

abbrev pub is_ended : Bool → Goroutine → ℕ
is_ended true (ended true) = 1
is_ended false (ended false) = 1
is_ended _ _ = 0

-- Each counter is the number of goroutines that have passed its additions, modulo 2 ^ 64.
pub record Counts (t : Test) : Type 0 where
  pub running : t.counters.running ≡ sum is_running t.goroutines % 2 ^ 64
  pub total : t.counters.total ≡ sum is_counted t.goroutines % 2 ^ 64
  pub completed : t.counters.completed ≡ sum is_completed t.goroutines % 2 ^ 64
  pub successful : t.counters.successful ≡ sum (is_ended true) t.goroutines % 2 ^ 64
  pub failed : t.counters.failed ≡ sum (is_ended false) t.goroutines % 2 ^ 64

-- What a move adds to a counter is what it adds to the weight of its goroutine.
record Tracks (f : Goroutine → ℕ) (n n' : ℕ) (g g' : Goroutine) : Type 0 where
  tracked : (n' + f g) % 2 ^ 64 ≡ (n + f g') % 2 ^ 64
  small : n < 2 ^ 64 → n' < 2 ^ 64

tracked_count :
    (f : Goroutine → ℕ) (gs : List Goroutine) (i n n' : ℕ) (g g' : Goroutine)
    → get_elem? gs i ≡ some g
    → Tracks f n n' g g'
    → n ≡ sum f gs % 2 ^ 64
    → n' ≡ sum f (set gs i g') % 2 ^ 64
tracked_count f gs i n n' g g' there t h =
    omega (arith, sum-set f gs i g g' there, t.tracked, t.small (omega arith))

Move-Tracks :
    {c c' : Counters} {g g' : Goroutine}
    → Move c g c' g'
    → Tracks is_running c.running c'.running g g'
      × Tracks is_counted c.total c'.total g g'
      × Tracks is_completed c.completed c'.completed g g'
      × Tracks (is_ended true) c.successful c'.successful g g'
      × Tracks (is_ended false) c.failed c'.failed g g'
Move-Tracks add_running = omega arith
Move-Tracks add_total = omega arith
Move-Tracks (wakes ok) = omega arith
Move-Tracks drop_running = omega arith
Move-Tracks add_completed = omega arith
Move-Tracks add_successful = omega arith
Move-Tracks add_failed = omega arith

-- In every interleaving of the goroutines, with any numbers of new ones, each counter is the number of
-- goroutines that have made its additions, modulo 2 ^ 64: `running` of those between its two,
-- `total` and `completed` of those behind theirs, and `successful` and `failed` of those that have ended
-- without and with an error of `sleep`.
pub Reachable-Counts : {t : Test} → Reachable t → Counts t
Reachable-Counts initially = omega arith
Reachable-Counts (next r (decide count none_left below few)) =
    let c = Reachable-Counts r in ground arith
Reachable-Counts (next r (spawn count some_left)) = let c = Reachable-Counts r in ground arith
Reachable-Counts (next {t} r (moves i {g} {g'} {c} there m)) =
    let counts = Reachable-Counts r in
    let (running, total, completed, successful, failed) = Move-Tracks m in
    let gs = t.goroutines in
    record {
      running = tracked_count is_running gs i _ _ g g' there running counts.running;
      total = tracked_count is_counted gs i _ _ g g' there total counts.total;
      completed = tracked_count is_completed gs i _ _ g g' there completed counts.completed;
      successful = tracked_count (is_ended true) gs i _ _ g g' there successful counts.successful;
      failed = tracked_count (is_ended false) gs i _ _ g g' there failed counts.failed;
    }

abbrev pub AllEnded : List Goroutine → Type 0
AllEnded [] = Unit {0}
AllEnded (g ∷ gs) = (is_ended true g + is_ended false g ≡ 1) × AllEnded gs

ended_sums :
    (gs : List Goroutine)
    → AllEnded gs
    → (sum is_running gs ≡ 0)
      × (sum is_counted gs ≡ length gs)
      × (sum is_completed gs ≡ length gs)
      × (sum (is_ended true) gs + sum (is_ended false) gs ≡ length gs)
ended_sums [] all = omega arith
ended_sums (begun ∷ gs) (one, all) = absurd (omega arith)
ended_sums (counted ∷ gs) (one, all) = absurd (omega arith)
ended_sums (sleeping ∷ gs) (one, all) = absurd (omega arith)
ended_sums (slept ok ∷ gs) (one, all) = absurd (omega arith)
ended_sums (left ok ∷ gs) (one, all) = absurd (omega arith)
ended_sums (complete ok ∷ gs) (one, all) = absurd (omega arith)
ended_sums (ended true ∷ gs) (one, all) = omega (arith, ended_sums gs all)
ended_sums (ended false ∷ gs) (one, all) = omega (arith, ended_sums gs all)

-- In every interleaving, when all goroutines have ended, none counts as running, and the completed ones,
-- like the successful and the failed ones together, are all of them, modulo 2 ^ 64.
pub all_ended :
    {t : Test}
    → Reachable t
    → AllEnded t.goroutines
    → (t.counters.running ≡ 0)
      × (t.counters.total ≡ length t.goroutines % 2 ^ 64)
      × (t.counters.completed ≡ t.counters.total)
      × ((t.counters.successful + t.counters.failed) % 2 ^ 64 ≡ t.counters.total)
all_ended {t} r all =
    let counts = Reachable-Counts r in
    omega (
      arith,
      ended_sums t.goroutines all,
      counts.running,
      counts.total,
      counts.completed,
      counts.successful,
      counts.failed,
    )

-- When the pipes are made, `sleep` returns the error of `Run`, whatever the shell wrote.
pub sleep_ignores_output :
    (sh : Shell) → sh.stderr_error ≡ none → sh.stdout_error ≡ none → sleep sh ≡ sh.run_error
unfolding sleep judged
sleep_ignores_output sh err out = ground arith
