-- ===== src/Tests/Languages.antt =====
-- locales/main.go and test/test.go at concrete data.
use telephonist_agent.Base.{
  ℕ, ◌≡◌, refl, codes, [], ◌∷◌, ◌++◌, true, some, ite, Bytes-discrete, ℕ_discrete, inl, arith,
}
use telephonist_agent.Locales.{
  Texts, is_separator, one_line, is_region, source, detect_language, normalize_lang, language_part,
  file_of, source-region,
}
use telephonist_agent.LoadTest.{
  Test, Counters, begun, ended, add_running, add_total, wakes, drop_running, add_completed,
  add_successful, decide, spawn, moves, new_test, Reachable, initially, next,
}
use telephonist_agent.LoadTest.Counting.{Counts, Reachable-Counts}

abbrev texts : Texts ℕ
texts = record {
  to_upper = λ s. codes "RU";
  en = codes "en";
  ru = codes "ru";
  unmarshal = λ src. some 1;
}

source-region_example :
    (source texts (codes "ru" ++ b'_' ∷ codes "RU.UTF")
      ≡ ite (Bytes-discrete (codes "ru") (codes "RU")) (codes "ru") (codes "en"))
    × (source texts (codes "RU.UTF")
        ≡ ite (Bytes-discrete (codes "RU") (codes "RU")) (codes "ru") (codes "en"))
unfolding is_separator one_line is_region ℕ_discrete
source-region_example =
    source-region texts (codes "ru") (codes "RU.UTF") b'_' refl refl
      (refl, (refl, (refl, (refl, (refl, (refl, tt)))))) refl

-- The language of a usual environment is found by the variable, and its texts are English.
russian_locale : source texts (detect_language (λ name. some (codes "ru_RU.UTF-8"))) ≡ codes "en"
unfolding source normalize_lang language_part is_separator is_region one_line file_of
    detect_language Bytes-discrete ℕ_discrete
russian_locale = refl

-- One goroutine is started, and comes to its end while another one has just begun.
abbrev two_left : Test
two_left = record new_test { left_to_spawn = 2 }

abbrev counters : ℕ → ℕ → ℕ → ℕ → ℕ → Counters
counters running total completed successful failed = record {
  running = running;
  total = total;
  completed = completed;
  successful = successful;
  failed = failed;
}

abbrev last : Test
last = record {
  counters = counters 0 1 1 1 0;
  goroutines = begun ∷ ended true ∷ [];
  left_to_spawn = 0;
}

last-Reachable : Reachable last
last-Reachable =
    next
      (next
        (next
          (next
            (next
              (next
                (next
                  (next (next initially (decide 2 refl (inl (omega arith)) (omega arith)))
                    (spawn 1 refl))
                  (spawn 0 refl))
                (moves 1 refl add_running))
              (moves 1 refl add_total))
            (moves 1 refl (wakes true)))
          (moves 1 refl drop_running))
        (moves 1 refl add_completed))
      (moves 1 refl add_successful)

Reachable-Counts_example : Counts last
Reachable-Counts_example = Reachable-Counts last-Reachable
