-- ===== src/Sampler/Tests.antt =====
-- Concrete runs of the sampler's counters.
use buffer_full_flush_once.Common.{◌≡◌, refl, arith, List, [], ◌∷◌, get_elem?, ℕ, ◌≤◌, some}
use buffer_full_flush_once.Common.Int.{ℤ, pos}
use buffer_full_flush_once.Common.Bytes.{codes}
use buffer_full_flush_once.Sampler.{fnv32a, counts_at, inc_check_reset, kept, new_counters}
use buffer_full_flush_once.Sampler.Window.{kept-counts_at}
use buffer_full_flush_once.Sampler.Race.System.{ended, advance, Race, turn, run, race_of, finished}
use buffer_full_flush_once.Sampler.Race.Early.{run-le_finished}
use buffer_full_flush_once.Sampler.Race.Alone.{run-returned}

-- The table of sampler_test.go and of hash/fnv.
fnv32a_foobar : fnv32a (codes "foobar") ≡ 3214735720
unfolding fnv32a
fnv32a_foobar = refl

abbrev times : List ℤ
times = pos 101 ∷ pos 102 ∷ pos 103 ∷ pos 104 ∷ pos 105 ∷ pos 109 ∷ []

counts_at-times :
    counts_at (pos 100 ∷ times) (pos 10) (new_counters 0 0) ≡ 1 ∷ 2 ∷ 3 ∷ 4 ∷ 5 ∷ 6 ∷ 7 ∷ []
unfolding counts_at inc_check_reset
counts_at-times = refl

-- Two entries at first, then every third: 1, 2, 5.
kept-counts_at_example : kept 2 3 (counts_at (pos 100 ∷ times) (pos 10) (new_counters 0 0)) ≡ 3
kept-counts_at_example =
    kept-counts_at 2 3 (pos 100) times (pos 10) (new_counters 0 0) refl
      (refl, (refl, (refl, (refl, (refl, (refl, tt)))))) (omega arith)

-- Three calls past the window: the second overwrites a count of the first, and the third counts on.
abbrev racing : List ℕ
racing = 0 ∷ 1 ∷ 0 ∷ 0 ∷ 2 ∷ 2 ∷ 1 ∷ 1 ∷ 1 ∷ []

abbrev racers : List ℤ
racers = pos 100 ∷ pos 101 ∷ pos 102 ∷ []

abbrev raced : Race
raced = run (pos 10) (race_of (new_counters 0 0) racers) racing

raced_places :
    raced.calls
    ≡ record { tn = pos 100; place = ended 1 }
      ∷ record { tn = pos 101; place = ended 2 }
      ∷ record { tn = pos 102; place = ended 2 }
      ∷ []
unfolding run turn advance
raced_places = refl

second_returned : get_elem? raced.calls 1 ≡ some (record { tn = pos 101; place = ended 2 })
unfolding run turn advance
second_returned = refl

run-le_finished_example : 2 ≤ finished raced.calls
run-le_finished_example =
    run-le_finished (new_counters 0 0) racers (pos 10) racing 1 (refl, (refl, (refl, tt)))
      second_returned

run-returned_example :
    (n : ℕ) × (get_elem? raced.calls 1 ≡ some (record { tn = pos 101; place = ended n }))
run-returned_example =
    run-returned (new_counters 0 0) racers (pos 10) racing 1 (pos 101) refl (omega arith)
