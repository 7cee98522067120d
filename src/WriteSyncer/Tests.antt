-- ===== src/WriteSyncer/Tests.antt =====
-- Runs of the combined destinations, and the theorems at concrete inputs.
use buffer_full_flush_once.Common.{ℕ, ◌≡◌, refl, some, List, [], ◌∷◌, arith}
use buffer_full_flush_once.Common.Bytes.{Bytes}
use buffer_full_flush_once.Fixtures.{lists, sink, broken}
use buffer_full_flush_once.WriteSyncer.{WriteSyncers, nil, cons, multi, count_written, lock, write}
use buffer_full_flush_once.WriteSyncer.Multi.{IsLeastOf, write-multi_zero_forgotten}

abbrev both : WriteSyncers (List Bytes) (List ℕ)
both = cons broken (cons (lock (sink 3)) nil)

abbrev three : WriteSyncers (List Bytes) (List ℕ)
three = cons (sink 3) (cons (sink 2) (cons (sink 3) nil))

after_failure : write lists (multi both) (7 ∷ []) [] ≡ (3, some (1 ∷ []), (7 ∷ []) ∷ [])
unfolding write lock count_written
after_failure = refl

write-multi_zero_forgotten_example :
    IsLeastOf
      (write lists
        (multi (cons (sink 3) (cons broken (cons (sink 5) (cons (sink 4) nil)))))
        (7 ∷ [])
        []).0
      (5 ∷ 4 ∷ [])
unfolding write
write-multi_zero_forgotten_example =
    write-multi_zero_forgotten lists
      (cons (sink 3) (cons broken (cons (sink 5) (cons (sink 4) nil)))) (7 ∷ []) [] (3 ∷ [])
      (4 ∷ []) 5 (omega arith) (omega arith, tt) refl
