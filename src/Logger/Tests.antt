-- ===== src/Logger/Tests.antt =====
-- A concrete logger, and the theorems at it.
use buffer_full_flush_once.Common.{
  ℕ, ◌≡◌, ◌<◌, refl, true, take, length, arith, none, some, List, [], ◌∷◌, inl, inr,
}
use buffer_full_flush_once.Common.Int.{pos}
use buffer_full_flush_once.Common.Bytes.{codes}
use buffer_full_flush_once.Fixtures.{plain, sink}
use buffer_full_flush_once.Level.{static, invalid_level, fatal_level}
use buffer_full_flush_once.Entry.{exits, write_then_noop}
use buffer_full_flush_once.Core.{nop}
use buffer_full_flush_once.Core.Checking.{action}
use buffer_full_flush_once.Logger.{Frame, Logger, Runtime, log_entry, format_frame, format_stack}
use buffer_full_flush_once.Logger.Ending.{log_entry-ending}
use buffer_full_flush_once.Logger.Stacks.{Callers, capture_pcs, grow, capture_pcs-whole}

abbrev frames : List Frame
frames =
    record { pc = 7; function = codes "main.f"; file = codes "main.go"; line = pos 3 }
    ∷ record { pc = 9; function = codes "main.main"; file = codes "main.go"; line = pos 8 }
    ∷ record { pc = 11; function = codes "runtime.main"; file = codes "proc.go"; line = pos 250 }
    ∷ []

abbrev runtime : Runtime
runtime = record {
  capture = λ skip full. record { count = 3; frames = frames };
  int_text = λ n. codes "1";
  caller_error_text = λ time. codes "no caller";
}

-- Its core is disabled at every level.
abbrev silent : Logger plain
silent = record {
  core = nop;
  development = true;
  add_caller = true;
  on_panic = none;
  on_fatal = some (action write_then_noop);
  name = codes "app";
  error_output = sink 0;
  add_stack = static invalid_level;
  caller_skip = pos 0;
  clock = λ s. (pos 0, s);
}

-- The frame after the first is written, the last one is not.
format_stack_of_frames :
    format_stack runtime frames ≡ codes "\nmain.f\n\tmain.go:1\nmain.main\n\tmain.go:1"
unfolding format_stack format_frame
format_stack_of_frames = refl

log_entry-ending_example :
    (log_entry plain runtime silent fatal_level (codes "bye") [] []).0 ≡ exits 1
log_entry-ending_example =
    log_entry-ending runtime silent fatal_level (codes "bye") [] [] (inl refl) (inr refl)

-- A stack of five program counters, of which two are skipped.
abbrev five : List ℕ
five = 1 ∷ 2 ∷ 3 ∷ 4 ∷ 5 ∷ []

abbrev five_callers : Callers
five_callers = record {
  callers = λ skip room. take room five;
  whole = λ skip. five;
  callers-take = λ skip room. refl;
}

-- From a storage of two, the second doubling has room for more than the stack.
captured_five : capture_pcs five_callers 5 (pos 0) true 2 ≡ (8, five)
unfolding capture_pcs grow
captured_five = refl

capture_pcs-whole_example :
    let (storage', pcs) = capture_pcs five_callers 5 (pos 0) true 2 in
    (pcs ≡ five) × (length pcs < storage')
capture_pcs-whole_example = capture_pcs-whole five_callers 5 (pos 0) 2 (omega arith) (omega arith)
