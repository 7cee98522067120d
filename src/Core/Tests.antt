-- ===== src/Core/Tests.antt =====
-- Concrete cores, and the theorems at them.
use buffer_full_flush_once.Common.{
  ◌≡◌, refl, true, false, none, some, List, [], ◌∷◌, ok, err, ◌↔◌, ◌⊎◌, ℕ, map,
}
use mathlib.Core.List.{flatten}
use buffer_full_flush_once.Common.Int.{pos}
use buffer_full_flush_once.Common.Bytes.{Bytes, codes}
use buffer_full_flush_once.Fixtures.{plain, sink, broken}
use buffer_full_flush_once.WriteSyncer.{write}
use buffer_full_flush_once.Level.{Level, level_of, static, info_level, error_level, fatal_level}
use buffer_full_flush_once.Entry.{Entry, action_on_write, panics, write_then_panic}
use buffer_full_flush_once.Core.{
  Platform, Sampling, Core, Cores, nop, io, multi, hooked, level_filter, nil, cons, core_enabled,
  core_level, new_increase_level,
}
use buffer_full_flush_once.Core.Writing.{write_core, write_encoded}
use buffer_full_flush_once.Core.Checking.{
  CheckedEntry, action, check, add_core, write_checked, report_error, run_before, on_write,
  write_each,
}
use buffer_full_flush_once.Core.Tee.{core_level-multi_disabled}
use buffer_full_flush_once.Core.Increasing.{IsSupported, Increases, new_increase_level_lem}
use buffer_full_flush_once.Sampler.{Counters, new_counters, bucket, counts_at}
use buffer_full_flush_once.Core.Sampled.{
  decisions_in, times_in, decision_on, decisions_in-counts_at,
}
use buffer_full_flush_once.Core.Enabling.{check-takers, check-enabled, check-hooked_disabled}

abbrev greeting : Entry
greeting = record {
  level = info_level;
  time = pos 0;
  logger_name = [];
  message = codes "hi";
  caller = record { defined = false; pc = 0; file = []; line = pos 0; function = [] };
  stack = [];
}

abbrev info_core : Core plain
info_core = io (static info_level) (codes "i:") (sink 2)

abbrev error_core : Core plain
error_core = io (static error_level) (codes "e:") (sink 2)

abbrev broken_core : Core plain
broken_core = io (static info_level) [] broken

abbrev both : Cores plain
both = cons info_core (cons error_core nil)

abbrev checked : CheckedEntry plain
checked = record {
  entry = greeting;
  error_output = some (sink 5);
  dirty = false;
  after = some (action write_then_panic);
  cores = info_core ∷ error_core ∷ [];
  before = (λ ent fields. (ent, codes "!" ∷ fields)) ∷ [];
}

-- The entry reaches both destinations, and then the action panics.
write_checked_panics :
    write_checked plain checked [] []
    ≡ (panics (codes "hi"), record checked { dirty = true }, codes "e:hi!" ∷ codes "i:hi!" ∷ [])
unfolding write_checked on_write action_on_write report_error write_each write_core write_encoded
    write run_before flatten
write_checked_panics = refl

core_level-multi_disabled_example :
    core_level {p = plain} (multi (cons nop (cons nop nil))) [] ≡ fatal_level
unfolding core_level level_of
core_level-multi_disabled_example =
    core_level-multi_disabled plain (cons nop (cons nop nil)) [] (refl, (refl, tt))

new_increase_level_lem_example :
    ((new_increase_level error_core (static info_level) []
        ≡ ok (level_filter error_core (static info_level)))
      × ((l : Level)
          → IsSupported l
          → (static {S = List Bytes} info_level).enabled l [] ≡ true
          → core_enabled error_core l [] ≡ true))
    ⊎ ((l : Level) × (new_increase_level error_core (static info_level) [] ≡ err (9 ∷ []))
        × IsSupported l
        × Increases plain error_core (static info_level) [] l)
new_increase_level_lem_example = new_increase_level_lem plain error_core (static info_level) []

check-takers_example :
    check (multi both) greeting none [] ≡ (add_core {p = plain} none greeting info_core, [])
check-takers_example = check-takers (multi both) greeting none [] (tt, (tt, tt))

abbrev filtered_core : Core plain
filtered_core = level_filter info_core (static error_level)

check-enabled_example :
    ((check filtered_core greeting none []).0 ≡ none)
    ↔ (core_enabled filtered_core info_level [] ≡ false)
unfolding core_enabled
check-enabled_example = check-enabled filtered_core greeting [] ((λ on. refl), tt)

check-hooked_disabled_example :
    (check (hooked error_core []) greeting none [] ≡ (none, []))
    × (check (hooked error_core []) greeting (some checked) []
        ≡ (add_core (some checked) greeting (hooked error_core []), []))
unfolding core_enabled
check-hooked_disabled_example = check-hooked_disabled error_core [] greeting checked [] tt refl

-- The state is the table of the counters.
abbrev counting : Platform
counting = record plain { State = Counters }

abbrev first_only : Sampling counting
first_only = record {
  counts = record { load = λ s. s; store = λ cs s. cs };
  tick = pos 10;
  first = 1;
  thereafter = 0;
  hook = λ ent decision s. s;
}

-- Greetings, with another message between them.
abbrev mixed : List Entry
mixed = greeting ∷ record greeting { message = codes "ho" } ∷ greeting ∷ []

abbrev hash : ℕ
hash = bucket (codes "hi")

decisions_in-counts_at_example :
    decisions_in counting first_only 1 hash mixed new_counters
    ≡ map
        (decision_on counting first_only)
        (counts_at (times_in 1 hash mixed) (pos 10) (new_counters 1 hash))
decisions_in-counts_at_example =
    decisions_in-counts_at counting first_only (record { load-store = λ a s. refl })
      (λ ent d s. refl) 1 hash mixed new_counters
