-- ===== src/Sugar/Tests.antt =====
-- Concrete arguments.
use mathlib.Core.List.{flatten}
use buffer_full_flush_once.WriteSyncer.{write}
use buffer_full_flush_once.Core.Writing.{write_core, write_encoded}
use buffer_full_flush_once.Core.Checking.{
  check, add_core, write_checked, on_write, report_error, write_each, run_before,
}
use buffer_full_flush_once.Common.{ℕ, ◌≡◌, refl, ap, true, false, none, List, [], ◌∷◌}
use buffer_full_flush_once.Common.Bytes.{Bytes, codes}
use buffer_full_flush_once.Common.Int.{pos}
use buffer_full_flush_once.Fixtures.{plain, sink}
use buffer_full_flush_once.Level.{static, invalid_level, warn_level}
use buffer_full_flush_once.Entry.{returns}
use buffer_full_flush_once.Core.{core_enabled, io}
use buffer_full_flush_once.Logger.{
  annotate, set_terminal, terminal_hook, Runtime, log_entry, check_log, finish_check, write_if,
}
use buffer_full_flush_once.Sugar.Logging.{
  Sugaring, SugaredLogger, structured, sugar_log, log_message, write_sweetened, sweetened,
  log_reports, sugar_log-log_entry,
}
use buffer_full_flush_once.Sugar.{
  get_message, Arg, field, failure, text, value, sweeten_fields, sweeten_from, multiple_err,
  odd_number_err, non_string_key_err,
}

-- A field is its key, an error a number, another value a number.
abbrev keep_key : Bytes → Arg Bytes ℕ ℕ → Bytes
keep_key key val = key

abbrev error_key : ℕ → Bytes
error_key e = codes "error"

abbrev good : List (Arg Bytes ℕ ℕ)
good = field (codes "f") ∷ text (codes "k") ∷ value 3 ∷ failure 7 ∷ []

abbrev bad : List (Arg Bytes ℕ ℕ)
bad = failure 1 ∷ failure 2 ∷ value 3 ∷ text (codes "v") ∷ text (codes "k") ∷ []

-- The second error, the dangling key, and the key that is no string, in this order.
sweeten_fields_of_bad : sweeten_fields error_key keep_key bad ≡ (
  codes "error" ∷ [],
  multiple_err 2
      ∷ odd_number_err (text (codes "k"))
      ∷ non_string_key_err (record { position = 2; key = value 3; paired = text (codes "v") } ∷ [])
      ∷ [],
)
unfolding sweeten_fields sweeten_from
sweeten_fields_of_bad = refl

sweeten_fields_of_good :
    sweeten_fields error_key keep_key good ≡ (codes "f" ∷ codes "k" ∷ codes "error" ∷ [], [])
unfolding sweeten_fields sweeten_from
sweeten_fields_of_good = refl

abbrev keys : Sugaring plain
keys = record {
  E = ℕ;
  V = ℕ;
  error_field = error_key;
  any = keep_key;
  invalid_field = λ qs. codes "invalid";
  sprintf = λ template args. template;
  sprint = λ args. codes "printed";
  sprintln = λ args. codes "printed\n";
}

abbrev runtime : Runtime
runtime = record {
  capture = λ skip full. record { count = 0; frames = [] };
  int_text = λ n. codes "1";
  caller_error_text = λ time. codes "no caller";
}

abbrev sugared : SugaredLogger plain
sugared = record {
  base = record {
    core = io (static warn_level) [] (sink 2);
    development = true;
    add_caller = false;
    on_panic = none;
    on_fatal = none;
    name = [];
    error_output = sink 0;
    add_stack = static invalid_level;
    caller_skip = pos 2;
    clock = λ s. (pos 0, s);
  };
}

-- The encoder writes the message and then the fields; the arguments are a field, a pair and an error.
sugared_line :
    sugar_log plain keys runtime sugared warn_level (structured (codes "m") good) []
    ≡ (returns, codes "mfkerror" ∷ [])
unfolding sugar_log log_message check_log finish_check write_sweetened sweetened log_reports
    write_if sweeten_from core_enabled check add_core write_checked annotate set_terminal
    terminal_hook on_write report_error write_each write_core write_encoded write run_before
    get_message flatten
sugared_line = refl

sugar_log-log_entry_example :
    sugar_log plain keys runtime sugared warn_level (structured (codes "m") good) []
    ≡ log_entry plain runtime sugared.base warn_level
        (codes "m")
        (sweeten_fields error_key keep_key good).0
        []
sugar_log-log_entry_example =
    sugar_log-log_entry plain keys runtime sugared warn_level (structured (codes "m") good) []
      (ap (λ r. r.1) sweeten_fields_of_good)
