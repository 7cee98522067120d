-- ===== src/Entry/Tests.antt =====
-- A concrete caller.
use buffer_full_flush_once.Common.{◌≡◌, refl, true, []}
use buffer_full_flush_once.Common.Int.{pos}
use buffer_full_flush_once.Common.Bytes.{codes}
use buffer_full_flush_once.Entry.{EntryCaller}
use buffer_full_flush_once.Entry.Paths.{
  full_path, after_penultimate, after_last, file_line, trimmed_path,
}

abbrev caller : EntryCaller
caller = record {
  defined = true;
  pc = 100;
  file = codes "/path/to/foo.go";
  line = pos 42;
  function = [];
}

full_path_of_caller : full_path (λ n. codes "42") caller ≡ codes "/path/to/foo.go:42"
unfolding full_path file_line
full_path_of_caller = refl

trimmed_path_of_caller : trimmed_path (λ n. codes "42") caller ≡ codes "to/foo.go:42"
unfolding trimmed_path after_last after_penultimate file_line
trimmed_path_of_caller = refl
