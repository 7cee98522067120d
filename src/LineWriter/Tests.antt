-- ===== src/LineWriter/Tests.antt =====
-- A concrete text, written in pieces.
use buffer_full_flush_once.Common.{◌≡◌, refl, false, none, some, [], ◌∷◌, ◌++◌}
use buffer_full_flush_once.Common.Int.{pos}
use buffer_full_flush_once.Common.Bytes.{codes}
use buffer_full_flush_once.Fixtures.{plain, sink}
use buffer_full_flush_once.Level.{static, invalid_level, info_level, panic_level}
use buffer_full_flush_once.Core.{io, core_enabled}
use buffer_full_flush_once.Entry.{returns, panics, action_on_write}
use buffer_full_flush_once.Logger.{
  Runtime, log_entry, write_if, check_log, finish_check, annotate, set_terminal, terminal_hook,
  terminal_hook_override,
}
use buffer_full_flush_once.Core.Checking.{check, add_core, write_checked, after_write, on_write}
use buffer_full_flush_once.LineWriter.{
  LineWriter, cut, log_line, write_line, write_loop, write_text,
}
use buffer_full_flush_once.LineWriter.Lines.{
  lines, log_complete, unlines, unlines-lines, write_text-lines, write_text-append,
}

abbrev runtime : Runtime
runtime = record {
  capture = λ skip full. record { count = 0; frames = [] };
  int_text = λ n. codes "1";
  caller_error_text = λ time. codes "no caller";
}

abbrev writer : LineWriter plain
writer = record {
  log = record {
    core = io (static info_level) [] (sink 2);
    development = false;
    add_caller = false;
    on_panic = none;
    on_fatal = none;
    name = [];
    error_output = sink 0;
    add_stack = static invalid_level;
    caller_skip = pos 0;
    clock = λ s. (pos 0, s);
  };
  level = info_level;
  buff = codes "a";
}

lines_of_text : lines (codes "bc\n\nde") (codes "a") ≡ (codes "abc" ∷ [] ∷ [], codes "de")
lines_of_text = refl

cut_text : cut (codes "bc\nde") ≡ some (codes "bc", codes "de")
unfolding cut
cut_text = refl

unlines-lines_example :
    unlines (codes "abc" ∷ [] ∷ []) ++ codes "de" ≡ codes "a" ++ codes "bc\n\nde"
unlines-lines_example = unlines-lines (codes "bc\n\nde") (codes "a")

-- A text of two lines at PanicLevel: the first line is logged, and the call panics.
panicking_text :
    (write_text plain runtime (record writer { level = panic_level }) (codes "b\nc\n") []).0
    ≡ panics (codes "ab")
unfolding write_text write_loop write_line cut log_line core_enabled log_entry write_if check_log
    finish_check check add_core write_checked annotate set_terminal terminal_hook after_write
    on_write terminal_hook_override action_on_write
panicking_text = refl

write_text-lines_example :
    let (o, buff, s) =
      log_complete (log_line plain runtime writer) (codes "a") (codes "d") (codes "abc" ∷ []) [] in
    write_text plain runtime writer (codes "bc\nd") [] ≡ (o, 4, record writer { buff = buff }, s)
unfolding core_enabled
write_text-lines_example = write_text-lines plain runtime writer (codes "bc\nd") [] refl

write_text-append_example :
    let (o, _, w, s) = write_text plain runtime writer (codes "bc\nd") [] in
    let second = write_text plain runtime w (codes "e\n") s in
    let whole = write_text plain runtime writer (codes "bc\nde\n") [] in
    (o ≡ returns) × (second.0 ≡ returns) × (second.2 ≡ whole.2) × (second.3 ≡ whole.3)
unfolding core_enabled write_text write_loop write_line cut log_line log_entry write_if check_log
    finish_check check add_core write_checked annotate set_terminal terminal_hook on_write
write_text-append_example =
    write_text-append plain runtime writer (codes "bc\nd") (codes "e\n") [] refl refl refl
