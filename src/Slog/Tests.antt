-- ===== src/Slog/Tests.antt =====
-- A handler whose attributes are texts.
use mathlib.Core.List.{flatten}
use buffer_full_flush_once.Common.{false, List, [], ◌∷◌, ◌++◌, ◌≡◌, refl}
use buffer_full_flush_once.Common.Int.{pos}
use buffer_full_flush_once.Common.Bytes.{Bytes, codes, is_empty}
use buffer_full_flush_once.Fixtures.{plain, sink}
use buffer_full_flush_once.Level.{static, info_level}
use buffer_full_flush_once.Core.{io}
use buffer_full_flush_once.Logger.{Runtime}
use buffer_full_flush_once.Pipeline.{with_each}
use buffer_full_flush_once.Slog.Handling.{Converting, Handler, convert_each, with_attrs, with_group}
use buffer_full_flush_once.Slog.Grouping.{
  HandlerCall, group_call, attrs_call, contexts, after_calls, events, grouped, after_calls-grouped,
}

-- A namespace is its name between brackets, and the empty text is skipped.
abbrev texts : Converting plain
texts = record {
  Attribute = Bytes;
  convert = λ a. a;
  is_skip = is_empty;
  namespace = λ g. codes "<" ++ g ++ codes ">";
  frame_of = λ pc. record { pc = 0; function = []; file = []; line = pos 0 };
}

abbrev no_runtime : Runtime
no_runtime = record {
  capture = λ skip full. record { count = 0; frames = [] };
  int_text = λ n. [];
  caller_error_text = λ n. [];
}

abbrev handler : Handler plain
handler = record {
  core = io (static info_level) [] (sink 1);
  name = [];
  add_caller = false;
  add_stack_at = pos 8;
  skipped_callers = pos 0;
  groups = [];
}

-- The group a gets an attribute, b gets only a skipped one.
abbrev calls : List (HandlerCall Bytes)
calls =
    group_call (codes "a")
    ∷ attrs_call ([] ∷ codes "x" ∷ [])
    ∷ group_call (codes "b")
    ∷ attrs_call ([] ∷ [])
    ∷ []

calls_in_groups :
    flatten (contexts plain texts no_runtime calls handler [])
    ≡ [] ∷ codes "<a>" ∷ codes "x" ∷ [] ∷ []
unfolding flatten with_attrs with_group convert_each
calls_in_groups = refl

after_calls-grouped_example :
    ((after_calls plain texts no_runtime calls handler []).core
      ≡ with_each handler.core (contexts plain texts no_runtime calls handler []))
    × (flatten (contexts plain texts no_runtime calls handler [])
          ++ (convert_each plain texts no_runtime
              (after_calls plain texts no_runtime calls handler []).groups
              false
              (codes "y" ∷ [])).0
        ≡ grouped plain texts no_runtime [] (events plain texts no_runtime calls (codes "y" ∷ [])))
after_calls-grouped_example =
    after_calls-grouped plain texts no_runtime calls (codes "y" ∷ []) handler []
