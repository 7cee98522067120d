-- ===== src/Pipeline/Tests.antt =====
-- A core that writes JSON lines to a list of lines.
use buffer_full_flush_once.Common.{◌≡◌, false, ok, List, [], ◌∷◌, ◌++◌}
use buffer_full_flush_once.Common.Int.{pos}
use buffer_full_flush_once.Common.Bytes.{Bytes, codes}
use buffer_full_flush_once.Fixtures.{lists, sink}
use buffer_full_flush_once.Level.{static, info_level}
use buffer_full_flush_once.Entry.{Entry}
use buffer_full_flush_once.Core.{Core, io}
use buffer_full_flush_once.Core.Writing.{write_core, write_encoded}
use buffer_full_flush_once.Encoder.{int, string}
use buffer_full_flush_once.Encoder.Calls.{ObjectCalls, done, add, open_namespace, and_then}
use buffer_full_flush_once.Json.Tree.{print, object}
use buffer_full_flush_once.Json.Line.{fresh}
use buffer_full_flush_once.Json.Line.Entries.{line_members}
use buffer_full_flush_once.Json.Samples.{
  digits, digits-Tokens, two_bytes, no_text, production, production-SingleParts,
}
use buffer_full_flush_once.Pipeline.{
  Texts, json_platform, all_calls, calls_after, with_each, write_core-with_each,
}

abbrev no_texts : Texts lists
no_texts = record {
  increase_failure = λ l. 9 ∷ [];
  write_error = λ time e. codes "write error";
  reuse = λ time ent. codes "reuse";
}

abbrev hello : Entry
hello = record {
  level = info_level;
  time = pos 5;
  logger_name = [];
  message = codes "hi";
  caller = record { defined = false; pc = 0; file = []; line = pos 0; function = [] };
  stack = [];
}

-- Two calls of With, of which the second opens a namespace.
abbrev contexts : List (List (ObjectCalls digits))
contexts =
    (add (codes "a") (int (pos 1)) done ∷ [])
    ∷ (add (codes "b") (int (pos 2)) done ∷ open_namespace (codes "n") done ∷ [])
    ∷ []

abbrev fields : List (ObjectCalls digits)
fields = add (codes "c") (string (codes "x")) done ∷ []

abbrev core :
    Core (json_platform lists (List Bytes) no_texts no_text two_bytes digits false production)
core = io (static info_level) fresh (sink 2)

write_core-with_each_example :
    write_core
      {p = json_platform lists (List Bytes) no_texts no_text two_bytes digits false production}
      (with_each core contexts)
      hello
      fields
      []
    ≡ write_encoded
        (json_platform lists (List Bytes) no_texts no_text two_bytes digits false production)
        (sink 2)
        hello
        (ok (
          print two_bytes false (
            object (
              line_members no_text digits production hello
                (and_then (calls_after contexts) (all_calls fields))))
          ++ codes "\n"))
        []
write_core-with_each_example =
    write_core-with_each lists (List Bytes) no_texts no_text two_bytes digits false production
      (static info_level) (sink 2) contexts hello fields [] digits-Tokens production-SingleParts
