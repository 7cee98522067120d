-- ===== src/Console/Tests.antt =====
-- A concrete console line.
use buffer_full_flush_once.Common.{◌≡◌, refl, true, false, [], ◌++◌}
use buffer_full_flush_once.Common.Int.{pos}
use buffer_full_flush_once.Common.Bytes.{Bytes, codes}
use buffer_full_flush_once.Level.{info_level}
use buffer_full_flush_once.Entry.{Entry}
use buffer_full_flush_once.Encoder.{Prim, int, string}
use buffer_full_flush_once.Encoder.Calls.{ObjectCalls, done, add, open_namespace, and_then}
use buffer_full_flush_once.Encoder.Config.{
  full_name_encoder, lowercase_level_encoder, epoch_nanos_time_encoder,
}
use buffer_full_flush_once.Level.Text
use buffer_full_flush_once.Json.{
  add_calls, add_element_separator, add_key, append_prim, append_quoted, append_raw, braces,
  close_open_namespaces, last_byte, quoted,
}
use buffer_full_flush_once.Json.Escape.{append_from, safe_append}
use buffer_full_flush_once.Json.Line.{fresh}
use buffer_full_flush_once.Json.Tree.{members_of}
use buffer_full_flush_once.Json.Samples.{
  digits, digits-Tokens, two_bytes, production, production-SingleParts,
}
use buffer_full_flush_once.Console.{
  add_separator, write_others, write_elements, elements, add_message, add_context, add_stack_text,
  encode_console,
}
use buffer_full_flush_once.Console.Context.{context_object, encode_console-print}

abbrev print_number : Prim digits → Bytes
print_number v = codes "5"

abbrev hello : Entry
hello = record {
  level = info_level;
  time = pos 5;
  logger_name = codes "db";
  message = codes "hi";
  caller = record { defined = false; pc = 0; file = []; line = pos 0; function = [] };
  stack = codes "trace";
}

abbrev context : ObjectCalls digits
context = add (codes "a") (int (pos 1)) (open_namespace (codes "n") done)

abbrev fields : ObjectCalls digits
fields = add (codes "b") (string (codes "x")) done

hello_line :
    encode_console two_bytes digits print_number production
      (codes "\t")
      (add_calls two_bytes digits true production context fresh)
      hello
      fields
    ≡ codes "5\tinfo\tdb\thi\t{\"a\": 1, \"n\": {\"b\": \"x\"}}\ntrace\n"
unfolding encode_console add_context add_stack_text add_message add_separator elements
    write_elements write_others add_calls add_element_separator add_key append_prim append_quoted
    append_raw braces close_open_namespaces last_byte quoted append_from safe_append
    full_name_encoder lowercase_level_encoder epoch_nanos_time_encoder Text.string
hello_line = refl

encode_console-print_example :
    encode_console two_bytes digits print_number production
      (codes "\t")
      (add_calls two_bytes digits true production context fresh)
      hello
      fields
    ≡ add_stack_text two_bytes digits print_number production (codes "\t") hello (
        context_object two_bytes digits print_number production
          (codes "\t")
          (members_of digits production (and_then context fields))
          (add_message two_bytes digits print_number production (codes "\t") hello (
            write_elements digits print_number
              (codes "\t")
              (elements two_bytes digits print_number production (codes "\t") hello))))
      ++ codes "\n"
encode_console-print_example =
    encode_console-print two_bytes digits print_number production (codes "\t") digits-Tokens
      production-SingleParts context fields hello
