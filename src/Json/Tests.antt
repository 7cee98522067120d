-- ===== src/Json/Tests.antt =====
-- Concrete lines.
use buffer_full_flush_once.Common.{◌≡◌, refl, false, some, [], ◌∷◌, ◌++◌, arith}
use buffer_full_flush_once.Common.Int.{pos}
use buffer_full_flush_once.Common.Bytes.{Bytes, codes}
use buffer_full_flush_once.Level.{info_level}
use buffer_full_flush_once.Entry.{Entry}
use buffer_full_flush_once.Encoder.{int, string}
use buffer_full_flush_once.Encoder.Calls.{
  ObjectCalls, done, add, add_array, open_namespace, end, append, append_object, and_then,
}
use buffer_full_flush_once.Json.{
  add_calls, append_quoted, add_element_separator, last_byte, add_key, close_open_namespaces,
  close_array, close_object, open_object, append_prim, append_raw, open_array, quoted, append_or,
  append_prims, append_time_value, braces,
}
use buffer_full_flush_once.Json.Escape.{escaped, append_from, safe_append}
use buffer_full_flush_once.Json.Tree.{print, object}
use buffer_full_flush_once.Json.Line.{
  fresh, encode_entry, write_stack, write_part, write_context, write_caller, write_function,
  write_level, write_message, write_metadata, write_name, write_time,
}
use buffer_full_flush_once.Encoder.Config.{
  full_name_encoder, lowercase_level_encoder, epoch_nanos_time_encoder,
}
use buffer_full_flush_once.Level.Text
use buffer_full_flush_once.Json.Line.Entries.{line_members, encode_entry-print}
use buffer_full_flush_once.Json.Unescape.{in_text, read, sanitize}
use buffer_full_flush_once.Json.Unescape.Reads.{read-safe_append}
use buffer_full_flush_once.Json.Fuel.{append_from-enough}
use buffer_full_flush_once.Json.Samples.{
  digits, digits-Tokens, two_bytes, no_text, production, production-SingleParts,
}

abbrev hello : Entry
hello = record {
  level = info_level;
  time = pos 5;
  logger_name = codes "db";
  message = codes "hi";
  caller = record { defined = false; pc = 0; file = []; line = pos 0; function = [] };
  stack = codes "trace";
}

abbrev context : ObjectCalls digits
context = add (codes "a") (int (pos 1)) (open_namespace (codes "n") done)

abbrev fields : ObjectCalls digits
fields = add (codes "b") (string (codes "x\ny")) (
    add_array (codes "c")
      (append (int (pos 2)) (append_object (open_namespace (codes "m") done) end)) done)

abbrev with_context : Bytes
with_context =
    encode_entry no_text two_bytes digits false production
      (add_calls two_bytes digits false production context fresh) hello fields

-- A line feed, the byte 1, a letter of two bytes, and a byte that is not UTF-8.
abbrev odd_text : Bytes
odd_text = 10 ∷ 1 ∷ 0xc3 ∷ 0xa9 ∷ 0xff ∷ codes "\"z"

odd_text_escaped :
    safe_append two_bytes odd_text ≡ codes "\\n\\u0001" ++ (0xc3 ∷ 0xa9 ∷ codes "\\ufffd\\\"z")
unfolding safe_append append_from escaped
odd_text_escaped = refl

with_context_line :
    with_context
    ≡ codes
        "{\"level\":\"info\",\"ts\":5,\"logger\":\"db\",\"msg\":\"hi\",\"a\":1,\"n\":{\"b\":\"x\\ny\",\"c\":[2,{\"m\":{}}]},\"stacktrace\":\"trace\"}\n"
unfolding encode_entry write_stack write_part append_quoted add_element_separator last_byte add_key
    close_open_namespaces add_calls close_array close_object open_object append_prim append_raw
    open_array write_context quoted safe_append append_from escaped full_name_encoder write_caller
    write_function write_level write_message write_metadata write_name write_time append_or
    append_prims append_time_value braces Text.string lowercase_level_encoder
    epoch_nanos_time_encoder
with_context_line = refl

encode_entry-print_example :
    with_context
    ≡ print two_bytes false
        (object (line_members no_text digits production hello (and_then context fields)))
      ++ codes "\n"
encode_entry-print_example =
    encode_entry-print no_text two_bytes digits false production digits-Tokens
      production-SingleParts context fields hello

read-safe_append_example :
    read in_text (safe_append two_bytes odd_text) ≡ some (sanitize two_bytes odd_text)
read-safe_append_example = read-safe_append two_bytes odd_text

append_from-enough_example :
    append_from two_bytes 9 odd_text [] (codes "x")
    ≡ append_from two_bytes 7 odd_text [] (codes "x")
append_from-enough_example =
    append_from-enough two_bytes 9 7 odd_text [] (codes "x") (omega arith) (omega arith)
