-- ===== src/MapEncoder/Tests.antt =====
-- A concrete map.
use buffer_full_flush_once.Common.{◌≡◌, refl}
use buffer_full_flush_once.Common.Int.{pos}
use buffer_full_flush_once.Common.Bytes.{codes}
use buffer_full_flush_once.Encoder.{int, string}
use buffer_full_flush_once.Encoder.Calls.{ObjectCalls, done, add, open_namespace}
use buffer_full_flush_once.Json.Samples.{digits}
use buffer_full_flush_once.MapEncoder.{
  one, nested, no_entries, entry, set_entry, enclosed, map_fields, map_calls, new_map_encoder,
}
use buffer_full_flush_once.MapEncoder.Lookup.{lookup, last_value, lookup-map_calls}

-- The key "a" is written twice, and then in a namespace.
abbrev calls : ObjectCalls digits
calls = add (codes "a") (int (pos 1)) (
    add (codes "a") (int (pos 2))
      (open_namespace (codes "n") (add (codes "a") (string (codes "x")) done)))

fields_of_calls :
    map_fields (map_calls calls new_map_encoder)
    ≡ entry (codes "a") (one (int (pos 2))) (
        entry
          (codes "n")
          (nested (entry (codes "a") (one (string (codes "x"))) no_entries))
          no_entries)
unfolding map_fields map_calls enclosed set_entry
fields_of_calls = refl

lookup-map_calls_example :
    lookup (codes "a") (map_fields (map_calls calls new_map_encoder)) ≡ last_value (codes "a") calls
lookup-map_calls_example = lookup-map_calls (codes "a") calls
