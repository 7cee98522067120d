-- ===== src/Fields/Tests.antt =====
-- Concrete fields.
use buffer_full_flush_once.Common.{◌≡◌, refl, ◌⊎◌, none, some, [], ◌∷◌, ◌++◌, arith}
use buffer_full_flush_once.Common.Int.{pos, negsuc}
use buffer_full_flush_once.Common.Bytes.{codes}
use buffer_full_flush_once.Encoder.{int, string}
use buffer_full_flush_once.Encoder.Calls.{ObjectCalls, done, add, end, append_object}
use buffer_full_flush_once.Json.Samples.{digits}
use buffer_full_flush_once.Fields.{
  says, panic, plain_error, error_group, broken_group, no_errors, nil_error, one_error,
  ObjectMarshaler, ErrorValue,
}
use buffer_full_flush_once.Fields.Adding.{Values, add_to}
use buffer_full_flush_once.Fields.Errors.{add_said, encode_error}
use buffer_full_flush_once.Fields.Making.{named_error_field}
use buffer_full_flush_once.Fields.Arrays.{marshal_objects}
use buffer_full_flush_once.Fields.Exact.{an_int8, field_of, call_of, add_to-field_of}
use buffer_full_flush_once.Fields.Failing.{
  objects_then, Says, marshal_objects-failing, add_to-named_error,
}

abbrev numbers : Values digits
numbers = record {
  float_bits = λ w x. x;
  float_from_bits = λ w x. x;
  reflected = λ i. 0;
  not_stringer = λ i. panic (codes "no Stringer");
}

abbrev good : ObjectMarshaler digits
good = record { object_calls = add (codes "x") (int (pos 1)) done; object_error = none }

abbrev bad : ObjectMarshaler digits
bad = record {
  object_calls = add (codes "y") (int (pos 2)) done;
  object_error = some (codes "failed");
}

-- A group with a nil error, and an error that panics.
abbrev group : ErrorValue
group = error_group (says (codes "both")) (
    nil_error (
      one_error (plain_error (says (codes "a")))
        (one_error (plain_error (panic (codes "p"))) no_errors)))

group_error : (encode_error digits (codes "error") group).object_error ≡ some (codes "PANIC=p")
unfolding encode_error add_said
group_error = refl

add_to-field_of_example :
    add_to digits numbers (field_of digits numbers (codes "k") (an_int8 (negsuc 127)))
    ≡ some (call_of digits numbers (codes "k") (an_int8 (negsuc 127)))
add_to-field_of_example =
    add_to-field_of digits numbers (codes "k") (an_int8 (negsuc 127)) (omega arith)

marshal_objects-failing_example :
    marshal_objects digits numbers ((good ∷ []) ++ (bad ∷ good ∷ [])) ≡ record {
      array_calls = objects_then digits (good ∷ []) (append_object bad.object_calls end);
      array_error = some (codes "failed");
    }
marshal_objects-failing_example =
    marshal_objects-failing digits numbers (good ∷ []) bad (good ∷ []) (codes "failed") (refl, tt)
      refl

-- A group whose Errors method panics after its Error method has returned.
broken_group_error :
    encode_error digits (codes "error") (broken_group (says (codes "both")) (some (codes "p")))
    ≡ record {
      object_calls = add (codes "error") (string (codes "both")) done;
      object_error = some (codes "PANIC=p");
    }
unfolding encode_error add_said
broken_group_error = refl

add_to-named_error_example :
    (calls : ObjectCalls digits) × (add_to digits numbers
        (named_error_field digits numbers (codes "error") (some group))
      ≡ some calls)
    × (Says digits numbers (codes "error") calls
        ⊎ Says digits numbers (codes "error" ++ codes "Error") calls)
add_to-named_error_example = add_to-named_error digits numbers (codes "error") group
