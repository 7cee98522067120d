-- ===== src/Fields/Errors.antt =====
-- zapcore/error.go: `encodeError`.
use buffer_full_flush_once.Common.{not, Option, none, some, ◌++◌, if◌then◌else◌}
use buffer_full_flush_once.Common.Bytes.{Bytes, codes, bytes_eq}
use buffer_full_flush_once.Encoder.{Formats, string}
use buffer_full_flush_once.Encoder.Calls.{done, add, add_array, end, append_object}
use buffer_full_flush_once.Fields.{
  Said, says, nil_panic, panic, ErrorValue, plain_error, formatted_error, error_group, broken_group,
  ErrorValues, no_errors, nil_error, one_error, ObjectMarshaler, ArrayMarshaler,
}

module _ (f : Formats) where
  -- The text of a panic that was recovered.
  abbrev pub panicked : Bytes → Option Bytes
  panicked p = some (codes "PANIC=" ++ p)

  -- The deferred function, at a nil pointer or with the text of the panic.
  abbrev pub recovered : Bytes → Option Bytes → ObjectMarshaler f
  recovered key none = record {
    object_calls = add key (string (codes "<nil>")) done;
    object_error = none;
  }
  recovered key (some p) = record { object_calls = done; object_error = panicked p }

  -- `encodeError` after the Error method: what it does where there is a text is `next`.
  unfoldable pub add_said : Bytes → Said → (Bytes → ObjectMarshaler f) → ObjectMarshaler f
  add_said key (says basic) next = record (next basic) {
    object_calls = add key (string basic) (next basic).object_calls;
  }
  add_said key nil_panic next = recovered key none
  add_said key (panic p) next = recovered key (some p)

  abbrev pub nothing_more : ObjectMarshaler f
  nothing_more = record { object_calls = done; object_error = none }

  -- The verbose text, where it is not the basic one.
  abbrev pub verbose : Bytes → Bytes → Bytes → ObjectMarshaler f
  verbose key text basic =
      if not (bytes_eq text basic)
      then record {
        object_calls = add (key ++ codes "Verbose") (string text) done;
        object_error = none;
      }
      else nothing_more

  -- `AddArray`, which returns the marshaler's error.
  abbrev pub causes : Bytes → ArrayMarshaler f → ObjectMarshaler f
  causes key m = record {
    object_calls = add_array (key ++ codes "Causes") m.array_calls done;
    object_error = m.array_error;
  }

  -- `AppendObject` in the loop of `errArray.MarshalLogArray`, which ends at an error.
  abbrev pub append_element : ObjectMarshaler f → ArrayMarshaler f → ArrayMarshaler f
  append_element m rest = elim m.object_error [
    | none ↦ record rest { array_calls = append_object m.object_calls rest.array_calls }
    | some e ↦ record { array_calls = append_object m.object_calls end; array_error = some e }
  ]

  unfoldable mutual
    unfolding add_said

    pub encode_error : Bytes → ErrorValue → ObjectMarshaler f
    encode_error key (plain_error said) = add_said key said (λ basic. nothing_more)
    encode_error key (formatted_error said text) = add_said key said (verbose key text)
    encode_error key (error_group said errors) =
        let elements = marshal_errors errors in add_said key said (λ basic. causes key elements)
    encode_error key (broken_group said p) = add_said key said (λ basic. recovered key p)

    pub marshal_errors : ErrorValues → ArrayMarshaler f
    marshal_errors no_errors = record { array_calls = end; array_error = none }
    marshal_errors (nil_error rest) = marshal_errors rest
    marshal_errors (one_error e rest) =
        append_element (encode_error (codes "error") e) (marshal_errors rest)
