-- ===== src/Fields/Adding.antt =====
-- zapcore/field.go: `Field.AddTo` for the JSON encoder, `addFields`, and `encodeStringer`.
use buffer_full_flush_once.Common.{
  ℕ, ◌==◌, true, false, Option, none, some, List, [], ◌∷◌, ◌++◌, Result, ok, err, ◌>>=◌,
}
use buffer_full_flush_once.Common.Int.{ℤ, pos, eqb_ℤ, wrap}
use buffer_full_flush_once.Common.Bytes.{Bytes, codes}
use buffer_full_flush_once.Encoder.{
  Formats, Prim, bool, int, uint, float, complex, string, byte_string,
}
use buffer_full_flush_once.Encoder.Calls.{
  ObjectCalls, done, add, add_binary, add_duration, add_time, add_reflected, add_array, add_object,
  open_namespace, and_then,
}
use buffer_full_flush_once.Json.{encode_reflected}
use buffer_full_flush_once.Fields.{
  FieldType, unknown_type, array_marshaler_type, object_marshaler_type, binary_type, bool_type,
  byte_string_type, complex128_type, complex64_type, duration_type, float64_type, float32_type,
  int64_type, int32_type, int16_type, int8_type, string_type, time_type, time_full_type,
  uint64_type, uint32_type, uint16_type, uint8_type, uintptr_type, reflect_type, namespace_type,
  stringer_type, error_type, skip_type, inline_marshaler_type, Said, ErrorValue, ObjectMarshaler,
  ArrayMarshaler, Interface, nil, object_value, array_value, bytes_value, complex_value, full_time,
  stringer_value, error_value, other_value, Field, unsigned,
}
use buffer_full_flush_once.Fields.Errors.{encode_error, nothing_more, add_said}

-- What the fields use of the package math, of reflection and of the runtime: the bits of
-- floating-point values of a size, the encoding of any value, and what the assertion that a value is a
-- Stringer does where it is none.
pub record Values (f : Formats) : Type 0 where
  pub float_bits : ℕ → f.Float → ℕ
  pub float_from_bits : ℕ → ℕ → f.Float
  pub reflected : Interface f → f.Reflected
  pub not_stringer : Interface f → Said

module _ (f : Formats) (v : Values f) where
  -- The value that is encoded by reflection: nothing for nil.
  abbrev pub reflectable : Interface f → Option f.Reflected
  reflectable nil = none
  reflectable (other_value r) = some r
  reflectable i = some (v.reflected i)

  -- `encodeStringer`.
  abbrev pub encode_stringer : Bytes → Said → ObjectMarshaler f
  encode_stringer key said = add_said f key said (λ text. nothing_more f)

  abbrev pub failure_of : Result Bytes Bytes → Option Bytes
  failure_of (ok text) = none
  failure_of (err e) = some e

  abbrev pub no_failure : ObjectCalls f → Option (ObjectMarshaler f)
  no_failure calls = some (record { object_calls = calls; object_error = none })

  -- One value of the field's own.
  abbrev pub simply : Bytes → Prim f → Option (ObjectMarshaler f)
  simply key p = no_failure (add key p done)

  -- The type assertions on the field `Interface`, which panic where its type is another one.
  abbrev pub as_array : Interface f → Option (ArrayMarshaler f)
  as_array (array_value m) = some m
  as_array i = none

  abbrev pub as_object : Interface f → Option (ObjectMarshaler f)
  as_object (object_value m) = some m
  as_object i = none

  abbrev pub as_bytes : Interface f → Option Bytes
  as_bytes (bytes_value b) = some b
  as_bytes i = none

  abbrev pub as_complex : ℕ → Interface f → Option f.Complex
  as_complex bits (complex_value z b) = elim (bits == b) [ true ↦ some z | false ↦ none ]
  as_complex bits i = none

  abbrev pub as_time : Interface f → Option ℤ
  as_time (full_time t) = some t
  as_time i = none

  abbrev pub as_error : Interface f → Option ErrorValue
  as_error (error_value e) = some e
  as_error i = none

  -- `encodeStringer` asserts where it recovers.
  abbrev pub as_said : Interface f → Said
  as_said (stringer_value s) = s
  as_said i = v.not_stringer i

  -- The switch of `AddTo`: `none` is a panic.
  unfoldable pub add_typed : FieldType → Field f → Option (ObjectMarshaler f)
  add_typed array_marshaler_type field = as_array field.interface >>= (λ m. some (record {
    object_calls = add_array field.key m.array_calls done;
    object_error = m.array_error;
  }))
  add_typed object_marshaler_type field =
      as_object field.interface
      >>= (λ m. some (record m { object_calls = add_object field.key m.object_calls done }))
  add_typed inline_marshaler_type field = as_object field.interface
  add_typed binary_type field =
      as_bytes field.interface >>= (λ b. no_failure (add_binary field.key b done))
  add_typed bool_type field = simply field.key (bool (eqb_ℤ field.integer (pos 1)))
  add_typed byte_string_type field =
      as_bytes field.interface >>= (λ b. simply field.key (byte_string b))
  add_typed complex128_type field =
      as_complex 64 field.interface >>= (λ z. simply field.key (complex z 64))
  add_typed complex64_type field =
      as_complex 32 field.interface >>= (λ z. simply field.key (complex z 32))
  add_typed duration_type field = no_failure (add_duration field.key field.integer done)
  add_typed float64_type field =
      simply field.key (float (v.float_from_bits 64 (unsigned 64 field.integer)) 64)
  add_typed float32_type field =
      simply field.key (float (v.float_from_bits 32 (unsigned 32 field.integer)) 32)
  add_typed int64_type field = simply field.key (int field.integer)
  add_typed int32_type field = simply field.key (int (wrap 31 field.integer))
  add_typed int16_type field = simply field.key (int (wrap 15 field.integer))
  add_typed int8_type field = simply field.key (int (wrap 7 field.integer))
  add_typed string_type field = simply field.key (string field.text_value)
  add_typed time_type field = no_failure (add_time field.key field.integer done)
  add_typed time_full_type field =
      as_time field.interface >>= (λ t. no_failure (add_time field.key t done))
  add_typed uint64_type field = simply field.key (uint (unsigned 64 field.integer))
  add_typed uint32_type field = simply field.key (uint (unsigned 32 field.integer))
  add_typed uint16_type field = simply field.key (uint (unsigned 16 field.integer))
  add_typed uint8_type field = simply field.key (uint (unsigned 8 field.integer))
  add_typed uintptr_type field = simply field.key (uint (unsigned 64 field.integer))
  add_typed reflect_type field =
      let r = reflectable field.interface in
      some (record {
        object_calls = add_reflected field.key r done;
        object_error = failure_of (encode_reflected f r);
      })
  add_typed namespace_type field = no_failure (open_namespace field.key done)
  add_typed stringer_type field = some (encode_stringer field.key (as_said field.interface))
  add_typed error_type field = as_error field.interface >>= (λ e. some (encode_error f field.key e))
  add_typed skip_type field = no_failure done
  add_typed unknown_type field = none

  -- The error of an addition, under its own key.
  abbrev pub error_report : Bytes → Option Bytes → ObjectCalls f
  error_report key none = done
  error_report key (some e) = add (key ++ codes "Error") (string e) done

  -- `AddTo`: the calls that it makes, or a panic.
  unfoldable pub add_to : Field f → Option (ObjectCalls f)
  add_to field =
      add_typed field.field_type field
      >>= (λ m. some (and_then m.object_calls (error_report field.key m.object_error)))

  -- `addFields`.
  unfoldable pub add_fields : List (Field f) → Option (ObjectCalls f)
  add_fields [] = some done
  add_fields (field ∷ fields) =
      let rest = add_fields fields in
      add_to field >>= (λ calls. rest >>= (λ more. some (and_then calls more)))
