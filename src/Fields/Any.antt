-- ===== src/Fields/Any.antt =====
-- field.go: `Any`.
use buffer_full_flush_once.Common.{ℕ, Bool, Option, some, List}
use buffer_full_flush_once.Common.Int.{ℤ}
use buffer_full_flush_once.Common.Bytes.{Bytes}
use buffer_full_flush_once.Encoder.{Formats}
use buffer_full_flush_once.Fields.{
  Said, ErrorValue, ErrorValues, ObjectMarshaler, ArrayMarshaler, Interface, Field,
}
use buffer_full_flush_once.Fields.Adding.{Values}
use buffer_full_flush_once.Fields.Making.{
  pointer_field, binary_field, bool_field, complex128_field, complex64_field, float64_field,
  float32_field, int_field, int64_field, int32_field, int16_field, int8_field, string_field,
  uint_field, uint64_field, uint32_field, uint16_field, uint8_field, uintptr_field, reflect_field,
  stringer_field, time_field, duration_field, object_field, array_field, dict_field,
  named_error_field,
}
use buffer_full_flush_once.Fields.Arrays.{
  bools_field, complex128s_field, complex64s_field, durations_field, float64s_field, float32s_field,
  ints_field, uints_field, strings_field, times_field, errors_field,
}

-- A value of a type, a pointer to one, or a slice.
pub data Form (A : Type 0) : Type 0 where
  plain_value : A → Form A
  pointer : Option A → Form A
  sliced : List A → Form A

-- The dynamic values by the case of the switch that takes them, which is the first that fits.
pub data AnyValue (f : Formats) : Type 0 where
  any_object : ObjectMarshaler f → AnyValue f
  any_array : ArrayMarshaler f → AnyValue f
  any_fields : List (Field f) → AnyValue f
  any_bool : Form Bool → AnyValue f
  any_complex128 : Form f.Complex → AnyValue f
  any_complex64 : Form f.Complex → AnyValue f
  any_float64 : Form f.Float → AnyValue f
  any_float32 : Form f.Float → AnyValue f
  any_int : Form ℤ → AnyValue f
  any_int64 : Form ℤ → AnyValue f
  any_int32 : Form ℤ → AnyValue f
  any_int16 : Form ℤ → AnyValue f
  any_int8 : Form ℤ → AnyValue f
  any_string : Form Bytes → AnyValue f
  any_uint : Form ℕ → AnyValue f
  any_uint64 : Form ℕ → AnyValue f
  any_uint32 : Form ℕ → AnyValue f
  any_uint16 : Form ℕ → AnyValue f
  any_uint8 : Form ℕ → AnyValue f
  any_uintptr : Form ℕ → AnyValue f
  any_time : Form ℤ → AnyValue f
  any_duration : Form ℤ → AnyValue f
  any_error : ErrorValue → AnyValue f
  any_errors : ErrorValues → AnyValue f
  any_stringer : Said → AnyValue f
  any_other : Interface f → AnyValue f

module _ (f : Formats) (v : Values f) where
  -- The three cases for a type.
  unfoldable pub by_form :
      {A : Type 0} → (Bytes → A → Field f) → (Bytes → List A → Field f) → Bytes → Form A → Field f
  unfolding pointer_field
  by_form make many k (plain_value a) = make k a
  by_form make many k (pointer a) = pointer_field f v make k a
  by_form make many k (sliced elements) = many k elements

  -- `none` where the fields of a dictionary, or the errors of a slice, panic when they are added. A
  -- slice of uint8 is a slice of bytes.
  unfoldable pub field_of_any : Bytes → AnyValue f → Option (Field f)
  field_of_any k (any_object m) = some (object_field f v k (some m))
  field_of_any k (any_array m) = some (array_field f v k m)
  field_of_any k (any_fields fields) = dict_field f v k fields
  field_of_any k (any_bool x) = some (by_form (bool_field f v) (bools_field f v) k x)
  field_of_any k (any_complex128 x) =
      some (by_form (complex128_field f v) (complex128s_field f v) k x)
  field_of_any k (any_complex64 x) = some (by_form (complex64_field f v) (complex64s_field f v) k x)
  field_of_any k (any_float64 x) = some (by_form (float64_field f v) (float64s_field f v) k x)
  field_of_any k (any_float32 x) = some (by_form (float32_field f v) (float32s_field f v) k x)
  field_of_any k (any_int x) = some (by_form (int_field f v) (ints_field f v) k x)
  field_of_any k (any_int64 x) = some (by_form (int64_field f v) (ints_field f v) k x)
  field_of_any k (any_int32 x) = some (by_form (int32_field f v) (ints_field f v) k x)
  field_of_any k (any_int16 x) = some (by_form (int16_field f v) (ints_field f v) k x)
  field_of_any k (any_int8 x) = some (by_form (int8_field f v) (ints_field f v) k x)
  field_of_any k (any_string x) = some (by_form (string_field f v) (strings_field f v) k x)
  field_of_any k (any_uint x) = some (by_form (uint_field f v) (uints_field f v) k x)
  field_of_any k (any_uint64 x) = some (by_form (uint64_field f v) (uints_field f v) k x)
  field_of_any k (any_uint32 x) = some (by_form (uint32_field f v) (uints_field f v) k x)
  field_of_any k (any_uint16 x) = some (by_form (uint16_field f v) (uints_field f v) k x)
  field_of_any k (any_uint8 x) = some (by_form (uint8_field f v) (binary_field f v) k x)
  field_of_any k (any_uintptr x) = some (by_form (uintptr_field f v) (uints_field f v) k x)
  field_of_any k (any_time x) = some (by_form (time_field f v) (times_field f v) k x)
  field_of_any k (any_duration x) = some (by_form (duration_field f v) (durations_field f v) k x)
  field_of_any k (any_error e) = some (named_error_field f v k (some e))
  field_of_any k (any_errors es) = errors_field f v k es
  field_of_any k (any_stringer s) = some (stringer_field f v k s)
  field_of_any k (any_other i) = some (reflect_field f v k i)
