-- ===== src/Fields/Making.antt =====
-- field.go, error.go: the functions that make fields.
use buffer_full_flush_once.Common.{
  ℕ, ◌-◌, ◌^◌, Bool, ◌||◌, Option, none, some, List, [], if◌then◌else◌, ◌>>=◌,
}
use buffer_full_flush_once.Common.Int.{ℤ, pos, negsuc, ltb_ℤ, wrap}
use buffer_full_flush_once.Common.Bytes.{Bytes, codes}
use buffer_full_flush_once.Encoder.{Formats}
use buffer_full_flush_once.Fields.{
  FieldType, array_marshaler_type, object_marshaler_type, binary_type, bool_type, byte_string_type,
  complex128_type, complex64_type, duration_type, float64_type, float32_type, int64_type,
  int32_type, int16_type, int8_type, string_type, time_type, time_full_type, uint64_type,
  uint32_type, uint16_type, uint8_type, uintptr_type, reflect_type, namespace_type, stringer_type,
  error_type, skip_type, inline_marshaler_type, Said, ErrorValue, ObjectMarshaler, ArrayMarshaler,
  Interface, nil, object_value, array_value, bytes_value, complex_value, location, full_time,
  stringer_value, error_value, Field,
}
use buffer_full_flush_once.Fields.Adding.{Values, add_fields}

-- The bounds of the times that UnixNano can represent.
abbrev pub min_time : ℤ
min_time = negsuc (2 ^ 63 - 1)

abbrev pub max_time : ℤ
max_time = pos (2 ^ 63 - 1)

module _ (f : Formats) (v : Values f) where
  -- A field with a key, a type and an integer, with a text, and with a value in `Interface`.
  abbrev pub integer_field : Bytes → FieldType → ℤ → Field f
  integer_field k t n = record {
    key = k;
    field_type = t;
    integer = n;
    text_value = [];
    interface = nil;
  }

  abbrev pub value_field : Bytes → FieldType → Interface f → Field f
  value_field k t i = record {
    key = k;
    field_type = t;
    integer = pos 0;
    text_value = [];
    interface = i;
  }

  unfoldable pub skip_field : Field f
  skip_field = value_field [] skip_type nil

  unfoldable pub reflect_field : Bytes → Interface f → Field f
  reflect_field k i = value_field k reflect_type i

  unfoldable pub nil_field : Bytes → Field f
  unfolding reflect_field
  nil_field k = reflect_field k nil

  -- The constructors of pointers, `Boolp` and the others: a nil pointer is logged as nil.
  unfoldable pub pointer_field : {A : Type 0} → (Bytes → A → Field f) → Bytes → Option A → Field f
  unfolding nil_field
  pointer_field make k none = nil_field k
  pointer_field make k (some a) = make k a

  unfoldable pub binary_field : Bytes → Bytes → Field f
  binary_field k b = value_field k binary_type (bytes_value b)

  unfoldable pub bool_field : Bytes → Bool → Field f
  bool_field k b = integer_field k bool_type (if b then pos 1 else pos 0)

  unfoldable pub byte_string_field : Bytes → Bytes → Field f
  byte_string_field k b = value_field k byte_string_type (bytes_value b)

  unfoldable pub complex128_field : Bytes → f.Complex → Field f
  complex128_field k z = value_field k complex128_type (complex_value z 64)

  unfoldable pub complex64_field : Bytes → f.Complex → Field f
  complex64_field k z = value_field k complex64_type (complex_value z 32)

  unfoldable pub float64_field : Bytes → f.Float → Field f
  float64_field k x = integer_field k float64_type (wrap 63 (pos (v.float_bits 64 x)))

  unfoldable pub float32_field : Bytes → f.Float → Field f
  float32_field k x = integer_field k float32_type (pos (v.float_bits 32 x))

  unfoldable pub int64_field : Bytes → ℤ → Field f
  int64_field k n = integer_field k int64_type n

  -- `Int`, on a machine of 64 bits.
  unfoldable pub int_field : Bytes → ℤ → Field f
  unfolding int64_field
  int_field k n = int64_field k n

  unfoldable pub int32_field : Bytes → ℤ → Field f
  int32_field k n = integer_field k int32_type n

  unfoldable pub int16_field : Bytes → ℤ → Field f
  int16_field k n = integer_field k int16_type n

  unfoldable pub int8_field : Bytes → ℤ → Field f
  int8_field k n = integer_field k int8_type n

  unfoldable pub string_field : Bytes → Bytes → Field f
  string_field k s = record {
    key = k;
    field_type = string_type;
    integer = pos 0;
    text_value = s;
    interface = nil;
  }

  -- The unsigned integers are kept as int64 values.
  unfoldable pub uint64_field : Bytes → ℕ → Field f
  uint64_field k n = integer_field k uint64_type (wrap 63 (pos n))

  unfoldable pub uint_field : Bytes → ℕ → Field f
  unfolding uint64_field
  uint_field k n = uint64_field k n

  unfoldable pub uint32_field : Bytes → ℕ → Field f
  uint32_field k n = integer_field k uint32_type (pos n)

  unfoldable pub uint16_field : Bytes → ℕ → Field f
  uint16_field k n = integer_field k uint16_type (pos n)

  unfoldable pub uint8_field : Bytes → ℕ → Field f
  uint8_field k n = integer_field k uint8_type (pos n)

  unfoldable pub uintptr_field : Bytes → ℕ → Field f
  uintptr_field k n = integer_field k uintptr_type (wrap 63 (pos n))

  unfoldable pub namespace_field : Bytes → Field f
  namespace_field k = value_field k namespace_type nil

  unfoldable pub stringer_field : Bytes → Said → Field f
  stringer_field k s = value_field k stringer_type (stringer_value s)

  unfoldable pub time_field : Bytes → ℤ → Field f
  time_field k t =
      if ltb_ℤ t min_time || ltb_ℤ max_time t
      then value_field k time_full_type (full_time t)
      else record (value_field k time_type location) { integer = wrap 63 t }

  unfoldable pub duration_field : Bytes → ℤ → Field f
  duration_field k d = integer_field k duration_type d

  -- `Object`: a nil marshaler is `none`.
  unfoldable pub object_field : Bytes → Option (ObjectMarshaler f) → Field f
  unfolding nil_field
  object_field k none = nil_field k
  object_field k (some m) = value_field k object_marshaler_type (object_value m)

  unfoldable pub inline_field : ObjectMarshaler f → Field f
  inline_field m = value_field [] inline_marshaler_type (object_value m)

  unfoldable pub array_field : Bytes → ArrayMarshaler f → Field f
  array_field k m = value_field k array_marshaler_type (array_value m)

  -- `dictObject.MarshalLogObject`, where no field panics.
  unfoldable pub dict_object : List (Field f) → Option (ObjectMarshaler f)
  unfolding add_fields
  dict_object fields =
      add_fields f v fields
      >>= (λ calls. some (record { object_calls = calls; object_error = none }))

  -- `Dict`, where no field panics.
  unfoldable pub dict_field : Bytes → List (Field f) → Option (Field f)
  unfolding dict_object object_field
  dict_field k fields = dict_object fields >>= (λ m. some (object_field k (some m)))

  -- `NamedError`: a nil error is `none`.
  unfoldable pub named_error_field : Bytes → Option ErrorValue → Field f
  unfolding skip_field
  named_error_field k none = skip_field
  named_error_field k (some e) = value_field k error_type (error_value e)

  unfoldable pub error_field : Option ErrorValue → Field f
  unfolding named_error_field
  error_field e = named_error_field (codes "error") e
