-- ===== src/Fields.antt =====
-- zapcore/field.go, field.go, array.go and error.go: fields, what they carry, and what they do to an
-- encoder.
pub mod Errors
pub mod Adding
pub mod Making
pub mod Arrays
pub mod Pointers
pub mod Named
pub mod Exact
pub mod Failing
pub mod Any
mod Tests
use buffer_full_flush_once.Common.{
  ℕ, zero, suc, ◌-◌, ◌^◌, ◌%◌, Option, none, some, Bool, List, [], ◌∷◌,
}
use buffer_full_flush_once.Common.Int.{ℤ, pos, negsuc}
use buffer_full_flush_once.Common.Bytes.{Bytes}
use buffer_full_flush_once.Encoder.{Formats}
use buffer_full_flush_once.Encoder.Calls.{ObjectCalls, ArrayCalls}

pub data FieldType : Type 0 where
  unknown_type : FieldType
  array_marshaler_type : FieldType
  object_marshaler_type : FieldType
  binary_type : FieldType
  bool_type : FieldType
  byte_string_type : FieldType
  complex128_type : FieldType
  complex64_type : FieldType
  duration_type : FieldType
  float64_type : FieldType
  float32_type : FieldType
  int64_type : FieldType
  int32_type : FieldType
  int16_type : FieldType
  int8_type : FieldType
  string_type : FieldType
  time_type : FieldType
  time_full_type : FieldType
  uint64_type : FieldType
  uint32_type : FieldType
  uint16_type : FieldType
  uint8_type : FieldType
  uintptr_type : FieldType
  reflect_type : FieldType
  namespace_type : FieldType
  stringer_type : FieldType
  error_type : FieldType
  skip_type : FieldType
  inline_marshaler_type : FieldType

-- What calling the String or the Error method does: it returns a text, panics at a nil pointer, or
-- panics otherwise, with what `%v` prints of the panic.
pub data Said : Type 0 where
  says : Bytes → Said
  nil_panic : Said
  panic : Bytes → Said

-- Errors by what `encodeError` asks of them: the Error method, and Errors or the text of `%+v`. The
-- Errors method of a `broken_group` panics, at a nil pointer where there is no text of the panic.
-- A nil error among others is `nil_error`.
mutual
  pub data ErrorValue : Type 0 where
    plain_error : Said → ErrorValue
    formatted_error : Said → Bytes → ErrorValue
    error_group : Said → ErrorValues → ErrorValue
    broken_group : Said → Option Bytes → ErrorValue

  pub data ErrorValues : Type 0 where
    no_errors : ErrorValues
    nil_error : ErrorValues → ErrorValues
    one_error : ErrorValue → ErrorValues → ErrorValues

-- A marshaler: the calls that it makes, and the text of the error that it returns, if any.
pub record ObjectMarshaler (f : Formats) : Type 0 where
  pub object_calls : ObjectCalls f
  pub object_error : Option Bytes

pub record ArrayMarshaler (f : Formats) : Type 0 where
  pub array_calls : ArrayCalls f
  pub array_error : Option Bytes

-- The dynamic values that the field `Interface` holds. Times are instants: of a location only that
-- there is one is modelled.
pub data Interface (f : Formats) : Type 0 where
  nil : Interface f
  object_value : ObjectMarshaler f → Interface f
  array_value : ArrayMarshaler f → Interface f
  bytes_value : Bytes → Interface f
  complex_value : f.Complex → ℕ → Interface f
  location : Interface f
  full_time : ℤ → Interface f
  stringer_value : Said → Interface f
  error_value : ErrorValue → Interface f
  other_value : f.Reflected → Interface f

pub record Field (f : Formats) : Type 0 where
  pub key : Bytes
  pub field_type : FieldType
  pub integer : ℤ
  pub text_value : Bytes
  pub interface : Interface f

-- The two's complement value of `w` bits, as an unsigned number.
abbrev pub unsigned : ℕ → ℤ → ℕ
unsigned w (pos n) = n % 2 ^ w
unsigned w (negsuc n) = 2 ^ w - 1 - n % 2 ^ w
