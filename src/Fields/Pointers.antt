-- ===== src/Fields/Pointers.antt =====
-- field.go: the functions that make fields of pointers, where a nil pointer is `none`, and of stacks.
use buffer_full_flush_once.Common.{ℕ, Bool, Option}
use buffer_full_flush_once.Common.Int.{ℤ, pos, ◌+ℤ◌}
use buffer_full_flush_once.Common.Bytes.{Bytes}
use buffer_full_flush_once.Encoder.{Formats}
use buffer_full_flush_once.Logger.{Runtime}
use buffer_full_flush_once.Logger.Stacks.{take_trace}
use buffer_full_flush_once.Fields.{Field}
use buffer_full_flush_once.Fields.Adding.{Values}
use buffer_full_flush_once.Fields.Making.{
  pointer_field, bool_field, complex128_field, complex64_field, float64_field, float32_field,
  int_field, int64_field, int32_field, int16_field, int8_field, string_field, uint_field,
  uint64_field, uint32_field, uint16_field, uint8_field, uintptr_field, time_field, duration_field,
}

module _ (f : Formats) (v : Values f) where
  unfoldable pub boolp_field : Bytes → Option Bool → Field f
  boolp_field = pointer_field f v (bool_field f v)

  unfoldable pub complex128p_field : Bytes → Option f.Complex → Field f
  complex128p_field = pointer_field f v (complex128_field f v)

  unfoldable pub complex64p_field : Bytes → Option f.Complex → Field f
  complex64p_field = pointer_field f v (complex64_field f v)

  unfoldable pub float64p_field : Bytes → Option f.Float → Field f
  float64p_field = pointer_field f v (float64_field f v)

  unfoldable pub float32p_field : Bytes → Option f.Float → Field f
  float32p_field = pointer_field f v (float32_field f v)

  unfoldable pub intp_field : Bytes → Option ℤ → Field f
  intp_field = pointer_field f v (int_field f v)

  unfoldable pub int64p_field : Bytes → Option ℤ → Field f
  int64p_field = pointer_field f v (int64_field f v)

  unfoldable pub int32p_field : Bytes → Option ℤ → Field f
  int32p_field = pointer_field f v (int32_field f v)

  unfoldable pub int16p_field : Bytes → Option ℤ → Field f
  int16p_field = pointer_field f v (int16_field f v)

  unfoldable pub int8p_field : Bytes → Option ℤ → Field f
  int8p_field = pointer_field f v (int8_field f v)

  unfoldable pub stringp_field : Bytes → Option Bytes → Field f
  stringp_field = pointer_field f v (string_field f v)

  unfoldable pub uintp_field : Bytes → Option ℕ → Field f
  uintp_field = pointer_field f v (uint_field f v)

  unfoldable pub uint64p_field : Bytes → Option ℕ → Field f
  uint64p_field = pointer_field f v (uint64_field f v)

  unfoldable pub uint32p_field : Bytes → Option ℕ → Field f
  uint32p_field = pointer_field f v (uint32_field f v)

  unfoldable pub uint16p_field : Bytes → Option ℕ → Field f
  uint16p_field = pointer_field f v (uint16_field f v)

  unfoldable pub uint8p_field : Bytes → Option ℕ → Field f
  uint8p_field = pointer_field f v (uint8_field f v)

  unfoldable pub uintptrp_field : Bytes → Option ℕ → Field f
  uintptrp_field = pointer_field f v (uintptr_field f v)

  unfoldable pub timep_field : Bytes → Option ℤ → Field f
  timep_field = pointer_field f v (time_field f v)

  unfoldable pub durationp_field : Bytes → Option ℤ → Field f
  durationp_field = pointer_field f v (duration_field f v)

  -- `StackSkip`, and `Stack`.
  unfoldable pub stack_skip_field : Runtime → Bytes → ℤ → Field f
  stack_skip_field rt k skip = string_field f v k (take_trace rt (skip +ℤ pos 1))

  unfoldable pub stack_field : Runtime → Bytes → Field f
  stack_field rt k = stack_skip_field rt k (pos 1)
