-- ===== src/Fields/Arrays.antt =====
-- array.go, error.go: the marshalers of slices, and their fields.
use buffer_full_flush_once.Common.{ℕ, Bool, Option, none, some, List, [], ◌∷◌, ◌>>=◌}
use buffer_full_flush_once.Common.Int.{ℤ}
use buffer_full_flush_once.Common.Bytes.{Bytes}
use buffer_full_flush_once.Encoder.{
  Formats, Prim, bool, int, uint, float, complex, string, byte_string,
}
use buffer_full_flush_once.Encoder.Calls.{
  ArrayCalls, end, append, append_duration, append_time, append_object,
}
use buffer_full_flush_once.Fields.{
  Said, says, nil_panic, panic, ErrorValues, no_errors, nil_error, one_error, ObjectMarshaler,
  ArrayMarshaler, Field,
}
use buffer_full_flush_once.Fields.Errors.{append_element}
use buffer_full_flush_once.Fields.Adding.{Values, add_to}
use buffer_full_flush_once.Fields.Making.{array_field, error_field}

module _ (f : Formats) (v : Values f) where
  abbrev pub never_fails : ArrayCalls f → ArrayMarshaler f
  never_fails calls = record { array_calls = calls; array_error = none }

  -- The loops of the marshalers.
  unfoldable pub bools : List Bool → ArrayCalls f
  bools [] = end
  bools (b ∷ bs) = append (bool b) (bools bs)

  unfoldable pub byte_strings_array : List Bytes → ArrayCalls f
  byte_strings_array [] = end
  byte_strings_array (b ∷ bs) = append (byte_string b) (byte_strings_array bs)

  unfoldable pub complex128s : List f.Complex → ArrayCalls f
  complex128s [] = end
  complex128s (z ∷ zs) = append (complex z 64) (complex128s zs)

  unfoldable pub complex64s : List f.Complex → ArrayCalls f
  complex64s [] = end
  complex64s (z ∷ zs) = append (complex z 32) (complex64s zs)

  unfoldable pub durations : List ℤ → ArrayCalls f
  durations [] = end
  durations (d ∷ ds) = append_duration d (durations ds)

  unfoldable pub float64s : List f.Float → ArrayCalls f
  float64s [] = end
  float64s (x ∷ xs) = append (float x 64) (float64s xs)

  unfoldable pub float32s : List f.Float → ArrayCalls f
  float32s [] = end
  float32s (x ∷ xs) = append (float x 32) (float32s xs)

  -- `ints`, `int64s`, `int32s`, `int16s` and `int8s`.
  unfoldable pub ints : List ℤ → ArrayCalls f
  ints [] = end
  ints (n ∷ ns) = append (int n) (ints ns)

  -- `uints`, `uint64s`, `uint32s`, `uint16s`, `uint8s` and `uintptrs`.
  unfoldable pub uints : List ℕ → ArrayCalls f
  uints [] = end
  uints (n ∷ ns) = append (uint n) (uints ns)

  unfoldable pub string_array : List Bytes → ArrayCalls f
  string_array [] = end
  string_array (s ∷ ss) = append (string s) (string_array ss)

  unfoldable pub times : List ℤ → ArrayCalls f
  times [] = end
  times (t ∷ ts) = append_time t (times ts)

  -- `objects`: the loop ends at a marshaler's error.
  unfoldable pub marshal_objects : List (ObjectMarshaler f) → ArrayMarshaler f
  marshal_objects [] = never_fails end
  marshal_objects (m ∷ ms) = append_element f m (marshal_objects ms)

  -- `objectValues`: the methods `P` of the pointer to each value, in the same loop.
  unfoldable pub object_values : {T : Type 0} → (T → ObjectMarshaler f) → List T → ArrayMarshaler f
  object_values p [] = never_fails end
  object_values p (o ∷ os) = append_element f (p o) (object_values p os)

  -- `stringers`: nothing recovers where a String method panics.
  unfoldable pub stringers : List Said → Option (ArrayCalls f)
  stringers [] = some end
  stringers (says s ∷ rest) = stringers rest >>= (λ calls. some (append (string s) calls))
  stringers (nil_panic ∷ rest) = none
  stringers (panic p ∷ rest) = none

  -- `errArray.MarshalLogArray` of error.go.
  unfoldable pub err_array : ErrorValues → Option (ArrayCalls f)
  err_array no_errors = some end
  err_array (nil_error rest) = err_array rest
  err_array (one_error e rest) =
      let more = err_array rest in
      add_to f v (error_field f v (some e))
      >>= (λ calls. more >>= (λ tail. some (append_object calls tail)))

  unfoldable pub bools_field : Bytes → List Bool → Field f
  unfolding array_field bools
  bools_field k bs = array_field f v k (never_fails (bools bs))

  unfoldable pub byte_strings_field : Bytes → List Bytes → Field f
  unfolding array_field byte_strings_array
  byte_strings_field k bs = array_field f v k (never_fails (byte_strings_array bs))

  unfoldable pub complex128s_field : Bytes → List f.Complex → Field f
  unfolding array_field complex128s
  complex128s_field k zs = array_field f v k (never_fails (complex128s zs))

  unfoldable pub complex64s_field : Bytes → List f.Complex → Field f
  unfolding array_field complex64s
  complex64s_field k zs = array_field f v k (never_fails (complex64s zs))

  unfoldable pub durations_field : Bytes → List ℤ → Field f
  unfolding array_field durations
  durations_field k ds = array_field f v k (never_fails (durations ds))

  unfoldable pub float64s_field : Bytes → List f.Float → Field f
  unfolding array_field float64s
  float64s_field k xs = array_field f v k (never_fails (float64s xs))

  unfoldable pub float32s_field : Bytes → List f.Float → Field f
  unfolding array_field float32s
  float32s_field k xs = array_field f v k (never_fails (float32s xs))

  -- `Ints`, `Int64s`, `Int32s`, `Int16s` and `Int8s`.
  unfoldable pub ints_field : Bytes → List ℤ → Field f
  unfolding array_field ints
  ints_field k ns = array_field f v k (never_fails (ints ns))

  -- `Uints`, `Uint64s`, `Uint32s`, `Uint16s`, `Uint8s` and `Uintptrs`.
  unfoldable pub uints_field : Bytes → List ℕ → Field f
  unfolding array_field uints
  uints_field k ns = array_field f v k (never_fails (uints ns))

  unfoldable pub strings_field : Bytes → List Bytes → Field f
  unfolding array_field string_array
  strings_field k ss = array_field f v k (never_fails (string_array ss))

  unfoldable pub times_field : Bytes → List ℤ → Field f
  unfolding array_field times
  times_field k ts = array_field f v k (never_fails (times ts))

  -- `Objects`.
  unfoldable pub objects_field : Bytes → List (ObjectMarshaler f) → Field f
  unfolding array_field marshal_objects
  objects_field k ms = array_field f v k (marshal_objects ms)

  -- `ObjectValues`.
  unfoldable pub object_values_field :
      {T : Type 0} → (T → ObjectMarshaler f) → Bytes → List T → Field f
  unfolding array_field object_values
  object_values_field p k os = array_field f v k (object_values p os)

  -- `Stringers`, where no String method panics.
  unfoldable pub stringers_field : Bytes → List Said → Option (Field f)
  unfolding array_field stringers
  stringers_field k rest =
      stringers rest >>= (λ calls. some (array_field f v k (never_fails calls)))

  -- `Errors`, where no element panics.
  unfoldable pub errors_field : Bytes → ErrorValues → Option (Field f)
  unfolding array_field err_array
  errors_field k es = err_array es >>= (λ calls. some (array_field f v k (never_fails calls)))
