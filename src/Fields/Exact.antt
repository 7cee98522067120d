-- ===== src/Fields/Exact.antt =====
-- Fields of values, and the calls that they make.
use buffer_full_flush_once.Common.{
  ℕ, ◌^◌, ◌<◌, ◌≡◌, refl, ◌∙◌, Bool, true, false, some, arith, ap, Bool-cases, inl, inr, ◌||◌,
}
use native.Mathlib.Nat.{mod-eq_of_lt}
use buffer_full_flush_once.Common.Int.{ℤ, pos, negsuc, ltb_ℤ, wrap}
use buffer_full_flush_once.Common.Bytes.{Bytes}
use buffer_full_flush_once.Encoder.{
  Formats, Prim, bool, int, uint, float, complex, string, byte_string,
}
use buffer_full_flush_once.Encoder.Calls.{
  ObjectCalls, done, add, add_binary, add_duration, add_time, and_then,
}
use buffer_full_flush_once.Fields.{Field, unsigned}
use buffer_full_flush_once.Fields.Adding.{Values, add_typed, add_to}
use buffer_full_flush_once.Fields.Making.{
  binary_field, bool_field, byte_string_field, complex128_field, complex64_field, float64_field,
  float32_field, int64_field, int32_field, int16_field, int8_field, string_field, uint64_field,
  uint32_field, uint16_field, uint8_field, uintptr_field, time_field, duration_field, min_time,
  max_time,
}

-- The values of the types that have a function of their own.
pub data Typed (f : Formats) : Type 0 where
  a_bool : Bool → Typed f
  an_int64 : ℤ → Typed f
  an_int32 : ℤ → Typed f
  an_int16 : ℤ → Typed f
  an_int8 : ℤ → Typed f
  a_uint64 : ℕ → Typed f
  a_uint32 : ℕ → Typed f
  a_uint16 : ℕ → Typed f
  a_uint8 : ℕ → Typed f
  a_uintptr : ℕ → Typed f
  a_float64 : f.Float → Typed f
  a_float32 : f.Float → Typed f
  a_complex128 : f.Complex → Typed f
  a_complex64 : f.Complex → Typed f
  a_string : Bytes → Typed f
  a_byte_string : Bytes → Typed f
  a_binary : Bytes → Typed f
  a_duration : ℤ → Typed f
  a_time : ℤ → Typed f

-- The integers of `w + 1` bits.
abbrev pub IsSigned : ℕ → ℤ → Type 0
IsSigned w (pos n) = n < 2 ^ w
IsSigned w (negsuc n) = n < 2 ^ w

wrap31 : (n : ℤ) → IsSigned 31 n → wrap 31 n ≡ n
wrap31 n h = ground arith

wrap15 : (n : ℤ) → IsSigned 15 n → wrap 15 n ≡ n
wrap15 n h = ground arith

wrap7 : (n : ℤ) → IsSigned 7 n → wrap 7 n ≡ n
wrap7 n h = ground arith

unsigned-wrap : (n : ℕ) → n < 2 ^ 64 → unsigned 64 (wrap 63 (pos n)) ≡ n
unsigned-wrap n h = ground arith

unsigned-pos : (w n : ℕ) → n < 2 ^ w → unsigned w (pos n) ≡ n
unsigned-pos w n h = mod-eq_of_lt h

wrap-time : (t : ℤ) → (ltb_ℤ t min_time || ltb_ℤ max_time t) ≡ false → wrap 63 t ≡ t
wrap-time t h = ground arith

module _ (f : Formats) (v : Values f) where
  -- Values that fit their type.
  abbrev pub IsInRange : Typed f → Type 0
  IsInRange (an_int32 n) = IsSigned 31 n
  IsInRange (an_int16 n) = IsSigned 15 n
  IsInRange (an_int8 n) = IsSigned 7 n
  IsInRange (a_uint64 n) = n < 2 ^ 64
  IsInRange (a_uint32 n) = n < 2 ^ 32
  IsInRange (a_uint16 n) = n < 2 ^ 16
  IsInRange (a_uint8 n) = n < 2 ^ 8
  IsInRange (a_uintptr n) = n < 2 ^ 64
  IsInRange (a_float64 x) =
      (v.float_bits 64 x < 2 ^ 64) × (v.float_from_bits 64 (v.float_bits 64 x) ≡ x)
  IsInRange (a_float32 x) =
      (v.float_bits 32 x < 2 ^ 32) × (v.float_from_bits 32 (v.float_bits 32 x) ≡ x)
  IsInRange t = Unit

  -- The field that is made for a value, by the function for its type.
  abbrev pub field_of : Bytes → Typed f → Field f
  field_of k (a_bool b) = bool_field f v k b
  field_of k (an_int64 n) = int64_field f v k n
  field_of k (an_int32 n) = int32_field f v k n
  field_of k (an_int16 n) = int16_field f v k n
  field_of k (an_int8 n) = int8_field f v k n
  field_of k (a_uint64 n) = uint64_field f v k n
  field_of k (a_uint32 n) = uint32_field f v k n
  field_of k (a_uint16 n) = uint16_field f v k n
  field_of k (a_uint8 n) = uint8_field f v k n
  field_of k (a_uintptr n) = uintptr_field f v k n
  field_of k (a_float64 x) = float64_field f v k x
  field_of k (a_float32 x) = float32_field f v k x
  field_of k (a_complex128 z) = complex128_field f v k z
  field_of k (a_complex64 z) = complex64_field f v k z
  field_of k (a_string s) = string_field f v k s
  field_of k (a_byte_string s) = byte_string_field f v k s
  field_of k (a_binary b) = binary_field f v k b
  field_of k (a_duration d) = duration_field f v k d
  field_of k (a_time t) = time_field f v k t

  -- The call that the value stands for.
  abbrev pub call_of : Bytes → Typed f → ObjectCalls f
  call_of k (a_bool b) = add k (bool b) done
  call_of k (an_int64 n) = add k (int n) done
  call_of k (an_int32 n) = add k (int n) done
  call_of k (an_int16 n) = add k (int n) done
  call_of k (an_int8 n) = add k (int n) done
  call_of k (a_uint64 n) = add k (uint n) done
  call_of k (a_uint32 n) = add k (uint n) done
  call_of k (a_uint16 n) = add k (uint n) done
  call_of k (a_uint8 n) = add k (uint n) done
  call_of k (a_uintptr n) = add k (uint n) done
  call_of k (a_float64 x) = add k (float x 64) done
  call_of k (a_float32 x) = add k (float x 32) done
  call_of k (a_complex128 z) = add k (complex z 64) done
  call_of k (a_complex64 z) = add k (complex z 32) done
  call_of k (a_string s) = add k (string s) done
  call_of k (a_byte_string s) = add k (byte_string s) done
  call_of k (a_binary b) = add_binary k b done
  call_of k (a_duration d) = add_duration k d done
  call_of k (a_time t) = add_time k t done

  -- A field of a value that fits its type makes one call, with that value, for times however far away.
  pub add_to-field_of :
      (k : Bytes) (t : Typed f) → IsInRange t → add_to f v (field_of k t) ≡ some (call_of k t)
  unfolding add_to add_typed and_then binary_field bool_field byte_string_field complex128_field
      complex64_field float64_field float32_field int64_field int32_field int16_field int8_field
      string_field uint64_field uint32_field uint16_field uint8_field uintptr_field time_field
      duration_field
  add_to-field_of k (a_bool true) h = refl
  add_to-field_of k (a_bool false) h = refl
  add_to-field_of k (an_int64 n) h = refl
  add_to-field_of k (an_int32 n) h = ap (λ m. some (add k (int m) done)) (wrap31 n h)
  add_to-field_of k (an_int16 n) h = ap (λ m. some (add k (int m) done)) (wrap15 n h)
  add_to-field_of k (an_int8 n) h = ap (λ m. some (add k (int m) done)) (wrap7 n h)
  add_to-field_of k (a_uint64 n) h = ap (λ m. some (add k (uint m) done)) (unsigned-wrap n h)
  add_to-field_of k (a_uint32 n) h = ap (λ m. some (add k (uint m) done)) (unsigned-pos 32 n h)
  add_to-field_of k (a_uint16 n) h = ap (λ m. some (add k (uint m) done)) (unsigned-pos 16 n h)
  add_to-field_of k (a_uint8 n) h = ap (λ m. some (add k (uint m) done)) (unsigned-pos 8 n h)
  add_to-field_of k (a_uintptr n) h = ap (λ m. some (add k (uint m) done)) (unsigned-wrap n h)
  add_to-field_of k (a_float64 x) (h, back) =
      ap (λ m. some (add k (float (v.float_from_bits 64 m) 64) done))
        (unsigned-wrap (v.float_bits 64 x) h)
      ∙ ap (λ y. some (add k (float y 64) done)) back
  add_to-field_of k (a_float32 x) (h, back) =
      ap (λ m. some (add k (float (v.float_from_bits 32 m) 32) done))
        (unsigned-pos 32 (v.float_bits 32 x) h)
      ∙ ap (λ y. some (add k (float y 32) done)) back
  add_to-field_of k (a_complex128 z) h = refl
  add_to-field_of k (a_complex64 z) h = refl
  add_to-field_of k (a_string s) h = refl
  add_to-field_of k (a_byte_string s) h = refl
  add_to-field_of k (a_binary b) h = refl
  add_to-field_of k (a_duration d) h = refl
  add_to-field_of k (a_time t) h = elim (Bool-cases (ltb_ℤ t min_time || ltb_ℤ max_time t)) [
    | inl far ↦ rw far refl
    | inr near ↦ rw near (ap (λ m. some (add_time k m done)) (wrap-time t near))
  ]
