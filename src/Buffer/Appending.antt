-- ===== src/Buffer/Appending.antt =====
-- buffer/buffer.go: what a buffer of the pool holds after a sequence of appends.
use mathlib.Core.List.{flatten}
use buffer_full_flush_once.Common.{
  ℕ, List, [], ◌∷◌, ◌++◌, map, ◌≡◌, refl, sym, ap, ◌∙◌, append-nil, append_assoc,
}
use buffer_full_flush_once.Common.Bytes.{Bytes}
use buffer_full_flush_once.Encoder.{Formats}
use buffer_full_flush_once.Buffer.{
  Buffer, Append, append_byte, append_bytes, append_int, append_time, append_uint, append_bool,
  append_float, append_to_buffer, bool_digits, reset_buffer, BufferPool, get_buffer,
}

module _ (f : Formats) where
  -- The text that an append stands for.
  abbrev pub text_of : Append f → Bytes
  text_of (append_byte c) = c ∷ []
  text_of (append_bytes text) = text
  text_of (append_int n) = f.int_text n
  text_of (append_time t layout) = f.time_text t layout
  text_of (append_uint n) = f.uint_text n
  text_of (append_bool v) = bool_digits v
  text_of (append_float x bits) = f.float_text x bits

  abbrev pub append_each : List (Append f) → Buffer → Buffer
  append_each [] b = b
  append_each (a ∷ appends) b = append_each appends (append_to_buffer f a b)

  append_to_buffer-bs :
      (a : Append f) (b : Buffer) → (append_to_buffer f a b).bs ≡ b.bs ++ text_of a
  unfolding append_to_buffer
  append_to_buffer-bs (append_byte c) b = refl
  append_to_buffer-bs (append_bytes text) b = refl
  append_to_buffer-bs (append_int n) b = refl
  append_to_buffer-bs (append_time t layout) b = refl
  append_to_buffer-bs (append_uint n) b = refl
  append_to_buffer-bs (append_bool v) b = refl
  append_to_buffer-bs (append_float x bits) b = refl

  append_each-bs :
      (appends : List (Append f)) (b : Buffer)
      → (append_each appends b).bs ≡ b.bs ++ flatten (map text_of appends)
  unfolding flatten
  append_each-bs [] b = sym (append-nil b.bs)
  append_each-bs (a ∷ appends) b =
      append_each-bs appends (append_to_buffer f a b)
      ∙ ap (λ bs. bs ++ flatten (map text_of appends)) (append_to_buffer-bs a b)
      ∙ append_assoc b.bs (text_of a) (flatten (map text_of appends))

  -- A buffer that a pool hands out, whichever buffers were put there with whatever they held, and
  -- whichever of them the pool chooses, holds after a sequence of appends their texts in order, and
  -- nothing else.
  pub get_buffer-append_each :
      (pool : BufferPool) (i : ℕ) (appends : List (Append f))
      → (append_each appends (get_buffer i pool).0).bs ≡ flatten (map text_of appends)
  unfolding get_buffer reset_buffer
  get_buffer-append_each pool i appends = append_each-bs appends (get_buffer i pool).0
