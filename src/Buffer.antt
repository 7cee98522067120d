-- ===== src/Buffer.antt =====
-- buffer/buffer.go and buffer/pool.go: byte buffers, and the pool that hands them out. A slice is the
-- list of its bytes: its capacity, and what shares its array, are not modelled.
pub mod Appending
mod Tests
use buffer_full_flush_once.Common.{
  ℕ, zero, suc, Bool, true, false, Option, none, some, List, [], ◌∷◌, ◌++◌, length,
}
use buffer_full_flush_once.Common.Int.{ℤ}
use buffer_full_flush_once.Common.Bytes.{Bytes, codes}
use buffer_full_flush_once.Encoder.{Formats}
use buffer_full_flush_once.Json.{trim_newline}

pub record Buffer : Type 0 where
  pub bs : Bytes

-- The methods that append to a buffer.
pub data Append (f : Formats) : Type 0 where
  append_byte : ℕ → Append f
  append_bytes : Bytes → Append f
  append_int : ℤ → Append f
  append_time : ℤ → Bytes → Append f
  append_uint : ℕ → Append f
  append_bool : Bool → Append f
  append_float : f.Float → ℕ → Append f

abbrev pub added : Bytes → Buffer → Buffer
added text b = record b { bs = b.bs ++ text }

-- What strconv writes of a Boolean.
abbrev pub bool_digits : Bool → Bytes
bool_digits true = codes "true"
bool_digits false = codes "false"

-- What each of them does: AppendByte, AppendBytes, which is AppendString too, AppendInt, AppendTime,
-- AppendUint, AppendBool and AppendFloat.
unfoldable pub append_to_buffer : (f : Formats) → Append f → Buffer → Buffer
append_to_buffer f (append_byte c) b = added (c ∷ []) b
append_to_buffer f (append_bytes text) b = added text b
append_to_buffer f (append_int n) b = added (f.int_text n) b
append_to_buffer f (append_time t layout) b = added (f.time_text t layout) b
append_to_buffer f (append_uint n) b = added (f.uint_text n) b
append_to_buffer f (append_bool v) b = added (bool_digits v) b
append_to_buffer f (append_float x bits) b = added (f.float_text x bits) b

-- `Len`, and `Bytes`, which is `String` too.
unfoldable pub buffer_len : Buffer → ℕ
buffer_len b = length b.bs

unfoldable pub buffer_bytes : Buffer → Bytes
buffer_bytes b = b.bs

unfoldable pub reset_buffer : Buffer → Buffer
reset_buffer b = record b { bs = [] }

-- `Write`, which is `WriteString` too, and `WriteByte`: no error is returned.
unfoldable pub write_buffer : Bytes → Buffer → ℕ × Buffer
write_buffer text b = (length text, added text b)

unfoldable pub write_byte : ℕ → Buffer → Buffer
write_byte c b = added (c ∷ []) b

-- `TrimNewline`.
unfoldable pub trim_buffer : Buffer → Buffer
trim_buffer b = record b { bs = trim_newline b.bs }

-- `Pool`: the buffers that were put there.
abbrev pub BufferPool : Type 0
BufferPool = List Buffer

abbrev pub new_pool : BufferPool
new_pool = []

-- What sync.Pool hands out: the buffer at a place that it chooses, or none.
abbrev pub taken : ℕ → BufferPool → Option (Buffer × BufferPool)
taken i [] = none
taken zero (b ∷ pool) = some (b, pool)
taken (suc i) (b ∷ pool) = elim (taken i pool) [
  | none ↦ none
  | some (found, rest) ↦ some (found, b ∷ rest)
]

abbrev pub or_new_buffer : Option (Buffer × BufferPool) → BufferPool → Buffer × BufferPool
or_new_buffer none pool = (record { bs = [] }, pool)
or_new_buffer (some (b, rest)) pool = (b, rest)

-- `Get`, with the choice of sync.Pool.
unfoldable pub get_buffer : ℕ → BufferPool → Buffer × BufferPool
get_buffer i pool = let (b, rest) = or_new_buffer (taken i pool) pool in (reset_buffer b, rest)

-- `Free`, which puts the buffer back.
unfoldable pub free_buffer : Buffer → BufferPool → BufferPool
free_buffer b pool = b ∷ pool
