-- ===== src/Encoder.antt =====
-- zapcore/encoder.go: what encoders are configured with, and the interfaces ObjectEncoder and
-- ArrayEncoder as the calls that a marshaler makes on them.
pub mod Config
pub mod Calls
use buffer_full_flush_once.Common.{ℕ, Bool, Option, none, some, List, [], ◌∷◌, Result}
use buffer_full_flush_once.Common.Int.{ℤ}
use buffer_full_flush_once.Common.Bytes.{Bytes}

-- Floating-point values as strconv prints them.
pub data FloatKind : Type 0 where
  is_nan : FloatKind
  is_inf : FloatKind
  is_neg_inf : FloatKind
  is_finite : FloatKind

-- What the encoders use of the packages math, strconv, time and encoding/base64, and of the encoder
-- for values by reflection. Times and durations are nanoseconds. `float_text` has the bit size.
pub record Formats : Type 1 where
  pub Float : Type 0
  pub Complex : Type 0
  pub Reflected : Type 0
  pub kind : Float → FloatKind
  pub quotient : ℤ → ℕ → Float
  pub real : Complex → Float
  pub imag : Complex → Float
  pub is_negative : Float → Bool
  pub int_text : ℤ → Bytes
  pub uint_text : ℕ → Bytes
  pub float_text : Float → ℕ → Bytes
  pub time_text : ℤ → Bytes → Bytes
  pub duration_text : ℤ → Bytes
  pub base64 : Bytes → Bytes
  pub reflect : Reflected → Result Bytes Bytes

-- The calls of a PrimitiveArrayEncoder, and AppendTimeLayout. The calls for the sizes of integers
-- all widen their argument: `int` is for the signed ones and `uint` for the others.
pub data Prim (f : Formats) : Type 0 where
  bool : Bool → Prim f
  int : ℤ → Prim f
  uint : ℕ → Prim f
  float : f.Float → ℕ → Prim f
  complex : f.Complex → ℕ → Prim f
  string : Bytes → Prim f
  byte_string : Bytes → Prim f
  time_layout : ℤ → Bytes → Prim f
