-- ===== src/Common/Bytes.antt =====
-- Go strings and byte slices: lists of numbers, read as bytes.
use Prim.Native.Char.{code}
use buffer_full_flush_once.Common.{
  ℕ, String, ◌≡◌, ◌↔◌, Bool, true, false, ◌&&◌, List, [], ◌∷◌, arith, ◌==◌,
}

abbrev pub Bytes : Type 0
Bytes = List ℕ

-- The code points of a literal: its bytes, if it is ASCII.
abbrev pub codes : String → Bytes
codes String.[] = []
codes (String.◌∷◌ c s) = code c ∷ codes s

-- `a == b` on strings.
abbrev pub bytes_eq : Bytes → Bytes → Bool
bytes_eq [] [] = true
bytes_eq [] (b ∷ t) = false
bytes_eq (a ∷ s) [] = false
bytes_eq (a ∷ s) (b ∷ t) = (a == b) && bytes_eq s t

pub bytes_eq_iff : (s t : Bytes) → (bytes_eq s t ≡ true) ↔ (s ≡ t)
bytes_eq_iff [] [] = ground arith
bytes_eq_iff [] (b ∷ t) = ground arith
bytes_eq_iff (a ∷ s) [] = ground arith
bytes_eq_iff (a ∷ s) (b ∷ t) = ground (arith, bytes_eq_iff s t)

abbrev pub is_empty : Bytes → Bool
is_empty [] = true
is_empty (c ∷ s) = false
