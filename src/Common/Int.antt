-- ===== src/Common/Int.antt =====
-- Signed integers over the native numbers, under the library's names: the model of Go's int8,
-- int32 and int64 values. A value is an integer; where Go's arithmetic wraps, `wrap` is written out.
use buffer_full_flush_once.Common.{
  ℕ, suc, ◌+◌, ◌-◌, ◌^◌, ◌%◌, ◌≤◌, ◌≡◌, ◌↔◌, Bool, true, arith, ltb, leb, ◌==◌, if◌then◌else◌,
}

-- `negsuc n` is -(n + 1).
pub data ℤ : Type 0 where
  pos : ℕ → ℤ
  negsuc : ℕ → ℤ

abbrev pub pos_part : ℤ → ℕ
pos_part (pos n) = n
pos_part (negsuc n) = 0

abbrev pub neg_part : ℤ → ℕ
neg_part (pos n) = 0
neg_part (negsuc n) = suc n

abbrev pub sub_ℕ : ℕ → ℕ → ℤ
sub_ℕ a b = if leb b a then pos (a - b) else negsuc (b - a - 1)

infixl 65 ◌+ℤ◌
infix 50 ◌≤ℤ◌ ◌<ℤ◌
abbrev pub ◌+ℤ◌ : ℤ → ℤ → ℤ
a +ℤ b = sub_ℕ (pos_part a + pos_part b) (neg_part a + neg_part b)

abbrev pub ◌≤ℤ◌ : ℤ → ℤ → Type 0
a ≤ℤ b = pos_part a + neg_part b ≤ pos_part b + neg_part a

abbrev pub ◌<ℤ◌ : ℤ → ℤ → Type 0
a <ℤ b = suc (pos_part a + neg_part b) ≤ pos_part b + neg_part a

abbrev pub ltb_ℤ : ℤ → ℤ → Bool
ltb_ℤ a b = ltb (pos_part a + neg_part b) (pos_part b + neg_part a)

abbrev pub leb_ℤ : ℤ → ℤ → Bool
leb_ℤ a b = leb (pos_part a + neg_part b) (pos_part b + neg_part a)

abbrev pub eqb_ℤ : ℤ → ℤ → Bool
eqb_ℤ a b = (pos_part a + neg_part b) == (pos_part b + neg_part a)

-- The two's complement integer of `w + 1` bits that an integer is cut to.
abbrev pub wrap : ℕ → ℤ → ℤ
wrap w (pos n) =
    let m = n % 2 ^ (w + 1) in if ltb m (2 ^ w) then pos m else negsuc (2 ^ (w + 1) - 1 - m)
wrap w (negsuc n) =
    let m = n % 2 ^ (w + 1) in if ltb m (2 ^ w) then negsuc m else pos (2 ^ (w + 1) - 1 - m)

pub eqb_ℤ_iff : (a b : ℤ) → (eqb_ℤ a b ≡ true) ↔ (a ≡ b)
eqb_ℤ_iff a b = ground arith
