-- ===== src/Json/Fuel.antt =====
-- The rounds of the loop of `safeAppendStringLike`.
use buffer_full_flush_once.Common.{
  ℕ, zero, suc, ◌≤◌, ◌≡◌, refl, [], ◌∷◌, ◌++◌, arith, leb, leb→le, length, length-drop, take, drop,
  Bool-cases, inl, inr,
}
use buffer_full_flush_once.Common.Bytes.{Bytes, codes}
use buffer_full_flush_once.Json.Escape.{Utf8, escaped, append_from}

module _ (u : Utf8) where
  -- However many rounds are allowed, from as many as the bytes that are left on, the text is the same.
  pub append_from-enough :
      (k m : ℕ) (s pending buf : Bytes)
      → length s ≤ k
      → length s ≤ m
      → append_from u k s pending buf ≡ append_from u m s pending buf
  unfolding append_from
  append_from-enough zero zero [] pending buf h h' = refl
  append_from-enough zero (suc m) [] pending buf h h' = refl
  append_from-enough (suc k) zero [] pending buf h h' = refl
  append_from-enough (suc k) (suc m) [] pending buf h h' = refl
  append_from-enough zero m (c ∷ s) pending buf h h' = absurd (omega (arith, h))
  append_from-enough (suc k) zero (c ∷ s) pending buf h h' = absurd (omega (arith, h'))
  append_from-enough (suc k) (suc m) (c ∷ s) pending buf h h' =
      let size = (u.decode_rune (c ∷ s)).1 in
      elim (Bool-cases (leb 128 c)) [
        | inl high ↦
            let left = length-drop size (c ∷ s) in
            let taken = u.size-pos c s (leb→le 128 c high) in
            rw
              (
                high,
                append_from-enough k m (drop size (c ∷ s)) (pending ++ take size (c ∷ s)) buf
                    (omega (arith, left, taken)) (omega (arith, left, taken)),
                append_from-enough k m s [] ((buf ++ pending) ++ codes "\\ufffd") (omega arith)
                    (omega arith),
              )
              refl
        | inr low ↦
            rw
              (
                low,
                append_from-enough k m s (pending ++ (c ∷ [])) buf (omega arith) (omega arith),
                append_from-enough k m s [] ((buf ++ pending) ++ escaped c) (omega arith)
                    (omega arith),
              )
              refl
      ]
