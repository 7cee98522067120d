-- ===== src/Level/Least.antt =====
-- `LevelOf` returns the least enabled level.
use Prim.Native.Nat.{ℕ, zero, suc}
use mathlib.Core.Path.{subst}
use buffer_full_flush_once.Common.{
  sym, ◌≡◌, refl, true, false, none, arith, ◌⊎◌, inl, inr, Bool-cases,
}
use buffer_full_flush_once.Common.Int.{pos, ◌+ℤ◌, ◌≤ℤ◌, ◌<ℤ◌, eqb_ℤ, eqb_ℤ_iff}
use buffer_full_flush_once.Level.{
  Level, LevelEnabler, static, scan_levels, level_of, min_level, max_level, invalid_level,
}

-- `r` is the least level from `lo` on that `e` enables, or `InvalidLevel` if there is none.
pub record IsLeast {S : Type 0} (e : LevelEnabler S) (s : S) (lo r : Level) : Type 0 where
  pub from : lo ≤ℤ r
  pub upto : r ≤ℤ invalid_level
  pub below : (l : Level) → lo ≤ℤ l → l <ℤ r → e.enabled l s ≡ false
  pub found : (r ≡ invalid_level) ⊎ (e.enabled r s ≡ true)

module _ {S : Type 0} (e : LevelEnabler S) (s : S) where
  at_or_after :
      (lo l : Level)
      → e.enabled lo s ≡ false
      → lo ≤ℤ l
      → (lo +ℤ pos 1 ≤ℤ l → e.enabled l s ≡ false)
      → e.enabled l s ≡ false
  at_or_after lo l off p later = elim (Bool-cases (eqb_ℤ lo l)) [
    | inl same ↦ rw (← (eqb_ℤ_iff lo l).0 same) off
    | inr other ↦ later (ground arith)
  ]

  scan_levels-IsLeast :
      (k : ℕ) (lo : Level) → lo +ℤ pos k ≡ invalid_level → IsLeast e s lo (scan_levels k lo e s)
  unfolding scan_levels
  scan_levels-IsLeast zero lo h =
      let end : lo ≡ invalid_level = ground arith in
      record {
        from = ground arith;
        upto = omega arith;
        below = λ l p q. absurd (ground arith);
        found = inl refl;
      }
  scan_levels-IsLeast (suc k) lo h = elim (Bool-cases (e.enabled lo s)) [
    | inl on ↦ rw on (record {
      from = omega arith;
      upto = ground arith;
      below = λ l p q. absurd (omega arith);
      found = inr on;
    })
    | inr off ↦
        let rest = scan_levels-IsLeast k (lo +ℤ pos 1) (ground arith) in
        rw off (record {
          from = ground (arith, rest.from);
          upto = rest.upto;
          below = λ l p q. at_or_after lo l off p (λ p'. rest.below l p' q);
          found = rest.found;
        })
  ]

  level_of-scan : e.level ≡ none → level_of e s ≡ scan_levels 7 min_level e s
  unfolding level_of
  level_of-scan h = ground arith

  -- `LevelOf` of an enabler with no method `Level` is the least level that it enables among those
  -- that zap supports, and `InvalidLevel` if it enables none of them.
  pub level_of-IsLeast : e.level ≡ none → IsLeast e s min_level (level_of e s)
  level_of-IsLeast h =
      subst (IsLeast e s min_level) (sym (level_of-scan h)) (scan_levels-IsLeast 7 min_level refl)

-- For a supported level, `LevelOf` is the level itself.
pub level_of-static :
    {S : Type 0} (l : Level) (s : S) → min_level ≤ℤ l → l ≤ℤ max_level → level_of (static l) s ≡ l
level_of-static {S} l s lo hi =
    let least = level_of-IsLeast (static {S = S} l) s refl in
    ground (arith, least.from, least.upto, least.found, least.below l lo)
