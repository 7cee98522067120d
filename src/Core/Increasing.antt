-- ===== src/Core/Increasing.antt =====
-- What NewIncreaseLevelCore promises.
use mathlib.Core.Option.{some-injective}
use buffer_full_flush_once.Common.{
  ℕ, zero, suc, ◌≡◌, refl, ap, ◌⊎◌, Bool, true, false, not, ◌&&◌, Option, none, some, Bool-cases,
  Option-cases, inl, inr, arith, if◌then◌else◌, ok, err,
}
use buffer_full_flush_once.Common.Int.{pos, negsuc, ◌+ℤ◌, ◌≤ℤ◌, ◌<ℤ◌, eqb_ℤ, eqb_ℤ_iff}
use buffer_full_flush_once.Level.{Level, LevelEnabler, min_level, max_level}
use buffer_full_flush_once.Core.{
  Platform, Core, level_filter, core_enabled, first_increased, increased, new_increase_level,
}

abbrev pub IsSupported : Level → Type 0
IsSupported l = (min_level ≤ℤ l) × (l ≤ℤ max_level)

module _ (p : Platform) (core : Core p) (enab : LevelEnabler p.State) (s : p.State) where
  -- Whether the enabler enables a level that the core does not.
  abbrev pub Increases : Level → Type 0
  Increases l = (core_enabled core l s ≡ false) × (enab.enabled l s ≡ true)

  Increases-some :
      (a b : Bool) (l r : Level) (rest : Option Level)
      → (if not a && b then some l else rest) ≡ some r
      → ((l ≡ r) × (a ≡ false) × (b ≡ true)) ⊎ (rest ≡ some r)
  Increases-some true b l r rest h = inr h
  Increases-some false true l r rest h = inl (some-injective _ _ h, refl, refl)
  Increases-some false false l r rest h = inr h

  Increases-none :
      (a b : Bool) (l : Level) (rest : Option Level)
      → (if not a && b then some l else rest) ≡ none
      → (b ≡ true → a ≡ true) × (rest ≡ none)
  Increases-none true b l rest h = (λ on. refl, h)
  Increases-none false true l rest h = cc
  Increases-none false false l rest h = (λ on. cc, h)

  -- The loop from `l` down over `k` levels finds a level that the enabler alone enables.
  first_increased-some :
      (k : ℕ) (l r : Level)
      → first_increased k l core enab s ≡ some r
      → Increases r × (r ≤ℤ l) × (l <ℤ r +ℤ pos k)
  unfolding first_increased
  first_increased-some zero l r h = cc
  first_increased-some (suc k) l r h =
      elim (Increases-some (core_enabled core l s) (enab.enabled l s) l r _ h) [
        | inl (same, off, on) ↦
            (rw (← same) (off, on), rw same (omega arith), rw same (ground arith))
        | inr later ↦
            (let (increases, below, above) = first_increased-some k (l +ℤ negsuc 0) r later in
              (increases, ground (arith, below), ground (arith, above)))
      ]

  first_increased-none :
      (k : ℕ) (l r : Level)
      → first_increased k l core enab s ≡ none
      → r ≤ℤ l
      → l <ℤ r +ℤ pos k
      → enab.enabled r s ≡ true
      → core_enabled core r s ≡ true
  unfolding first_increased
  first_increased-none zero l r h below above on = absurd (ground arith)
  first_increased-none (suc k) l r h below above on =
      let (here, later) = Increases-none (core_enabled core l s) (enab.enabled l s) l _ h in
      elim (Bool-cases (eqb_ℤ l r)) [
        | inl same ↦ (let e = (eqb_ℤ_iff l r).0 same in rw (← e) (here (rw e on)))
        | inr other ↦
            first_increased-none k (l +ℤ negsuc 0) r later (ground arith) (ground arith) on
      ]

  -- NewIncreaseLevelCore makes the filter exactly if the core is core_enabled at each supported level
  -- that the filter enables; otherwise it fails and names such a level.
  pub new_increase_level_lem :
      ((new_increase_level core enab s ≡ ok (level_filter core enab))
        × ((l : Level) → IsSupported l → enab.enabled l s ≡ true → core_enabled core l s ≡ true))
      ⊎ ((l : Level) × (new_increase_level core enab s ≡ err (p.increase_error l))
          × IsSupported l
          × Increases l)
  unfolding new_increase_level increased
  new_increase_level_lem = elim (Option-cases (first_increased 7 max_level core enab s)) [
    | inl e ↦ inl (
      ap (increased core enab) e,
      λ l supported on.
          first_increased-none 7 max_level l e supported.1 (ground (arith, supported.0)) on,
    )
    | inr (l, e) ↦
        (let (increases, below, above) = first_increased-some 7 max_level l e in
          inr (l, ap (increased core enab) e, (ground (arith, above), below), increases))
  ]
