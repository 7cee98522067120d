-- ===== src/Core/Tee.antt =====
-- What the cores of NewTee promise.
use buffer_full_flush_once.Common.{
  ◌≡◌, refl, ◌↔◌, true, Option, none, List, [], ◌∷◌, All, Any, Bool-cases, inl, inr,
}
use buffer_full_flush_once.Entry.{Entry}
use buffer_full_flush_once.Level.{Level, max_level, invalid_level, fatal_level}
use buffer_full_flush_once.Core.{
  Platform, Core, Cores, nil, cons, multi, core_enabled, any_enabled, core_level, least_level,
}
use buffer_full_flush_once.Core.Writing.{write_core, write_cores}
use buffer_full_flush_once.Core.Checking.{write_each}
use buffer_full_flush_once.Core.Once.{core_outcomes, write_each-outcomes}

abbrev pub to_list : {p : Platform} → Cores p → List (Core p)
to_list nil = []
to_list (cons core cores) = core ∷ to_list cores

module _ (p : Platform) where
  write_cores-write_each :
      (cores : Cores p) (ent : Entry) (fields : List p.Field) (e : Option p.m.Error) (s : p.State)
      → write_cores cores ent fields e s ≡ write_each p (to_list cores) ent fields e s
  unfolding write_cores write_each
  write_cores-write_each nil ent fields e s = refl
  write_cores-write_each (cons core cores) ent fields e s =
      let (e', s') = write_core core ent fields s in
      write_cores-write_each cores ent fields (p.m.append e e') s'

  -- Write of a multiCore writes the entry to every core, once and in order, whatever the cores
  -- before it returned; it returns nil exactly when all did.
  pub write_core-multi :
      (cores : Cores p) (ent : Entry) (fields : List p.Field) (s : p.State)
      → let (errors, s') = core_outcomes p (to_list cores) ent fields s in
        ((write_core (multi cores) ent fields s).1 ≡ s')
        × (((write_core (multi cores) ent fields s).0 ≡ none) ↔ All (λ e. e ≡ none) errors)
  unfolding write_core
  write_core-multi cores ent fields s =
      let (state, errors) = write_each-outcomes p (to_list cores) ent fields none s in
      rw (write_cores-write_each cores ent fields none s)
        (state, (λ h. (errors.0 h).1, λ h. errors.1 (refl, h)))

  any_enabled-to_list :
      (cores : Cores p) (lvl : Level) (s : p.State)
      → (any_enabled cores lvl s ≡ true)
        ↔ Any (λ core. core_enabled core lvl s ≡ true) (to_list cores)
  unfolding any_enabled
  any_enabled-to_list nil lvl s = (λ h. cc, λ h. absurd h)
  any_enabled-to_list (cons core cores) lvl s =
      let ih = any_enabled-to_list cores lvl s in
      elim (Bool-cases (core_enabled core lvl s)) [
        | inl on ↦ rw on (λ h. inl refl, λ h. refl)
        | inr off ↦
            rw off (λ h. inr (ih.0 h), λ h. elim h [ inl wrong ↦ cc | inr rest ↦ ih.1 rest ])
      ]

  -- A multiCore is core_enabled at a level exactly when one of its cores is.
  pub enabled-multi :
      (cores : Cores p) (lvl : Level) (s : p.State)
      → (core_enabled (multi cores) lvl s ≡ true)
        ↔ Any (λ core. core_enabled core lvl s ≡ true) (to_list cores)
  unfolding core_enabled
  enabled-multi cores lvl s = any_enabled-to_list cores lvl s

  least_level-disabled :
      (cores : Cores p) (s : p.State)
      → All (λ core. core_level core s ≡ invalid_level) (to_list cores)
      → least_level cores max_level s ≡ max_level
  unfolding least_level
  least_level-disabled nil s h = refl
  least_level-disabled (cons core cores) s (now, rest) = rw now (least_level-disabled cores s rest)

  -- A multiCore all of whose cores have the level InvalidLevel, which is that of a core that no
  -- level enables, has the level FatalLevel.
  pub core_level-multi_disabled :
      (cores : Cores p) (s : p.State)
      → All (λ core. core_level core s ≡ invalid_level) (to_list cores)
      → core_level (multi cores) s ≡ fatal_level
  unfolding core_level
  core_level-multi_disabled cores s h = least_level-disabled cores s h
