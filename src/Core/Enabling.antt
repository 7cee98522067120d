-- ===== src/Core/Enabling.antt =====
-- Which cores a Check registers, and how that agrees with Enabled.
use buffer_full_flush_once.Common.{
  ◌≡◌, ◌≢◌, refl, ◌↔◌, true, false, Option, none, some, List, [], ◌∷◌, ◌++◌, Bool-cases, inl, inr,
  if◌then◌else◌,
}
use buffer_full_flush_once.Level.{Level, LevelEnabler}
use buffer_full_flush_once.WriteSyncer.{WriteSyncer}
use buffer_full_flush_once.Entry.{Entry}
use buffer_full_flush_once.Core.{
  Platform, Core, Cores, nop, io, multi, hooked, level_filter, sampler, lazy_with, nil, cons,
  core_enabled, any_enabled, Hook,
}
use buffer_full_flush_once.Core.Checking.{CheckedEntry, add_core, check, check_all, add_hooked}

module _ {p : Platform} where
  -- Cores made of NewCore, NewTee and NewIncreaseLevelCore, none of whose filters enables the level,
  -- in the state, while the core under it does not. NewIncreaseLevelCore makes sure of this for the
  -- supported levels, at the moment when it makes the filter.
  abbrev mutual
    pub IsLeveled : Core p → Level → p.State → Type 0
    IsLeveled nop lvl s = Unit
    IsLeveled (io enab enc out) lvl s = Unit
    IsLeveled (multi cores) lvl s = AllLeveled cores lvl s
    IsLeveled (hooked core funcs) lvl s = ⊥
    IsLeveled (level_filter core enab) lvl s =
        (enab.enabled lvl s ≡ true → core_enabled core lvl s ≡ true) × IsLeveled core lvl s
    IsLeveled (sampler core g) lvl s = ⊥
    IsLeveled (lazy_with original core fields once) lvl s = ⊥

    pub AllLeveled : Cores p → Level → p.State → Type 0
    AllLeveled nil lvl s = Unit
    AllLeveled (cons core cores) lvl s = IsLeveled core lvl s × AllLeveled cores lvl s

  -- The destinations that a core has for a level.
  abbrev mutual
    pub takers : Core p → Level → p.State → List (Core p)
    takers nop lvl s = []
    takers (io enab enc out) lvl s = if enab.enabled lvl s then io enab enc out ∷ [] else []
    takers (multi cores) lvl s = all_takers cores lvl s
    takers (hooked core funcs) lvl s = []
    takers (level_filter core enab) lvl s =
        let inner = takers core lvl s in if enab.enabled lvl s then inner else []
    takers (sampler core g) lvl s = []
    takers (lazy_with original core fields once) lvl s = []

    pub all_takers : Cores p → Level → p.State → List (Core p)
    all_takers nil lvl s = []
    all_takers (cons core cores) lvl s = takers core lvl s ++ all_takers cores lvl s

  -- The cores of a list added, one after the other.
  abbrev pub add_all : Option (CheckedEntry p) → Entry → List (Core p) → Option (CheckedEntry p)
  add_all ce ent [] = ce
  add_all ce ent (core ∷ cores) = add_all (add_core ce ent core) ent cores

  pub add_all-append :
      (ce : Option (CheckedEntry p)) (ent : Entry) (xs ys : List (Core p))
      → add_all ce ent (xs ++ ys) ≡ add_all (add_all ce ent xs) ent ys
  add_all-append ce ent [] ys = refl
  add_all-append ce ent (x ∷ xs) ys = add_all-append (add_core ce ent x) ent xs ys

  check_all-cons :
      (core : Core p) (cores : Cores p) (ent : Entry) (ce : Option (CheckedEntry p)) (s : p.State)
      → check_all (cons core cores) ent ce s
        ≡ check_all cores ent (check core ent ce s).0 (check core ent ce s).1
  unfolding check
  check_all-cons core cores ent ce s = refl

  check-takers_filter :
      (core : Core p) (enab : LevelEnabler p.State) (ent : Entry) (ce : Option (CheckedEntry p))
      (s : p.State)
      → check core ent ce s ≡ (add_all ce ent (takers core ent.level s), s)
      → check (level_filter core enab) ent ce s
        ≡ (add_all ce ent (takers (level_filter core enab) ent.level s), s)
  unfolding check
  check-takers_filter core enab ent ce s ih = elim (Bool-cases (enab.enabled ent.level s)) [
    | inl on ↦ rw on ih
    | inr off ↦ rw off refl
  ]

  check-takers_io :
      (enab : LevelEnabler p.State) (enc : p.Encoder) (out : WriteSyncer p.State p.m.Error)
      (ent : Entry) (ce : Option (CheckedEntry p)) (s : p.State)
      → check (io enab enc out) ent ce s
        ≡ (add_all ce ent (takers (io enab enc out) ent.level s), s)
  unfolding check
  check-takers_io enab enc out ent ce s = elim (Bool-cases (enab.enabled ent.level s)) [
    | inl on ↦ rw on refl
    | inr off ↦ rw off refl
  ]

  mutual
    unfolding check

    check-takers_rec :
        (core : Core p) (ent : Entry) (ce : Option (CheckedEntry p)) (s : p.State)
        → IsLeveled core ent.level s
        → check core ent ce s ≡ (add_all ce ent (takers core ent.level s), s)
    check-takers_rec nop ent ce s h = refl
    check-takers_rec (io enab enc out) ent ce s h = check-takers_io enab enc out ent ce s
    check-takers_rec (multi cores) ent ce s h = check_all-takers cores ent ce s h
    check-takers_rec (hooked core funcs) ent ce s h = absurd h
    check-takers_rec (level_filter core enab) ent ce s h =
        check-takers_filter core enab ent ce s (check-takers_rec core ent ce s h.1)
    check-takers_rec (sampler core g) ent ce s h = absurd h
    check-takers_rec (lazy_with original core fields once) ent ce s h = absurd h

    check_all-takers :
        (cores : Cores p) (ent : Entry) (ce : Option (CheckedEntry p)) (s : p.State)
        → AllLeveled cores ent.level s
        → check_all cores ent ce s ≡ (add_all ce ent (all_takers cores ent.level s), s)
    check_all-takers nil ent ce s h = refl
    check_all-takers (cons core cores) ent ce s h =
        let first = check-takers_rec core ent ce s h.0 in
        let rest = check_all-takers cores ent (add_all ce ent (takers core ent.level s)) s h.1 in
        let both = add_all-append ce ent (takers core ent.level s) (all_takers cores ent.level s) in
        rw (check_all-cons, first, rest, both) refl

  -- Check of a core made of NewCore, NewTee and NewIncreaseLevelCore, none of whose filters now
  -- enables the entry's level while the core under it does not, registers, in order, exactly the destinations whose own
  -- enabler and whose filters all enable the entry's level, and changes nothing else.
  pub check-takers :
      (core : Core p) (ent : Entry) (ce : Option (CheckedEntry p)) (s : p.State)
      → IsLeveled core ent.level s
      → check core ent ce s ≡ (add_all ce ent (takers core ent.level s), s)
  check-takers core ent ce s h = check-takers_rec core ent ce s h

  some-add_all :
      (ent : Entry) (xs : List (Core p)) (ce : CheckedEntry p) → add_all (some ce) ent xs ≢ none
  unfolding add_core
  some-add_all ent [] ce h = cc
  some-add_all ent (x ∷ xs) ce h = some-add_all ent xs _ h

  add_all-none : (ent : Entry) (xs : List (Core p)) → (add_all none ent xs ≡ none) ↔ (xs ≡ [])
  unfolding add_core
  add_all-none ent [] = (λ h. refl, λ h. refl)
  add_all-none ent (x ∷ xs) = (λ h. absurd (some-add_all ent xs _ h), λ h. cc)

  takers-enabled_filter :
      (core : Core p) (enab : LevelEnabler p.State) (lvl : Level) (s : p.State)
      → (enab.enabled lvl s ≡ true → core_enabled core lvl s ≡ true)
      → (takers core lvl s ≡ []) ↔ (core_enabled core lvl s ≡ false)
      → (takers (level_filter core enab) lvl s ≡ [])
        ↔ (core_enabled (level_filter core enab) lvl s ≡ false)
  unfolding core_enabled
  takers-enabled_filter core enab lvl s h ih = elim (Bool-cases (enab.enabled lvl s)) [
    | inl on ↦ (let core_on = h on in rw on (λ e. let core_off = ih.0 e in cc, λ e. cc))
    | inr off ↦ rw off (λ e. refl, λ e. refl)
  ]

  takers-enabled_io :
      (enab : LevelEnabler p.State) (enc : p.Encoder) (out : WriteSyncer p.State p.m.Error)
      (lvl : Level) (s : p.State)
      → (takers (io enab enc out) lvl s ≡ [])
        ↔ (core_enabled {p = p} (io enab enc out) lvl s ≡ false)
  unfolding core_enabled
  takers-enabled_io enab enc out lvl s = elim (Bool-cases (enab.enabled lvl s)) [
    | inl on ↦ rw on (λ e. cc, λ e. cc)
    | inr off ↦ rw off (λ e. refl, λ e. refl)
  ]

  append-eq-nil : (xs ys : List (Core p)) → xs ++ ys ≡ [] → xs ≡ []
  append-eq-nil [] ys h = refl
  append-eq-nil (x ∷ xs) ys h = cc

  takers-enabled_cons :
      (core : Core p) (cores : Cores p) (lvl : Level) (s : p.State)
      → (takers core lvl s ≡ []) ↔ (core_enabled core lvl s ≡ false)
      → (all_takers cores lvl s ≡ []) ↔ (any_enabled cores lvl s ≡ false)
      → (all_takers (cons core cores) lvl s ≡ []) ↔ (any_enabled (cons core cores) lvl s ≡ false)
  unfolding core_enabled
  takers-enabled_cons core cores lvl s first rest = elim (Bool-cases (core_enabled core lvl s)) [
    | inl on ↦ rw on (λ e. let core_off = first.0 (append-eq-nil _ _ e) in cc, λ e. cc)
    | inr off ↦ rw (off, first.1 off) rest
  ]

  mutual
    unfolding core_enabled

    takers-enabled :
        (core : Core p) (lvl : Level) (s : p.State)
        → IsLeveled core lvl s
        → (takers core lvl s ≡ []) ↔ (core_enabled core lvl s ≡ false)
    takers-enabled nop lvl s h = (λ e. refl, λ e. refl)
    takers-enabled (io enab enc out) lvl s h = takers-enabled_io enab enc out lvl s
    takers-enabled (multi cores) lvl s h = all_takers-enabled cores lvl s h
    takers-enabled (hooked core funcs) lvl s h = absurd h
    takers-enabled (level_filter core enab) lvl s h =
        takers-enabled_filter core enab lvl s h.0 (takers-enabled core lvl s h.1)
    takers-enabled (sampler core g) lvl s h = absurd h
    takers-enabled (lazy_with original core fields once) lvl s h = absurd h

    all_takers-enabled :
        (cores : Cores p) (lvl : Level) (s : p.State)
        → AllLeveled cores lvl s
        → (all_takers cores lvl s ≡ []) ↔ (any_enabled cores lvl s ≡ false)
    all_takers-enabled nil lvl s h = (λ e. refl, λ e. refl)
    all_takers-enabled (cons core cores) lvl s h =
        takers-enabled_cons core cores lvl s (takers-enabled core lvl s h.0)
          (all_takers-enabled cores lvl s h.1)

  -- Check of a core made of NewCore, NewTee and NewIncreaseLevelCore, none of whose filters now
  -- enables the entry's level while the core under it does not, returns nil for a nil checked entry exactly where the core is
  -- not enabled at the entry's level.
  pub check-enabled :
      (core : Core p) (ent : Entry) (s : p.State)
      → IsLeveled core ent.level s
      → ((check core ent none s).0 ≡ none) ↔ (core_enabled core ent.level s ≡ false)
  check-enabled core ent s h =
      let registered = add_all-none ent (takers core ent.level s) in
      let agree = takers-enabled core ent.level s h in
      rw (check-takers core ent none s h)
        (λ e. agree.0 (registered.0 e), λ e. registered.1 (agree.1 e))

  -- The hooks of a core made of NewCore, NewTee and NewIncreaseLevelCore, none of whose filters now
  -- enables the entry's level while the core under it does not, that is not enabled at the entry's
  -- level: Check does not register them for a nil checked entry, and does register them for one that
  -- another core has made.
  pub check-hooked_disabled :
      (core : Core p) (funcs : List (Hook p)) (ent : Entry) (ce : CheckedEntry p) (s : p.State)
      → IsLeveled core ent.level s
      → core_enabled core ent.level s ≡ false
      → (check (hooked core funcs) ent none s ≡ (none, s))
        × (check (hooked core funcs) ent (some ce) s
            ≡ (add_core (some ce) ent (hooked core funcs), s))
  unfolding check add_hooked
  check-hooked_disabled core funcs ent ce s h off =
      let nobody = (takers-enabled core ent.level s h).1 off in
      let without = check-takers core ent none s h in
      let with_one = check-takers core ent (some ce) s h in
      (rw (without, nobody) refl, rw (with_one, nobody) refl)
