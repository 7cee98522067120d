-- ===== src/Core/Fresh.antt =====
-- What Check leaves alone in a checked entry: the entry, its mark, and the hook to run at the end.
use buffer_full_flush_once.Common.{◌≡◌, refl, Bool, true, false, Option, none, some, if◌then◌else◌}
use buffer_full_flush_once.Entry.{Entry}
use buffer_full_flush_once.Core.{
  Platform, Core, Cores, nop, io, multi, hooked, level_filter, sampler, lazy_with, nil, cons,
  core_enabled, init_once,
}
use buffer_full_flush_once.Core.Checking.{
  CheckedEntry, check, check_all, add_core, add_hooked, sample, is_supported,
}

-- A checked entry that only Check has touched: it is for the entry, clean, and has no hook to end.
abbrev pub IsFresh : {p : Platform} → Entry → Option (CheckedEntry p) → Type 0
IsFresh ent none = Unit
IsFresh ent (some ce) = (ce.entry ≡ ent) × (ce.dirty ≡ false) × (ce.after ≡ none)

module _ {p : Platform} where
  IsFresh-if :
      (ent : Entry) (b : Bool) (x y : Option (CheckedEntry p) × p.State)
      → IsFresh ent x.0
      → IsFresh ent y.0
      → IsFresh ent (if b then x else y).0
  IsFresh-if ent true x y hx hy = hx
  IsFresh-if ent false x y hx hy = hy

  add_core-IsFresh :
      (ce : Option (CheckedEntry p)) (ent : Entry) (core : Core p)
      → IsFresh ent ce
      → IsFresh ent (add_core ce ent core)
  unfolding add_core
  add_core-IsFresh none ent core h = (refl, refl, refl)
  add_core-IsFresh (some ce) ent core h = h

  add_hooked-IsFresh :
      (downstream ce : Option (CheckedEntry p)) (ent : Entry) (core : Core p)
      → IsFresh ent downstream
      → IsFresh ent ce
      → IsFresh ent (add_hooked p downstream ce ent core)
  unfolding add_hooked
  add_hooked-IsFresh none ce ent core hd h = h
  add_hooked-IsFresh (some downstream) ce ent core hd h =
      add_core-IsFresh (some downstream) ent core hd

  mutual
    unfolding check

    pub check-IsFresh :
        (core : Core p) (ent : Entry) (ce : Option (CheckedEntry p)) (s : p.State)
        → IsFresh ent ce
        → IsFresh ent (check core ent ce s).0
    check-IsFresh nop ent ce s h = h
    check-IsFresh (io enab enc out) ent ce s h =
        IsFresh-if ent (enab.enabled ent.level s) (add_core ce ent (io enab enc out), s) (ce, s)
          (add_core-IsFresh ce ent (io enab enc out) h) h
    check-IsFresh (multi cores) ent ce s h = check_all-IsFresh cores ent ce s h
    check-IsFresh (hooked core funcs) ent ce s h =
        add_hooked-IsFresh (check core ent ce s).0 ce ent (hooked core funcs)
          (check-IsFresh core ent ce s h) h
    check-IsFresh (level_filter core enab) ent ce s h =
        IsFresh-if ent (enab.enabled ent.level s) (check core ent ce s) (ce, s)
          (check-IsFresh core ent ce s h) h
    check-IsFresh (sampler core g) ent ce s h =
        let (kept, s') = sample p g ent s in
        let sampled =
          IsFresh-if ent kept (check core ent ce s') (ce, s') (check-IsFresh core ent ce s' h) h in
        let supported =
          IsFresh-if ent (is_supported ent.level) (if kept then check core ent ce s' else (ce, s'))
            (check core ent ce s) sampled (check-IsFresh core ent ce s h) in
        IsFresh-if ent (core_enabled core ent.level s) _ (ce, s) supported h
    check-IsFresh (lazy_with original core fields once) ent ce s h =
        IsFresh-if ent (core_enabled original ent.level s)
          (check core ent ce (init_once original once s)) (ce, s)
          (check-IsFresh core ent ce (init_once original once s) h) h

    check_all-IsFresh :
        (cores : Cores p) (ent : Entry) (ce : Option (CheckedEntry p)) (s : p.State)
        → IsFresh ent ce
        → IsFresh ent (check_all cores ent ce s).0
    check_all-IsFresh nil ent ce s h = h
    check_all-IsFresh (cons core cores) ent ce s h =
        check_all-IsFresh cores ent (check core ent ce s).0 (check core ent ce s).1
          (check-IsFresh core ent ce s h)
