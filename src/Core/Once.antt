-- ===== src/Core/Once.antt =====
-- What the Write of a checked entry promises: every core that agreed to the entry gets it, once and
-- in order, whatever the cores before it returned.
use buffer_full_flush_once.Common.{
  ◌≡◌, refl, ◌↔◌, Option, none, List, [], ◌∷◌, All, Bool-cases, inl, inr,
}
use buffer_full_flush_once.Multierr.{append-none_iff}
use buffer_full_flush_once.Entry.{Entry, returns}
use buffer_full_flush_once.Core.{Platform, Core}
use buffer_full_flush_once.Core.Writing.{write_core}
use buffer_full_flush_once.Core.Checking.{
  CheckedEntry, run_before, write_each, report, write_checked,
}

module _ (p : Platform) where
  -- Each core is written to once, in order, from the state that the one before it left.
  abbrev pub core_outcomes :
      List (Core p) → Entry → List p.Field → p.State → List (Option p.m.Error) × p.State
  core_outcomes [] ent fields s = ([], s)
  core_outcomes (core ∷ cores) ent fields s =
      let (e, s') = write_core core ent fields s in
      let (es, s'') = core_outcomes cores ent fields s' in (e ∷ es, s'')

  pub write_each-outcomes :
      (cores : List (Core p)) (ent : Entry) (fields : List p.Field) (e : Option p.m.Error)
      (s : p.State)
      → ((write_each p cores ent fields e s).1 ≡ (core_outcomes cores ent fields s).1)
        × (((write_each p cores ent fields e s).0 ≡ none)
            ↔ ((e ≡ none) × All (λ o. o ≡ none) (core_outcomes cores ent fields s).0))
  unfolding write_each
  write_each-outcomes [] ent fields e s = (refl, (λ h. (h, tt), λ h. h.0))
  write_each-outcomes (core ∷ cores) ent fields e s =
      let (e', s') = write_core core ent fields s in
      let (state, errors) = write_each-outcomes cores ent fields (p.m.append e e') s' in
      let (split, join) =
        append-none_iff p.m e e' (All (λ o. o ≡ none) (core_outcomes cores ent fields s').0) in
      (state, (λ h. split (errors.0 h), λ h. errors.1 (join h)))

  -- The entry and the fields that the hooks before the cores make, and what the cores do with them.
  abbrev pub written : CheckedEntry p → List p.Field → p.State → List (Option p.m.Error) × p.State
  written ce fields s =
      let (ent, fields') = run_before p ce.before ce.entry fields in
      core_outcomes ce.cores ent fields' s

  -- A checked entry that was written writes to no core and runs no hook: a second Write only
  -- reports the reuse on the error output, and returns.
  pub write_checked-twice :
      (ce : CheckedEntry p) (fields fields' : List p.Field) (s t : p.State)
      → let ce' = (write_checked p ce fields s).1 in
        write_checked p ce' fields' t
        ≡ (returns, ce', report p ce.error_output (p.reuse_text ce.entry.time ce.entry) t)
  unfolding write_checked
  write_checked-twice ce fields fields' s t = elim (Bool-cases ce.dirty) [
    | inl dirty ↦ rw dirty refl
    | inr clean ↦ rw clean refl
  ]
