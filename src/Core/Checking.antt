-- ===== src/Core/Checking.antt =====
-- zapcore/entry.go: checked entries; and the methods Check of the cores.
use buffer_full_flush_once.Common.{
  ℕ, Bool, true, false, ◌&&◌, ◌==◌, Option, none, some, List, [], ◌∷◌, ◌++◌, if◌then◌else◌,
}
use buffer_full_flush_once.Common.Int.{leb_ℤ}
use buffer_full_flush_once.Common.Bytes.{Bytes}
use buffer_full_flush_once.Level.{Level, min_level, max_level}
use buffer_full_flush_once.WriteSyncer.{WriteSyncer, write, sync}
use buffer_full_flush_once.Sampler.{Counter, Counters, level_index, bucket, inc_check_reset, drops}
use buffer_full_flush_once.Entry.{Entry, CheckWriteAction, Outcome, returns, action_on_write}
use buffer_full_flush_once.Core.{
  Platform, Core, Cores, Sampling, log_dropped, log_sampled, nop, io, multi, hooked, level_filter,
  sampler, lazy_with, nil, cons, core_enabled, init_once,
}
use buffer_full_flush_once.Core.Writing.{write_core}

-- `CheckWriteHook`: an action, or a hook of the caller.
pub data CheckWriteHook (p : Platform) : Type 0 where
  action : CheckWriteAction → CheckWriteHook p
  custom : (Entry → List p.Field → p.State → Outcome × p.State) → CheckWriteHook p

abbrev pub CheckPreWriteHook : Platform → Type 0
CheckPreWriteHook p = Entry → List p.Field → Entry × List p.Field

pub record CheckedEntry (p : Platform) : Type 0 where
  pub entry : Entry
  pub error_output : Option (WriteSyncer p.State p.m.Error)
  pub dirty : Bool
  pub after : Option (CheckWriteHook p)
  pub cores : List (Core p)
  pub before : List (CheckPreWriteHook p)

-- An entry from the pool, which `reset` has emptied.
abbrev pub get_checked_entry : {p : Platform} → Entry → CheckedEntry p
get_checked_entry ent = record {
  entry = ent;
  error_output = none;
  dirty = false;
  after = none;
  cores = [];
  before = [];
}

-- A nil pointer is `none`.
abbrev pub or_new : {p : Platform} → Entry → Option (CheckedEntry p) → CheckedEntry p
or_new ent none = get_checked_entry ent
or_new ent (some ce) = ce

module _ {p : Platform} where
  abbrev pub add_core_to : CheckedEntry p → Core p → CheckedEntry p
  add_core_to ce core = record ce { cores = ce.cores ++ (core ∷ []) }

  -- `CheckedEntry.AddCore`, which returns no nil.
  unfoldable pub add_core : Option (CheckedEntry p) → Entry → Core p → Option (CheckedEntry p)
  add_core ce ent core = some (add_core_to (or_new ent ce) core)

  -- `CheckedEntry.Before`.
  unfoldable pub before_write :
      Option (CheckedEntry p) → Entry → CheckPreWriteHook p → CheckedEntry p
  before_write ce ent hook =
      let ce' = or_new ent ce in record ce' { before = ce'.before ++ (hook ∷ []) }

  -- `CheckedEntry.After`.
  unfoldable pub after_write : Option (CheckedEntry p) → Entry → CheckWriteHook p → CheckedEntry p
  after_write ce ent hook = record (or_new ent ce) { after = some hook }

  -- `CheckedEntry.Should`.
  unfoldable pub should_write : Option (CheckedEntry p) → Entry → CheckWriteAction → CheckedEntry p
  should_write ce ent should = after_write ce ent (action should)

-- An entry of the table of counters set.
abbrev pub set_counter : Counters → ℕ → ℕ → Counter → Counters
set_counter cs i j c = λ i' j'. if (i' == i) && (j' == j) then c else cs i' j'

-- What `sampler.Check` does at an entry of a supported level: whether the entry is kept, and the
-- new state.
unfoldable pub sample : (p : Platform) → Sampling p → Entry → p.State → Bool × p.State
sample p g ent s =
    let cs = g.counts.load s in
    let i = level_index ent.level in
    let j = bucket ent.message in
    let (n, c) = inc_check_reset (cs i j) ent.time g.tick in
    let s' = g.counts.store (set_counter cs i j c) s in
    if drops g.first g.thereafter n
    then (false, g.hook ent log_dropped s')
    else (true, g.hook ent log_sampled s')

abbrev pub is_supported : Level → Bool
is_supported lvl = leb_ℤ min_level lvl && leb_ℤ lvl max_level

-- The end of `hooked.Check`, with the result of the core that it wraps.
unfoldable pub add_hooked :
    (p : Platform)
    → Option (CheckedEntry p)
    → Option (CheckedEntry p)
    → Entry
    → Core p
    → Option (CheckedEntry p)
add_hooked p none ce ent core = ce
add_hooked p (some downstream) ce ent core = add_core (some downstream) ent core

module _ {p : Platform} where
  unfoldable mutual
    pub check :
        Core p → Entry → Option (CheckedEntry p) → p.State → Option (CheckedEntry p) × p.State
    check nop ent ce s = (ce, s)
    check (io enab enc out) ent ce s =
        if enab.enabled ent.level s then (add_core ce ent (io enab enc out), s) else (ce, s)
    check (multi cores) ent ce s = check_all cores ent ce s
    check (hooked core funcs) ent ce s =
        let (downstream, s') = check core ent ce s in
        (add_hooked p downstream ce ent (hooked core funcs), s')
    check (level_filter core enab) ent ce s =
        let inner = check core ent ce s in if enab.enabled ent.level s then inner else (ce, s)
    check (sampler core g) ent ce s =
        let (kept, s') = sample p g ent s in
        let after_sample = check core ent ce s' in
        let unsampled = check core ent ce s in
        if core_enabled core ent.level s
        then (if is_supported ent.level
            then (if kept then after_sample else (ce, s'))
            else unsampled)
        else (ce, s)
    check (lazy_with original core fields once) ent ce s =
        let inner = check core ent ce (init_once original once s) in
        if core_enabled original ent.level s then inner else (ce, s)

    -- The loop of `multiCore.Check`.
    pub check_all :
        Cores p → Entry → Option (CheckedEntry p) → p.State → Option (CheckedEntry p) × p.State
    check_all nil ent ce s = (ce, s)
    check_all (cons core cores) ent ce s =
        let (ce', s') = check core ent ce s in check_all cores ent ce' s'

module _ (p : Platform) where
  -- The loop of `CheckedEntry.Write` over the hooks that run before.
  unfoldable pub run_before :
      List (CheckPreWriteHook p) → Entry → List p.Field → Entry × List p.Field
  run_before [] ent fields = (ent, fields)
  run_before (hook ∷ hooks) ent fields =
      let (ent', fields') = hook ent fields in run_before hooks ent' fields'

  -- Its loop over the cores.
  unfoldable pub write_each :
      List (Core p) → Entry → List p.Field → Option p.m.Error → p.State → Option p.m.Error × p.State
  write_each [] ent fields e s = (e, s)
  write_each (core ∷ cores) ent fields e s =
      let (e', s') = write_core core ent fields s in
      write_each cores ent fields (p.m.append e e') s'

  -- A text and a Sync on the error output, errors ignored.
  unfoldable pub report : Option (WriteSyncer p.State p.m.Error) → Bytes → p.State → p.State
  report none text s = s
  report (some out) text s = let (n, e, s') = write p.m out text s in (sync p.m out s').1

  unfoldable pub report_error : CheckedEntry p → Option p.m.Error → p.State → p.State
  report_error ce none s = s
  report_error ce (some e) s = report ce.error_output (p.write_error_text ce.entry.time e) s

  unfoldable pub on_write :
      Option (CheckWriteHook p) → Entry → List p.Field → p.State → Outcome × p.State
  on_write none ent fields s = (returns, s)
  on_write (some (action a)) ent fields s = (action_on_write a ent, s)
  on_write (some (custom f)) ent fields s = f ent fields s

  -- `CheckedEntry.Write` on a pointer that is not nil: how it ends, what the pointer then refers
  -- to (until the pool hands it out again), and the new state.
  unfoldable pub write_checked :
      CheckedEntry p → List p.Field → p.State → Outcome × CheckedEntry p × p.State
  write_checked ce fields s =
      if ce.dirty
      then (returns, ce, report ce.error_output (p.reuse_text ce.entry.time ce.entry) s)
      else (let ce' = record ce { dirty = true } in
          let (ent, fields') = run_before ce.before ce.entry fields in
          let (e, s') = write_each ce.cores ent fields' none s in
          let (outcome, s'') = on_write ce.after ce.entry fields' (report_error ce e s') in
          (outcome, ce', s''))
