-- ===== src/Logger/Ending.antt =====
-- How the call of a logger ends: which levels panic and exit, whatever the core does with the entry.
use buffer_full_flush_once.Common.{
  ◌≡◌, refl, ap, ◌⊎◌, inl, inr, Bool, true, false, ◌&&◌, Option, none, some, List, Bool-cases,
  arith, if◌then◌else◌,
}
use buffer_full_flush_once.Common.Int.{eqb_ℤ, ltb_ℤ}
use buffer_full_flush_once.Common.Bytes.{Bytes}
use buffer_full_flush_once.Level.{Level, dpanic_level, panic_level, fatal_level}
use buffer_full_flush_once.Entry.{
  Entry, Outcome, returns, panics, exits, goexits, CheckWriteAction, action_on_write,
  write_then_noop, write_then_panic, write_then_fatal, write_then_goexit,
}
use buffer_full_flush_once.Core.{Platform, core_enabled}
use buffer_full_flush_once.Core.Checking.{
  CheckWriteHook, CheckedEntry, action, custom, check, or_new, after_write, on_write, write_checked,
}
use buffer_full_flush_once.Core.Fresh.{IsFresh, check-IsFresh}
use buffer_full_flush_once.Logger.{
  Logger, Runtime, terminal_hook_override, terminal_hook, set_terminal, annotate, new_entry,
  finish_check, check_log, write_if, log_entry,
}

module _ {p : Platform} where
  -- A checked entry that is ready to be written, with the hook and the message; nil where there
  -- is no hook.
  abbrev IsReady : Option (CheckWriteHook p) → Bytes → Option (CheckedEntry p) → Type 0
  IsReady hook msg none = hook ≡ none
  IsReady hook msg (some ce) = (ce.dirty ≡ false) × (ce.after ≡ hook) × (ce.entry.message ≡ msg)

  set_terminal-IsReady :
      (hook : Option (CheckWriteHook p)) (ent : Entry) (ce : Option (CheckedEntry p))
      → IsFresh ent ce
      → IsReady hook ent.message (set_terminal hook ent ce)
  unfolding set_terminal after_write
  set_terminal-IsReady none ent none h = refl
  set_terminal-IsReady none ent (some ce) h = (h.1, h.2, ap (λ e. e.message) h.0)
  set_terminal-IsReady (some hook) ent none h = (refl, refl, refl)
  set_terminal-IsReady (some hook) ent (some ce) h = (h.1, refl, ap (λ e. e.message) h.0)

  annotate-IsReady :
      (rt : Runtime) (log : Logger p) (hook : Option (CheckWriteHook p)) (msg : Bytes)
      (ce : CheckedEntry p) (s : p.State)
      → IsReady hook msg (some ce)
      → IsReady hook msg (some (annotate p rt log ce s).0)
  unfolding annotate
  annotate-IsReady rt log hook msg ce s h = (ground arith, ground arith, ground arith)

  set_terminal-IsReady_new :
      (hook : Option (CheckWriteHook p)) (ent : Entry) (ce : CheckedEntry p)
      → IsFresh ent (some ce)
      → IsReady hook ent.message (some (or_new ent (set_terminal hook ent (some ce))))
  unfolding set_terminal
  set_terminal-IsReady_new none ent ce h = set_terminal-IsReady none ent (some ce) h
  set_terminal-IsReady_new (some hook) ent ce h = set_terminal-IsReady (some hook) ent (some ce) h

  finish_check-IsReady :
      (rt : Runtime) (log : Logger p) (ent : Entry) (ce : Option (CheckedEntry p)) (s : p.State)
      → IsFresh ent ce
      → IsReady (terminal_hook log ent.level) ent.message (finish_check p rt log ent ce s).0
  unfolding finish_check
  finish_check-IsReady rt log ent none s h =
      set_terminal-IsReady (terminal_hook log ent.level) ent none h
  finish_check-IsReady rt log ent (some ce) s h =
      annotate-IsReady rt log (terminal_hook log ent.level) ent.message _ s
        (set_terminal-IsReady_new (terminal_hook log ent.level) ent ce h)

  -- How a hook that is an action ends a call.
  abbrev Ended : Option (CheckWriteHook p) → Bytes → Outcome → Type 0
  Ended none msg o = o ≡ returns
  Ended (some (action write_then_noop)) msg o = o ≡ returns
  Ended (some (action write_then_goexit)) msg o = o ≡ goexits
  Ended (some (action write_then_panic)) msg o = o ≡ panics msg
  Ended (some (action write_then_fatal)) msg o = o ≡ exits 1
  Ended (some (custom f)) msg o = Unit

  on_write-Ended :
      (hook : Option (CheckWriteHook p)) (ent : Entry) (fields : List p.Field) (s : p.State)
      → Ended hook ent.message (on_write p hook ent fields s).0
  unfolding on_write action_on_write
  on_write-Ended none ent fields s = refl
  on_write-Ended (some (action write_then_noop)) ent fields s = refl
  on_write-Ended (some (action write_then_goexit)) ent fields s = refl
  on_write-Ended (some (action write_then_panic)) ent fields s = refl
  on_write-Ended (some (action write_then_fatal)) ent fields s = refl
  on_write-Ended (some (custom f)) ent fields s = tt

  write_if-Ended :
      (hook : Option (CheckWriteHook p)) (msg : Bytes) (ce : Option (CheckedEntry p))
      (fields : List p.Field) (s : p.State)
      → IsReady hook msg ce
      → Ended hook msg (write_if p ce fields s).0
  unfolding write_if write_checked
  write_if-Ended hook msg none fields s h = rw h refl
  write_if-Ended hook msg (some ce) fields s h =
      rw (h.0, ← h.1, ← h.2) (on_write-Ended ce.after ce.entry _ _)

  terminal_hook-below :
      (log : Logger p) (lvl : Level) → ltb_ℤ lvl dpanic_level ≡ true → terminal_hook log lvl ≡ none
  unfolding terminal_hook
  terminal_hook-below log lvl h = ground arith

  check_log-IsReady :
      (rt : Runtime) (log : Logger p) (lvl : Level) (msg : Bytes) (s : p.State)
      → IsReady (terminal_hook log lvl) msg (check_log p rt log lvl msg s).0
  unfolding check_log
  check_log-IsReady rt log lvl msg s =
      let (time, s') = log.clock s in
      let ent = new_entry p log lvl msg time in
      let (ce, s'') = check log.core ent none s' in
      let finished =
        finish_check-IsReady rt log ent ce s'' (check-IsFresh log.core ent none s' tt) in
      elim (Bool-cases (ltb_ℤ lvl dpanic_level)) [
        | inr above ↦ rw above finished
        | inl below ↦ (elim (Bool-cases (core_enabled log.core lvl s)) [
          | inl on ↦ rw (below, on) finished
          | inr off ↦ rw (below, off) (terminal_hook-below log lvl below)
        ])
      ]

  -- The hooks that are left as they are, or set to do nothing.
  abbrev pub IsDefault : Option (CheckWriteHook p) → Type 0
  IsDefault hook = (hook ≡ none) ⊎ (hook ≡ some (action write_then_noop))

  terminal_hook_override-IsDefault :
      (a : CheckWriteAction) (hook : Option (CheckWriteHook p))
      → IsDefault hook
      → terminal_hook_override a hook ≡ action a
  unfolding terminal_hook_override
  terminal_hook_override-IsDefault a hook (inl h) = rw h refl
  terminal_hook_override-IsDefault a hook (inr h) = rw h refl

module _ (p : Platform) where
  Ended-default :
      (panic fatal dpanic : Bool) (msg : Bytes) (o : Outcome)
      → Ended {p = p}
          (if panic
            then some (action write_then_panic)
            else if fatal
            then some (action write_then_fatal)
            else if dpanic
            then some (action write_then_panic)
            else none)
          msg
          o
      → o ≡ (
          if panic
          then panics msg
          else if fatal
          then exits 1
          else if dpanic
          then panics msg
          else returns)
  Ended-default true fatal dpanic msg o h = h
  Ended-default false true dpanic msg o h = h
  Ended-default false false true msg o h = h
  Ended-default false false false msg o h = h

module _ {p : Platform} where
  -- Unless the hooks of the logger are set to do something else, and whatever the core does, even
  -- if it is disabled: a log at PanicLevel panics with the message, one at FatalLevel exits with the
  -- code 1, one at DPanicLevel panics in development, and every other log returns.
  pub log_entry-ending :
      (rt : Runtime) (log : Logger p) (lvl : Level) (msg : Bytes) (fields : List p.Field)
      (s : p.State)
      → IsDefault log.on_panic
      → IsDefault log.on_fatal
      → (log_entry p rt log lvl msg fields s).0 ≡ (
          if eqb_ℤ lvl panic_level
          then panics msg
          else if eqb_ℤ lvl fatal_level
          then exits 1
          else if eqb_ℤ lvl dpanic_level && log.development
          then panics msg
          else returns)
  unfolding log_entry terminal_hook
  log_entry-ending rt log lvl msg fields s panic fatal =
      let (ce, s') = check_log p rt log lvl msg s in
      let ready = check_log-IsReady rt log lvl msg s in
      let done = write_if-Ended (terminal_hook log lvl) msg ce fields s' ready in
      let on_panic = terminal_hook_override-IsDefault write_then_panic log.on_panic panic in
      let on_fatal = terminal_hook_override-IsDefault write_then_fatal log.on_fatal fatal in
      Ended-default p (eqb_ℤ lvl panic_level) (eqb_ℤ lvl fatal_level)
        (eqb_ℤ lvl dpanic_level && log.development) msg _ (rw (← on_panic, ← on_fatal) done)
