-- ===== src/Logger.antt =====
-- logger.go and options.go: the logger, which checks an entry with its core and writes it; and the
-- stack texts of internal/stacktrace/stack.go.
pub mod Making
pub mod Options
pub mod Stacks
pub mod Ending
mod Tests
use buffer_full_flush_once.Common.{
  ℕ, ◌==◌, Bool, true, false, not, ◌&&◌, Option, none, some, List, [], ◌∷◌, ◌++◌, if◌then◌else◌,
}
use buffer_full_flush_once.Common.Int.{ℤ, pos, ◌+ℤ◌, ltb_ℤ, eqb_ℤ}
use buffer_full_flush_once.Common.Bytes.{Bytes, codes, is_empty}
use buffer_full_flush_once.Level.{Level, LevelEnabler, dpanic_level, panic_level, fatal_level}
use buffer_full_flush_once.WriteSyncer.{WriteSyncer}
use buffer_full_flush_once.Entry.{
  Entry, EntryCaller, CheckWriteAction, Outcome, returns, write_then_noop, write_then_panic,
  write_then_fatal,
}
use buffer_full_flush_once.Core.{Platform, Core, core_level, core_enabled, with_fields, with_effect}
use buffer_full_flush_once.Core.Checking.{
  CheckWriteHook, CheckedEntry, action, check, after_write, or_new, report, write_checked,
}

-- `runtime.Frame`, and a captured stack: the count of its program counters, and the frames that
-- `Next` returns, with `more` where another follows.
pub record Frame : Type 0 where
  pub pc : ℕ
  pub function : Bytes
  pub file : Bytes
  pub line : ℤ

pub record Stack : Type 0 where
  pub count : ℕ
  pub frames : List Frame

-- What the logger uses of the Go runtime, and the texts that strconv and fmt make.
pub record Runtime : Type 0 where
  pub capture : ℤ → Bool → Stack
  pub int_text : ℤ → Bytes
  pub caller_error_text : ℤ → Bytes

pub record Logger (p : Platform) : Type 0 where
  pub core : Core p
  pub development : Bool
  pub add_caller : Bool
  pub on_panic : Option (CheckWriteHook p)
  pub on_fatal : Option (CheckWriteHook p)
  pub name : Bytes
  pub error_output : WriteSyncer p.State p.m.Error
  pub add_stack : LevelEnabler p.State
  pub caller_skip : ℤ
  pub clock : p.State → ℤ × p.State

-- `Formatter.FormatFrame`, with whether a frame was written before.
unfoldable pub format_frame : Runtime → Bool → Frame → Bytes
format_frame rt non_empty frame =
    (if non_empty then codes "\n" else [])
    ++ frame.function
    ++ codes "\n\t"
    ++ frame.file
    ++ codes ":"
    ++ rt.int_text frame.line

-- `Formatter.FormatStack` after a frame: the last frame, which has none after it, is left out.
unfoldable pub format_stack : Runtime → List Frame → Bytes
format_stack rt [] = []
format_stack rt (frame ∷ frames) =
    let rest = format_stack rt frames in
    elim frames as (λ _. Bytes) [ [] ↦ [] | _ ∷ _ ↦ format_frame rt true frame ++ rest ]

-- The first frame, which is a zero value if there is none.
abbrev pub first_frame : List Frame → Frame
first_frame [] = record { pc = 0; function = []; file = []; line = pos 0 }
first_frame (frame ∷ frames) = frame

abbrev pub other_frames : List Frame → List Frame
other_frames [] = []
other_frames (frame ∷ frames) = frames

unfoldable pub frame_caller : Frame → EntryCaller
frame_caller frame = record {
  defined = not (frame.pc == 0);
  pc = frame.pc;
  file = frame.file;
  line = frame.line;
  function = frame.function;
}

-- `override == zapcore.WriteThenNoop`.
abbrev pub is_noop : {p : Platform} → CheckWriteHook p → Bool
is_noop (action write_then_noop) = true
is_noop _ = false

unfoldable pub terminal_hook_override :
    {p : Platform} → CheckWriteAction → Option (CheckWriteHook p) → CheckWriteHook p
terminal_hook_override default none = action default
terminal_hook_override default (some override) =
    if is_noop override then action default else override

-- The hook that the switch of `Logger.check` sets for a level.
unfoldable pub terminal_hook : {p : Platform} → Logger p → Level → Option (CheckWriteHook p)
terminal_hook log lvl =
    if eqb_ℤ lvl panic_level
    then some (terminal_hook_override write_then_panic log.on_panic)
    else if eqb_ℤ lvl fatal_level
    then some (terminal_hook_override write_then_fatal log.on_fatal)
    else if eqb_ℤ lvl dpanic_level && log.development
    then some (terminal_hook_override write_then_panic log.on_panic)
    else none

unfoldable pub set_terminal :
    {p : Platform}
    → Option (CheckWriteHook p)
    → Entry
    → Option (CheckedEntry p)
    → Option (CheckedEntry p)
set_terminal none ent ce = ce
set_terminal (some hook) ent ce = some (after_write ce ent hook)

module _ (p : Platform) where
  -- The end of `Logger.check` for an entry that a core will write: the error output, the caller
  -- and the stack.
  unfoldable pub annotate : Runtime → Logger p → CheckedEntry p → p.State → CheckedEntry p × p.State
  annotate rt log ce s =
      let ce' = record ce { error_output = some log.error_output } in
      let add_stack = log.add_stack.enabled ce.entry.level s in
      let stack = rt.capture (log.caller_skip +ℤ pos 2) add_stack in
      let frame = first_frame stack.frames in
      let caller = if log.add_caller then frame_caller frame else ce.entry.caller in
      let text =
        if add_stack
        then format_frame rt false frame ++ format_stack rt (other_frames stack.frames)
        else ce.entry.stack in
      let failed = report p (some log.error_output) (rt.caller_error_text ce.entry.time) s in
      if not log.add_caller && not add_stack
      then (ce', s)
      else if stack.count == 0
      then (ce', if log.add_caller then failed else s)
      else (record ce' { entry = record ce.entry { caller = caller; stack = text } }, s)

  -- The rest of `Logger.check` after the core's Check: nothing is annotated where no core writes.
  unfoldable pub finish_check :
      Runtime
      → Logger p
      → Entry
      → Option (CheckedEntry p)
      → p.State
      → Option (CheckedEntry p) × p.State
  finish_check rt log ent none s = (set_terminal (terminal_hook log ent.level) ent none, s)
  finish_check rt log ent (some ce) s =
      let (ce', s') =
        annotate rt log (or_new ent (set_terminal (terminal_hook log ent.level) ent (some ce))) s in
      (some ce', s')

  abbrev pub new_entry : Logger p → Level → Bytes → ℤ → Entry
  new_entry log lvl msg time = record {
    level = lvl;
    time = time;
    logger_name = log.name;
    message = msg;
    caller = record { defined = false; pc = 0; file = []; line = pos 0; function = [] };
    stack = [];
  }

  unfoldable pub check_log :
      Runtime → Logger p → Level → Bytes → p.State → Option (CheckedEntry p) × p.State
  check_log rt log lvl msg s =
      let (time, s') = log.clock s in
      let ent = new_entry log lvl msg time in
      let (ce, s'') = check log.core ent none s' in
      if ltb_ℤ lvl dpanic_level && not (core_enabled log.core lvl s)
      then (none, s)
      else finish_check rt log ent ce s''

  -- `if ce != nil { ce.Write(fields...) }`: how the call ends.
  unfoldable pub write_if : Option (CheckedEntry p) → List p.Field → p.State → Outcome × p.State
  write_if none fields s = (returns, s)
  write_if (some ce) fields s = let (outcome, _, s') = write_checked p ce fields s in (outcome, s')

  -- `Logger.Log`, of which Debug, Info, Warn, Error, DPanic, Panic and Fatal are the cases at their
  -- levels.
  unfoldable pub log_entry :
      Runtime → Logger p → Level → Bytes → List p.Field → p.State → Outcome × p.State
  log_entry rt log lvl msg fields s =
      let (ce, s') = check_log rt log lvl msg s in write_if ce fields s'

-- The new name in `Logger.Named`.
abbrev pub join_name : Bytes → Bytes → Bytes
join_name name s = if is_empty name then s else name ++ (codes "." ++ s)

unfoldable pub named : {p : Platform} → Logger p → Bytes → Logger p
named log s = if is_empty s then log else record log { name = join_name log.name s }

-- `Logger.With`.
unfoldable pub logger_with : {p : Platform} → Logger p → List p.Field → p.State → Logger p × p.State
logger_with log [] s = (log, s)
logger_with log (f ∷ fs) s =
    (record log { core = with_fields log.core (f ∷ fs) }, with_effect log.core s)

-- `Logger.Level`.
unfoldable pub logger_level : {p : Platform} → Logger p → p.State → Level
logger_level log s = core_level log.core s
