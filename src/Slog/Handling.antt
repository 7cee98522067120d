-- ===== src/Slog/Handling.antt =====
-- exp/zapslog/handler.go and options.go: the handler, over a core.
use buffer_full_flush_once.Common.{
  ℕ, ◌==◌, Bool, true, false, not, ◌&&◌, Option, none, some, List, [], ◌∷◌, ◌++◌, map,
  if◌then◌else◌,
}
use buffer_full_flush_once.Common.Int.{ℤ, pos, ◌+ℤ◌, leb_ℤ}
use buffer_full_flush_once.Common.Bytes.{Bytes, is_empty}
use buffer_full_flush_once.Entry.{Entry, Outcome, returns}
use buffer_full_flush_once.Core.{Platform, Core, core_enabled, with_fields, with_effect}
use buffer_full_flush_once.Core.Checking.{CheckedEntry, check, write_checked}
use buffer_full_flush_once.Logger.{Runtime, Frame, frame_caller}
use buffer_full_flush_once.Logger.Stacks.{take_trace}
use buffer_full_flush_once.Slog.{convert_slog_level, slog_error}

-- What the handler makes fields of: an attribute becomes a field, groups become namespaces, and a
-- field may be the one that Skip makes; and the frame of a program counter.
pub record Converting (p : Platform) : Type 1 where
  pub Attribute : Type 0
  pub convert : Attribute → p.Field
  pub is_skip : p.Field → Bool
  pub namespace : Bytes → p.Field
  pub frame_of : ℕ → Frame

pub record Handler (p : Platform) : Type 0 where
  pub core : Core p
  pub name : Bytes
  pub add_caller : Bool
  pub add_stack_at : ℤ
  pub skipped_callers : ℤ
  pub groups : List Bytes

-- `HandlerOption`, by the function that makes it.
pub data HandlerOption : Type 0 where
  with_name : Bytes → HandlerOption
  with_caller_added : Bool → HandlerOption
  with_caller_skip : ℤ → HandlerOption
  add_stacktrace_at : ℤ → HandlerOption

module _ {p : Platform} where
  unfoldable pub apply_handler_option : HandlerOption → Handler p → Handler p
  apply_handler_option (with_name name) h = record h { name = name }
  apply_handler_option (with_caller_added enabled) h = record h { add_caller = enabled }
  apply_handler_option (with_caller_skip skip) h = record h {
    skipped_callers = h.skipped_callers +ℤ skip;
  }
  apply_handler_option (add_stacktrace_at lvl) h = record h { add_stack_at = lvl }

  abbrev pub apply_handler_options : List HandlerOption → Handler p → Handler p
  apply_handler_options [] h = h
  apply_handler_options (opt ∷ opts) h = apply_handler_options opts (apply_handler_option opt h)

  unfoldable pub new_handler : Core p → List HandlerOption → Handler p
  new_handler core opts = apply_handler_options opts (record {
    core = core;
    name = [];
    add_caller = false;
    add_stack_at = slog_error;
    skipped_callers = pos 0;
    groups = [];
  })

  unfoldable pub handler_enabled : Handler p → ℤ → p.State → Bool
  handler_enabled h lvl s = core_enabled h.core (convert_slog_level lvl) s

  unfoldable pub with_group : Bytes → Handler p → Handler p
  with_group group h = if is_empty group then h else record h { groups = h.groups ++ (group ∷ []) }

-- `slog.Record`.
pub record Record (A : Type 0) : Type 0 where
  pub level : ℤ
  pub time : ℤ
  pub message : Bytes
  pub pc : ℕ
  pub attrs : List A

module _ (p : Platform) (c : Converting p) (rt : Runtime) where
  abbrev pub namespaces : List Bytes → List p.Field
  namespaces groups = map c.namespace groups

  abbrev pub has_groups : List Bytes → Bool
  has_groups [] = false
  has_groups (g ∷ gs) = true

  -- The loops of `WithAttrs` and `Handle`, from a point where namespaces were added or not: the
  -- fields, and whether namespaces are added at the end.
  unfoldable pub convert_each : List Bytes → Bool → List c.Attribute → List p.Field × Bool
  convert_each groups added [] = ([], added)
  convert_each groups added (a ∷ attrs) =
      let f = c.convert a in
      let now = not added && (has_groups groups && not (c.is_skip f)) in
      let (fields, added') = convert_each groups (if now then true else added) attrs in
      (if now then namespaces groups ++ (f ∷ fields) else f ∷ fields, added')

  -- `WithAttrs`.
  unfoldable pub with_attrs : List c.Attribute → Handler p → p.State → Handler p × p.State
  with_attrs attrs h s =
      let (fields, added) = convert_each h.groups false attrs in
      (
        record h { core = with_fields h.core fields; groups = if added then [] else h.groups },
        with_effect h.core s,
      )

  abbrev pub record_entry : Handler p → Record c.Attribute → Entry
  record_entry h r = record {
    level = convert_slog_level r.level;
    time = r.time;
    logger_name = h.name;
    message = r.message;
    caller = record { defined = false; pc = 0; file = []; line = pos 0; function = [] };
    stack = [];
  }

  -- The caller and the stack of a checked entry.
  unfoldable pub annotate_record : Handler p → Record c.Attribute → CheckedEntry p → CheckedEntry p
  annotate_record h r ce =
      let frame = c.frame_of r.pc in
      let found = h.add_caller && (not (r.pc == 0) && not (frame.pc == 0)) in
      let caller = if found then frame_caller frame else ce.entry.caller in
      let stack =
        if leb_ℤ h.add_stack_at r.level
        then take_trace rt (pos 3 +ℤ h.skipped_callers)
        else ce.entry.stack in
      record ce { entry = record ce.entry { caller = caller; stack = stack } }

  unfoldable pub write_record :
      Handler p → Record c.Attribute → Option (CheckedEntry p) → p.State → Outcome × p.State
  write_record h r none s = (returns, s)
  write_record h r (some ce) s =
      let (outcome, ce', s') =
        write_checked p (annotate_record h r ce) (convert_each h.groups false r.attrs).0 s in
      (outcome, s')

  -- `Handle`, which returns no error.
  unfoldable pub handle : Handler p → Record c.Attribute → p.State → Outcome × p.State
  handle h r s = let (ce, s') = check h.core (record_entry h r) none s in write_record h r ce s'
