-- ===== src/Sugar/Logging.antt =====
-- sugar.go: the sugared logger over a logger.
use buffer_full_flush_once.Common.{
  ◌≡◌, refl, true, not, ◌&&◌, Option, none, some, List, [], ◌∷◌, if◌then◌else◌, length, take, ◌-◌,
  Bool-cases, inl, inr,
}
use buffer_full_flush_once.Common.Int.{pos, negsuc, ◌+ℤ◌, ltb_ℤ}
use buffer_full_flush_once.Common.Bytes.{Bytes, codes}
use buffer_full_flush_once.Level.{Level, dpanic_level, error_level}
use buffer_full_flush_once.Entry.{Outcome, returns}
use buffer_full_flush_once.Core.{Platform, core_enabled}
use buffer_full_flush_once.Core.Checking.{CheckedEntry}
use buffer_full_flush_once.Logger.{
  Logger, Runtime, log_entry, check_log, write_if, named, logger_with, logger_level,
}
use buffer_full_flush_once.Sugar.{
  Arg, InvalidPair, Report, multiple_err, odd_number_err, non_string_key_err, sweeten_fields,
  get_message,
}

-- What the sugared logger uses of fmt, and the fields that it makes of errors, values and invalid
-- pairs.
pub record Sugaring (p : Platform) : Type 1 where
  pub E : Type 0
  pub V : Type 0
  pub error_field : E → p.Field
  pub any : Bytes → Arg p.Field E V → p.Field
  pub invalid_field : List (InvalidPair p.Field E V) → p.Field
  pub sprintf : Bytes → List (Arg p.Field E V) → Bytes
  pub sprint : List (Arg p.Field E V) → Bytes
  pub sprintln : List (Arg p.Field E V) → Bytes

-- `SugaredLogger`, and the methods that make one from a logger and back.
pub record SugaredLogger (p : Platform) : Type 0 where
  pub base : Logger p

module _ {p : Platform} where
  -- `Logger.Sugar`.
  unfoldable pub sugar : Logger p → SugaredLogger p
  sugar log = record { base = record log { caller_skip = log.caller_skip +ℤ pos 2 } }

  unfoldable pub desugar : SugaredLogger p → Logger p
  desugar s = record s.base { caller_skip = s.base.caller_skip +ℤ negsuc 1 }

  unfoldable pub sugar_named : SugaredLogger p → Bytes → SugaredLogger p
  unfolding named
  sugar_named s name = record { base = named s.base name }

  unfoldable pub sugar_level : SugaredLogger p → p.State → Level
  unfolding logger_level
  sugar_level s state = logger_level s.base state

module _ (p : Platform) (g : Sugaring p) (rt : Runtime) where
  abbrev pub Args : Type 0
  Args = List (Arg p.Field g.E g.V)

  -- The message and the field of an error that `sweetenFields` logs.
  abbrev pub report_message : Report p.Field g.E g.V → Bytes
  report_message (multiple_err e) = codes "Multiple errors without a key."
  report_message (odd_number_err a) = codes "Ignored key without a value."
  report_message (non_string_key_err qs) = codes "Ignored key-value pairs with non-string keys."

  abbrev pub report_field : Report p.Field g.E g.V → p.Field
  report_field (multiple_err e) = g.error_field e
  report_field (odd_number_err a) = g.any (codes "ignored") a
  report_field (non_string_key_err qs) = g.invalid_field qs

  -- The errors are logged by the base logger, at a level at which it returns.
  unfoldable pub log_reports : Logger p → List (Report p.Field g.E g.V) → p.State → p.State
  log_reports base [] s = s
  log_reports base (r ∷ rs) s =
      log_reports base rs
        (log_entry p rt base error_level (report_message r) (report_field r ∷ []) s).1

  -- `sweetenFields` with its effect on the state.
  unfoldable pub sweetened : Logger p → Args → p.State → List p.Field × p.State
  unfolding sweeten_fields
  sweetened base args s =
      let (fields, reports) = sweeten_fields g.error_field g.any args in
      (fields, log_reports base reports s)

  -- `getMessageln`, without the line feed at the end.
  unfoldable pub get_message_ln : Args → Bytes
  get_message_ln args = let msg = g.sprintln args in take (length msg - 1) msg

  -- The fields are made only for an entry that will be written.
  unfoldable pub write_sweetened :
      Logger p → Option (CheckedEntry p) → Args → p.State → Outcome × p.State
  write_sweetened base none context s = (returns, s)
  write_sweetened base (some ce) context s =
      let (fields, s') = sweetened base context s in write_if p (some ce) fields s'

  -- `log` and `logln`, for the message that each makes where the level is not skipped.
  unfoldable pub log_message : SugaredLogger p → Level → Bytes → Args → p.State → Outcome × p.State
  log_message sl lvl msg context s =
      let (ce, s') = check_log p rt sl.base lvl msg s in
      let written = write_sweetened sl.base ce context s' in
      if ltb_ℤ lvl dpanic_level && not (core_enabled sl.base.core lvl s)
      then (returns, s)
      else written

  -- The four families of methods, each with one method for each level.
  pub data Style : Type 0 where
    plain : Args → Style
    formatted : Bytes → Args → Style
    structured : Bytes → Args → Style
    lines : Args → Style

  -- Logln, of which the methods that are named for levels are the cases at those.
  unfoldable pub log_lines : SugaredLogger p → Level → Args → p.State → Outcome × p.State
  log_lines sl lvl args s = log_message sl lvl (get_message_ln args) [] s

  -- Log, Logf, Logw and Logln, of which the methods that are named for levels are the cases at those.
  unfoldable pub sugar_log : SugaredLogger p → Level → Style → p.State → Outcome × p.State
  sugar_log sl lvl (plain args) s = log_message sl lvl (get_message g.sprintf g.sprint [] args) [] s
  sugar_log sl lvl (formatted template args) s =
      log_message sl lvl (get_message g.sprintf g.sprint template args) [] s
  sugar_log sl lvl (structured msg keys_and_values) s =
      log_message sl lvl (get_message g.sprintf g.sprint msg []) keys_and_values s
  sugar_log sl lvl (lines args) s = log_lines sl lvl args s

  unfoldable pub sugar_with : SugaredLogger p → Args → p.State → SugaredLogger p × p.State
  sugar_with sl args s =
      let (fields, s') = sweetened sl.base args s in
      let (log, s'') = logger_with sl.base fields s' in (record { base = log }, s'')

  -- The message of a call, and its loosely typed fields.
  abbrev pub style_message : Style → Bytes
  style_message (plain args) = get_message g.sprintf g.sprint [] args
  style_message (formatted template args) = get_message g.sprintf g.sprint template args
  style_message (structured msg args) = msg
  style_message (lines args) = get_message_ln args

  abbrev pub style_context : Style → Args
  style_context (structured msg args) = args
  style_context _ = []

  write_sweetened-write_if :
      (base : Logger p) (ce : Option (CheckedEntry p)) (context : Args) (s : p.State)
      → (sweeten_fields g.error_field g.any context).1 ≡ []
      → write_sweetened base ce context s
        ≡ write_if p ce (sweeten_fields g.error_field g.any context).0 s
  unfolding write_sweetened write_if sweetened log_reports
  write_sweetened-write_if base none context s h = refl
  write_sweetened-write_if base (some ce) context s h = rw h refl

  check_log-skipped :
      (base : Logger p) (lvl : Level) (msg : Bytes) (s : p.State)
      → (ltb_ℤ lvl dpanic_level && not (core_enabled base.core lvl s)) ≡ true
      → check_log p rt base lvl msg s ≡ (none, s)
  unfolding check_log
  check_log-skipped base lvl msg s h = rw h refl

  log_message-log_entry :
      (sl : SugaredLogger p) (lvl : Level) (msg : Bytes) (context : Args) (s : p.State)
      → (sweeten_fields g.error_field g.any context).1 ≡ []
      → log_message sl lvl msg context s
        ≡ log_entry p rt sl.base lvl msg (sweeten_fields g.error_field g.any context).0 s
  unfolding log_message log_entry write_if
  log_message-log_entry sl lvl msg context s h =
      elim (Bool-cases (ltb_ℤ lvl dpanic_level && not (core_enabled sl.base.core lvl s))) [
        | inl skipped ↦ rw (skipped, check_log-skipped sl.base lvl msg s skipped) refl
        | inr taken ↦ rw taken (
            write_sweetened-write_if sl.base (check_log p rt sl.base lvl msg s).0 context
              (check_log p rt sl.base lvl msg s).1 h)
      ]

  -- A call whose loosely typed fields are well-formed, so that nothing is reported, does what the logger
  -- does with its message and its fields.
  pub sugar_log-log_entry :
      (sl : SugaredLogger p) (lvl : Level) (style : Style) (s : p.State)
      → (sweeten_fields g.error_field g.any (style_context style)).1 ≡ []
      → sugar_log sl lvl style s
        ≡ log_entry p rt sl.base lvl
            (style_message style)
            (sweeten_fields g.error_field g.any (style_context style)).0
            s
  unfolding sugar_log log_lines get_message
  sugar_log-log_entry sl lvl (plain args) s h = log_message-log_entry sl lvl _ [] s h
  sugar_log-log_entry sl lvl (formatted template args) s h = log_message-log_entry sl lvl _ [] s h
  sugar_log-log_entry sl lvl (structured msg args) s h = log_message-log_entry sl lvl _ args s h
  sugar_log-log_entry sl lvl (lines args) s h = log_message-log_entry sl lvl _ [] s h
