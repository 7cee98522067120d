-- ===== src/LineWriter.antt =====
-- zapio/writer.go: a writer that logs the text that it is given, line by line.
pub mod Lines
mod Tests
use buffer_full_flush_once.Common.{
  ℕ, zero, suc, ◌==◌, Bool, true, false, Option, none, some, List, [], ◌∷◌, ◌++◌, if◌then◌else◌,
  length,
}
use buffer_full_flush_once.Common.Bytes.{Bytes, is_empty}
use buffer_full_flush_once.Level.{Level}
use buffer_full_flush_once.Entry.{Outcome, returns, goexits, panics, exits}
use buffer_full_flush_once.Core.{Platform, core_enabled}
use buffer_full_flush_once.Logger.{Logger, Runtime, log_entry}

abbrev pub newline : ℕ
newline = 10

abbrev pub cons_before : ℕ → Option (Bytes × Bytes) → Option (Bytes × Bytes)
cons_before c none = none
cons_before c (some (before, remaining)) = some (c ∷ before, remaining)

-- `bytes.IndexByte` of a newline, and the two slices beside it.
unfoldable pub cut : Bytes → Option (Bytes × Bytes)
cut [] = none
cut (c ∷ line) = let rest = cut line in if c == newline then some ([], line) else cons_before c rest

-- `Writer`.
pub record LineWriter (p : Platform) : Type 0 where
  pub log : Logger p
  pub level : Level
  pub buff : Bytes

-- Whether a call returned, so that its caller goes on.
abbrev pub did_return : Outcome → Bool
did_return returns = true
did_return goexits = false
did_return (panics msg) = false
did_return (exits code) = false

-- `log` tells how the call of the logger ends: what comes after a call that does not return is not
-- done.
module _ {S : Type 0} (log : Bytes → S → Outcome × S) where
  -- A line is logged from the buffer, which is reset where the call returns.
  abbrev pub log_buffered : Bytes → S → Outcome × Bytes × S
  log_buffered buff s = let (o, s') = log buff s in (o, (if did_return o then [] else buff), s')

  -- `flush`.
  unfoldable pub flush_line : Bool → Bytes → S → Outcome × Bytes × S
  flush_line allow_empty buff s =
      if allow_empty
      then log_buffered buff s
      else if is_empty buff
      then (returns, [], s)
      else log_buffered buff s

  -- `writeLine`, with what `cut` makes of the line: the outcome, the remaining text, the buffer, the
  -- state.
  unfoldable pub write_line :
      Option (Bytes × Bytes) → Bytes → Bytes → S → Outcome × Bytes × Bytes × S
  unfolding flush_line
  write_line none line buff s = (returns, [], buff ++ line, s)
  write_line (some (before, remaining)) line buff s =
      if is_empty buff
      then (let (o, s') = log before s in (o, remaining, buff, s'))
      else (let (o, buff', s') = flush_line true (buff ++ before) s in (o, remaining, buff', s'))

  -- The loop of `Write`. Each round takes a byte at least, so that as many rounds as there are
  -- bytes are enough.
  unfoldable pub write_loop : ℕ → Bytes → Bytes → S → Outcome × Bytes × S
  write_loop zero bs buff s = (returns, buff, s)
  write_loop (suc k) bs buff s =
      let (o, remaining, buff', s') = write_line (cut bs) bs buff s in
      let rest = write_loop k remaining buff' s' in
      if is_empty bs then (returns, buff, s) else if did_return o then rest else (o, buff', s')

module _ (p : Platform) (rt : Runtime) where
  -- `Writer.log`.
  unfoldable pub log_line : LineWriter p → Bytes → p.State → Outcome × p.State
  log_line w b s = log_entry p rt w.log w.level b [] s

  -- `Writer.Write`: the outcome, the count where it returns, the writer, the state. The error is nil.
  unfoldable pub write_text : LineWriter p → Bytes → p.State → Outcome × ℕ × LineWriter p × p.State
  write_text w bs s =
      let (o, buff, s') = write_loop (log_line w) (length bs) bs w.buff s in
      if core_enabled w.log.core w.level s
      then (o, length bs, record w { buff = buff }, s')
      else (returns, length bs, w, s)

  -- `Writer.Sync` and `Writer.Close`.
  unfoldable pub sync_text : LineWriter p → p.State → Outcome × LineWriter p × p.State
  sync_text w s =
      let (o, buff, s') = flush_line (log_line w) false w.buff s in
      (o, record w { buff = buff }, s')
