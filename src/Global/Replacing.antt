-- ===== src/Global/Replacing.antt =====
-- global.go: what undoing a replacement of the global loggers does.
use buffer_full_flush_once.Common.{List, [], ◌∷◌, ◌≡◌, refl}
use buffer_full_flush_once.Core.{Platform}
use buffer_full_flush_once.Logger.{Logger}
use buffer_full_flush_once.Global.{Globals, globals_of, replace_globals}

module _ (p : Platform) where
  -- Replacements, each of which is undone after the later ones.
  abbrev pub nested : List (Logger p) → Globals p → Globals p
  nested [] globals = globals
  nested (log ∷ logs) globals =
      let (undo, globals') = replace_globals p log globals in undo (nested logs globals')

  -- The globals are a logger and its sugared logger at first and after every replacement; and
  -- replacements that are undone in the reverse order leave the globals of before.
  pub nested-globals_of :
      (logs : List (Logger p)) (log : Logger p) → nested logs (globals_of p log) ≡ globals_of p log
  unfolding replace_globals
  nested-globals_of [] log = refl
  nested-globals_of (l ∷ logs) log = refl
