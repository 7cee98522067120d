-- ===== src/Observer/Tests.antt =====
-- A concrete observer.
use buffer_full_flush_once.Common.{◌≡◌, refl, true, false, List, [], ◌∷◌}
use buffer_full_flush_once.Common.Int.{pos}
use buffer_full_flush_once.Common.Bytes.{Bytes, codes}
use buffer_full_flush_once.Level.{static, info_level}
use buffer_full_flush_once.Entry.{Entry}
use buffer_full_flush_once.Observer.{LoggedEntry, ObservedLogs, ContextObserver, contains}

-- The state is the log, and a field is a text.
abbrev cell : ObservedLogs (List (LoggedEntry Bytes)) Bytes
cell = record { load = λ s. s; store = λ a s. a }

abbrev watcher : ContextObserver (List (LoggedEntry Bytes)) Bytes
watcher = record { enabler = static info_level; logs = cell; context = codes "x" ∷ [] }

abbrev hello : Entry
hello = record {
  level = info_level;
  time = pos 5;
  logger_name = [];
  message = codes "hello";
  caller = record { defined = false; pc = 0; file = []; line = pos 0; function = [] };
  stack = [];
}

abbrev two : List (Entry × List Bytes)
two = (hello, codes "y" ∷ []) ∷ (hello, []) ∷ []

contains_hello : contains (codes "hello") (codes "ell") ≡ true
contains_hello = refl
