-- ===== src/Observer.antt =====
-- zaptest/observer/observer.go: a core that keeps the entries that it gets, and the log of them.
pub mod Recording
mod Tests
use buffer_full_flush_once.Common.{
  ℕ, Bool, true, false, ◌&&◌, Option, none, some, List, [], ◌∷◌, ◌++◌, map, if◌then◌else◌, length,
  Ref, ◌>>=◌,
}
use buffer_full_flush_once.Common.Int.{eqb_ℤ}
use buffer_full_flush_once.Common.Bytes.{Bytes, bytes_eq}
use buffer_full_flush_once.Level.{Level, LevelEnabler, level_of}
use buffer_full_flush_once.Entry.{Entry, zero_time}
use buffer_full_flush_once.Encoder.{Formats}
use buffer_full_flush_once.Fields.{Field}
use buffer_full_flush_once.Fields.Adding.{Values, add_fields}
use buffer_full_flush_once.MapEncoder.{MapEntries, new_map_encoder, map_fields, map_calls}

pub record LoggedEntry (F : Type 0) : Type 0 where
  pub entry : Entry
  pub context : List F

-- `ObservedLogs`: a slice behind a mutex, so that each method is one step.
abbrev pub ObservedLogs : Type 0 → Type 0 → Type 0
ObservedLogs S F = Ref S (List (LoggedEntry F))

-- `contextObserver`.
pub record ContextObserver (S F : Type 0) : Type 0 where
  pub enabler : LevelEnabler S
  pub logs : ObservedLogs S F
  pub context : List F

-- `strings.Contains`, by its documentation: whether the text begins with the snippet somewhere.
abbrev pub has_prefix : Bytes → Bytes → Bool
has_prefix s [] = true
has_prefix [] (b ∷ t) = false
has_prefix (a ∷ s) (b ∷ t) = bytes_eq (a ∷ []) (b ∷ []) && has_prefix s t

abbrev pub contains : Bytes → Bytes → Bool
contains [] t = has_prefix [] t
contains (a ∷ s) t = let rest = contains s t in if has_prefix (a ∷ s) t then true else rest

-- The loop of FilterField and FilterFieldKey over the context.
abbrev pub any_field : {F : Type 0} → (F → Bool) → List F → Bool
any_field f [] = false
any_field f (x ∷ xs) = let rest = any_field f xs in if f x then true else rest

-- The loop of `Filter`.
unfoldable pub filtered :
    {F : Type 0} → (LoggedEntry F → Bool) → List (LoggedEntry F) → List (LoggedEntry F)
filtered keep [] = []
filtered keep (e ∷ es) = let rest = filtered keep es in if keep e then e ∷ rest else rest

abbrev pub untimed : {F : Type 0} → LoggedEntry F → LoggedEntry F
untimed e = record e { entry = record e.entry { time = zero_time } }

module _ {S F : Type 0} where
  unfoldable pub len : ObservedLogs S F → S → ℕ
  len o s = length (o.load s)

  unfoldable pub all : ObservedLogs S F → S → List (LoggedEntry F)
  all o s = o.load s

  unfoldable pub take_all : ObservedLogs S F → S → List (LoggedEntry F) × S
  take_all o s = (o.load s, o.store [] s)

  unfoldable pub all_untimed : ObservedLogs S F → S → List (LoggedEntry F)
  all_untimed o s = map untimed (o.load s)

  unfoldable pub filter_level_exact : ObservedLogs S F → Level → S → List (LoggedEntry F)
  filter_level_exact o lvl s = filtered (λ e. eqb_ℤ e.entry.level lvl) (o.load s)

  unfoldable pub filter_message : ObservedLogs S F → Bytes → S → List (LoggedEntry F)
  filter_message o msg s = filtered (λ e. bytes_eq e.entry.message msg) (o.load s)

  unfoldable pub filter_logger_name : ObservedLogs S F → Bytes → S → List (LoggedEntry F)
  filter_logger_name o name s = filtered (λ e. bytes_eq e.entry.logger_name name) (o.load s)

  unfoldable pub filter_message_snippet : ObservedLogs S F → Bytes → S → List (LoggedEntry F)
  filter_message_snippet o snippet s = filtered (λ e. contains e.entry.message snippet) (o.load s)

  -- `f.Equals` and `f.Key` of the fields are parameters.
  unfoldable pub filter_field : (F → F → Bool) → ObservedLogs S F → F → S → List (LoggedEntry F)
  filter_field equals o f s = filtered (λ e. any_field (λ g. equals g f) e.context) (o.load s)

  unfoldable pub filter_field_key :
      (F → Bytes) → ObservedLogs S F → Bytes → S → List (LoggedEntry F)
  filter_field_key key_of o key s =
      filtered (λ e. any_field (λ g. bytes_eq (key_of g) key) e.context) (o.load s)

  unfoldable pub add : ObservedLogs S F → LoggedEntry F → S → S
  add o log s = o.store (o.load s ++ (log ∷ [])) s

  -- `New`, on the log of the new observer.
  unfoldable pub new_observer : LevelEnabler S → ObservedLogs S F → ContextObserver S F
  new_observer enab logs = record { enabler = enab; logs = logs; context = [] }

  unfoldable pub observer_level : ContextObserver S F → S → Level
  observer_level co s = level_of co.enabler s

  unfoldable pub observer_with : ContextObserver S F → List F → ContextObserver S F
  observer_with co fields = record co { context = co.context ++ fields }

  unfoldable pub observer_write : ContextObserver S F → Entry → List F → S → S
  observer_write co ent fields s =
      add co.logs (record { entry = ent; context = co.context ++ fields }) s

  -- `Check`, where `add_core` is AddCore of a checked entry, and `Sync`.
  unfoldable pub observer_check :
      {C : Type 0} → (C → Entry → ContextObserver S F → C) → ContextObserver S F → Entry → C → S → C
  observer_check add_core co ent ce s =
      let added = add_core ce ent co in if co.enabler.enabled ent.level s then added else ce

  unfoldable pub observer_sync : {E : Type 0} → ContextObserver S F → S → Option E × S
  observer_sync co s = (none, s)

module _ (f : Formats) (v : Values f) where
  -- `ContextMap`, where no field panics.
  unfoldable pub context_map : LoggedEntry (Field f) → Option (MapEntries f)
  context_map e =
      add_fields f v e.context >>= (λ calls. some (map_fields (map_calls calls new_map_encoder)))
