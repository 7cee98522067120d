-- ===== src/Sugar.antt =====
-- sugar.go: how the sugared logger makes fields of loosely typed arguments.
pub mod Pairs
pub mod Logging
pub mod Options
mod Tests
use buffer_full_flush_once.Common.{
  ℕ, zero, suc, ◌+◌, Bool, true, false, Option, none, some, List, [], ◌∷◌, ◌++◌, if◌then◌else◌,
}
use buffer_full_flush_once.Common.Bytes.{Bytes, is_empty}

-- An `interface{}`: a field, an error, a string, or any other value. The tests for a field and for
-- an error come first.
pub data Arg (F E V : Type 0) : Type 0 where
  field : F → Arg F E V
  failure : E → Arg F E V
  text : Bytes → Arg F E V
  value : V → Arg F E V

pub record InvalidPair (F E V : Type 0) : Type 0 where
  pub position : ℕ
  pub key : Arg F E V
  pub paired : Arg F E V

-- The errors that `sweetenFields` logs with the base logger.
pub data Report (F E V : Type 0) : Type 0 where
  multiple_err : E → Report F E V
  odd_number_err : Arg F E V → Report F E V
  non_string_key_err : List (InvalidPair F E V) → Report F E V

-- The fields, the invalid pairs and the reports so far, in order.
pub record Sweetened (F E V : Type 0) : Type 0 where
  pub fields : List F
  pub invalid : List (InvalidPair F E V)
  pub reports : List (Report F E V)

-- What `Error(err)` and `Any(key, value)` make are parameters: they are fields for encoders to read.
module _ {F E V : Type 0} (error_field : E → F) (any : Bytes → Arg F E V → F) where
  abbrev pub add_field : F → Sweetened F E V → Sweetened F E V
  add_field f r = record r { fields = f ∷ r.fields }

  abbrev pub add_invalid : InvalidPair F E V → Sweetened F E V → Sweetened F E V
  add_invalid q r = record r { invalid = q ∷ r.invalid }

  abbrev pub add_report : Report F E V → Sweetened F E V → Sweetened F E V
  add_report e r = record r { reports = e ∷ r.reports }

  -- The loop of `sweetenFields` from the argument at the index `i` on.
  unfoldable pub sweeten_from : ℕ → Bool → List (Arg F E V) → Sweetened F E V
  sweeten_from i seen [] = record { fields = []; invalid = []; reports = [] }
  sweeten_from i seen (field f ∷ args) = add_field f (sweeten_from (i + 1) seen args)
  sweeten_from i false (failure e ∷ args) =
      add_field (error_field e) (sweeten_from (i + 1) true args)
  sweeten_from i true (failure e ∷ args) =
      add_report (multiple_err e) (sweeten_from (i + 1) true args)
  sweeten_from i seen (text key ∷ []) = record {
    fields = [];
    invalid = [];
    reports = odd_number_err (text key) ∷ [];
  }
  sweeten_from i seen (value key ∷ []) = record {
    fields = [];
    invalid = [];
    reports = odd_number_err (value key) ∷ [];
  }
  sweeten_from i seen (text key ∷ val ∷ args) =
      add_field (any key val) (sweeten_from (i + 2) seen args)
  sweeten_from i seen (value key ∷ val ∷ args) =
      add_invalid (record { position = i; key = value key; paired = val })
        (sweeten_from (i + 2) seen args)

  -- The invalid pairs are reported after the loop.
  abbrev pub report_invalid : List (InvalidPair F E V) → List (Report F E V)
  report_invalid [] = []
  report_invalid (q ∷ qs) = non_string_key_err (q ∷ qs) ∷ []

  -- `sweetenFields`: the fields, and the errors that are logged, in order.
  unfoldable pub sweeten_fields : List (Arg F E V) → List F × List (Report F E V)
  sweeten_fields args =
      let r = sweeten_from 0 false args in (r.fields, r.reports ++ report_invalid r.invalid)

-- `getMessage`; fmt.Sprintf and fmt.Sprint are parameters.
module _ {F E V : Type 0} (sprintf : Bytes → List (Arg F E V) → Bytes)
    (sprint : List (Arg F E V) → Bytes) where
  unfoldable pub get_message : Bytes → List (Arg F E V) → Bytes
  get_message template [] = template
  get_message template (text str ∷ []) =
      if is_empty template then str else sprintf template (text str ∷ [])
  get_message template (arg ∷ args) =
      if is_empty template then sprint (arg ∷ args) else sprintf template (arg ∷ args)
