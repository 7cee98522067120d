-- ===== src/Sugar/Pairs.antt =====
-- Which arguments the sugared logger takes without complaint, and what it makes of them.
use buffer_full_flush_once.Common.{ℕ, ◌+◌, ◌≡◌, refl, ap, Bool, true, false, List, [], ◌∷◌, ◌++◌}
use buffer_full_flush_once.Common.Bytes.{Bytes}
use buffer_full_flush_once.Sugar.{
  Arg, field, failure, text, value, Report, InvalidPair, add_field, sweeten_from, sweeten_fields,
  report_invalid,
}

module _ {F E V : Type 0} (error_field : E → F) (any : Bytes → Arg F E V → F) where
  -- Well-formed arguments and the fields that they stand for: fields, strings each with a value
  -- after it, and one error at most (`true`: it has been there).
  pub data IsSugared : Bool → List (Arg F E V) → List F → Type 0 where
    empty : {seen : Bool} → IsSugared seen [] []
    typed :
        {seen : Bool} {args : List (Arg F E V)} {fs : List F} (f : F)
        → IsSugared seen args fs
        → IsSugared seen (field f ∷ args) (f ∷ fs)
    error :
        {args : List (Arg F E V)} {fs : List F} (e : E)
        → IsSugared true args fs
        → IsSugared false (failure e ∷ args) (error_field e ∷ fs)
    pair :
        {seen : Bool} {args : List (Arg F E V)} {fs : List F} (key : Bytes) (val : Arg F E V)
        → IsSugared seen args fs
        → IsSugared seen (text key ∷ val ∷ args) (any key val ∷ fs)

  sweeten_from-IsSugared :
      (i : ℕ) (seen : Bool) (args : List (Arg F E V)) (fs : List F)
      → IsSugared seen args fs
      → sweeten_from error_field any i seen args
        ≡ record { fields = fs; invalid = []; reports = [] }
  unfolding sweeten_from
  sweeten_from-IsSugared i seen _ _ empty = refl
  sweeten_from-IsSugared i seen _ _ (typed f rest) =
      ap (add_field error_field any f) (sweeten_from-IsSugared (i + 1) seen _ _ rest)
  sweeten_from-IsSugared i _ _ _ (error e rest) =
      ap (add_field error_field any (error_field e)) (sweeten_from-IsSugared (i + 1) true _ _ rest)
  sweeten_from-IsSugared i seen _ _ (pair key val rest) =
      ap (add_field error_field any (any key val)) (sweeten_from-IsSugared (i + 2) seen _ _ rest)

  -- Of well-formed arguments sweetenFields makes the fields that they stand for, and logs no error.
  pub sweeten_fields-IsSugared :
      (args : List (Arg F E V)) (fs : List F)
      → IsSugared false args fs
      → sweeten_fields error_field any args ≡ (fs, [])
  unfolding sweeten_fields
  sweeten_fields-IsSugared args fs h =
      ap (λ r. (r.fields, r.reports ++ report_invalid error_field any r.invalid))
        (sweeten_from-IsSugared 0 false args fs h)

  sweeten_from-no_report :
      (i : ℕ) (seen : Bool) (args : List (Arg F E V))
      → (sweeten_from error_field any i seen args).invalid ≡ []
      → (sweeten_from error_field any i seen args).reports ≡ []
      → IsSugared seen args (sweeten_from error_field any i seen args).fields
  unfolding sweeten_from
  sweeten_from-no_report i seen [] hi hr = empty
  sweeten_from-no_report i seen (field f ∷ args) hi hr =
      typed f (sweeten_from-no_report (i + 1) seen args hi hr)
  sweeten_from-no_report i false (failure e ∷ args) hi hr =
      error e (sweeten_from-no_report (i + 1) true args hi hr)
  sweeten_from-no_report i true (failure e ∷ args) hi hr = cc
  sweeten_from-no_report i seen (text key ∷ []) hi hr = cc
  sweeten_from-no_report i seen (value key ∷ []) hi hr = cc
  sweeten_from-no_report i seen (text key ∷ val ∷ args) hi hr =
      pair key val (sweeten_from-no_report (i + 2) seen args hi hr)
  sweeten_from-no_report i seen (value key ∷ val ∷ args) hi hr = cc

  no_report :
      (reports : List (Report F E V)) (invalid : List (InvalidPair F E V))
      → reports ++ report_invalid error_field any invalid ≡ []
      → (invalid ≡ []) × (reports ≡ [])
  no_report [] [] h = (refl, refl)
  no_report [] (q ∷ qs) h = cc
  no_report (r ∷ reports) invalid h = cc

  -- Where sweetenFields logs no error the arguments are well-formed, and the fields are the ones that
  -- they stand for.
  pub sweeten_fields-no_report :
      (args : List (Arg F E V))
      → (sweeten_fields error_field any args).1 ≡ []
      → IsSugared false args (sweeten_fields error_field any args).0
  unfolding sweeten_fields
  sweeten_fields-no_report args h =
      let r = sweeten_from error_field any 0 false args in
      let (none_invalid, none_reported) = no_report r.reports r.invalid h in
      sweeten_from-no_report 0 false args none_invalid none_reported
