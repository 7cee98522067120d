-- ===== src/Sugar/Options.antt =====
-- sugar.go: options, lazy fields and Sync of the sugared logger, and how invalid pairs are logged.
use buffer_full_flush_once.Common.{Bool, Option, some, List, [], ◌∷◌, Ref, ◌>>=◌}
use buffer_full_flush_once.Common.Int.{pos}
use buffer_full_flush_once.Common.Bytes.{Bytes, codes}
use buffer_full_flush_once.Core.{Platform}
use buffer_full_flush_once.Logger.{Runtime}
use buffer_full_flush_once.Logger.Options.{LoggerOption, with_options, with_lazy}
use buffer_full_flush_once.Logger.Making.{sync_logger}
use buffer_full_flush_once.Encoder.{Formats, int}
use buffer_full_flush_once.Encoder.Calls.{ObjectCalls, ArrayCalls, add, append_object, end}
use buffer_full_flush_once.Fields.{Field}
use buffer_full_flush_once.Fields.Adding.{Values, add_fields}
use buffer_full_flush_once.Sugar.{Arg, InvalidPair}
use buffer_full_flush_once.Sugar.Logging.{Sugaring, SugaredLogger, Args, sweetened}

module _ (p : Platform) (increase_text : p.m.Error → Bytes) where
  -- `WithOptions`.
  unfoldable pub sugar_with_options :
      List (LoggerOption p) → SugaredLogger p → p.State → SugaredLogger p × p.State
  sugar_with_options opts sl s =
      let (log, s') = with_options p increase_text opts sl.base s in (record { base = log }, s')

  -- `WithLazy`: the arguments are made fields at once.
  unfoldable pub sugar_with_lazy :
      (g : Sugaring p) (rt : Runtime)
      → Args p g rt
      → Ref p.State Bool
      → SugaredLogger p
      → p.State
      → SugaredLogger p × p.State
  sugar_with_lazy g rt args once sl s =
      let (fields, s') = sweetened p g rt sl.base args s in
      let (log, s'') = with_lazy p increase_text fields once sl.base s' in
      (record { base = log }, s'')

-- `Sync`.
unfoldable pub sugar_sync : {p : Platform} → SugaredLogger p → p.State → Option p.m.Error × p.State
sugar_sync {p} sl s = sync_logger p sl.base s

module _ (f : Formats) (v : Values f) {F E V : Type 0} (any : Bytes → Arg F E V → Field f) where
  -- `invalidPair.MarshalLogObject`, where no field panics.
  unfoldable pub marshal_invalid_pair : InvalidPair F E V → Option (ObjectCalls f)
  marshal_invalid_pair pair =
      add_fields f v (any (codes "key") pair.key ∷ any (codes "value") pair.paired ∷ [])
      >>= (λ calls. some (add (codes "position") (int (pos pair.position)) calls))

  -- `invalidPairs.MarshalLogArray`.
  unfoldable pub marshal_invalid_pairs : List (InvalidPair F E V) → Option (ArrayCalls f)
  marshal_invalid_pairs [] = some end
  marshal_invalid_pairs (pair ∷ pairs) =
      let rest = marshal_invalid_pairs pairs in
      marshal_invalid_pair pair >>= (λ calls. rest >>= (λ more. some (append_object calls more)))
