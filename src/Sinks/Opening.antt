-- ===== src/Sinks/Opening.antt =====
-- sink.go: sinks by their URLs; and writer.go: opening the sinks of several URLs.
use buffer_full_flush_once.Common.{
  Bool, not, ◌&&◌, Option, none, some, List, [], ◌∷◌, ◌++◌, if◌then◌else◌, Result, ok, err,
}
use buffer_full_flush_once.Common.Bytes.{Bytes, codes, bytes_eq, is_empty}
use buffer_full_flush_once.Level.Text.{ToLower}
use buffer_full_flush_once.Multierr.{Multierr}
use buffer_full_flush_once.WriteSyncer.{
  Writer, WriteSyncer, WriteSyncers, nil, cons, plain, add_sync, lock, new_multi,
}
use buffer_full_flush_once.Sinks.{SinkRegistry, find_factory, register_sink}

-- What the code reads of a `url.URL`: Port and Hostname are methods.
pub record Url : Type 0 where
  pub scheme : Bytes
  pub has_user : Bool
  pub fragment : Bytes
  pub raw_query : Bytes
  pub port : Bytes
  pub hostname : Bytes
  pub path : Bytes

-- The interface `Sink`.
pub record Sink (S E : Type 0) : Type 0 where
  pub writer : WriteSyncer S E
  pub close : S → Option E × S

-- The errors that the code makes itself.
pub data OpenError (E : Type 0) : Type 0 where
  cannot_parse : Bytes → E → OpenError E
  sink_not_found : Bytes → OpenError E
  user_not_allowed : Url → OpenError E
  fragments_not_allowed : Url → OpenError E
  queries_not_allowed : Url → OpenError E
  ports_not_allowed : Url → OpenError E
  host_not_allowed : Url → OpenError E

-- The answer of a factory: a sink, or an error.
abbrev pub Opened : Type 0 → Type 0 → Type 0
Opened S E = Result E (Sink S E) × S

abbrev pub Factory : Type 0 → Type 0 → Type 0
Factory S E = Url → S → Opened S E

-- What the code uses of Go's libraries: paths, URLs, files, the standard streams, io.Discard, and
-- the errors as fmt makes them; `open_sink_error` is `open sink %q: %w`.
pub record Files (m : Multierr) (S : Type 0) : Type 0 where
  pub is_abs : Bytes → Bool
  pub parse_url : Bytes → Result m.Error Url
  pub open_file : Bytes → S → Opened S m.Error
  pub stdout : WriteSyncer S m.Error
  pub stderr : WriteSyncer S m.Error
  pub discard : Writer S m.Error
  pub errorf : OpenError m.Error → m.Error
  pub open_sink_error : Bytes → m.Error → m.Error

-- `nopCloserSink`.
abbrev pub nop_closer_sink : {S E : Type 0} → WriteSyncer S E → Sink S E
nop_closer_sink ws = record { writer = ws; close = λ s. (none, s) }

abbrev pub file_scheme : Bytes
file_scheme = codes "file"

abbrev pub with_scheme : Url → Url
with_scheme u = if is_empty u.scheme then record u { scheme = file_scheme } else u

module _ (m : Multierr) {S : Type 0} (files : Files m S) where
  unfoldable pub new_file_sink_from_path : Bytes → S → Opened S m.Error
  new_file_sink_from_path path s =
      if bytes_eq path (codes "stdout")
      then (ok (nop_closer_sink files.stdout), s)
      else if bytes_eq path (codes "stderr")
      then (ok (nop_closer_sink files.stderr), s)
      else files.open_file path s

  unfoldable pub new_file_sink_from_url : Factory S m.Error
  new_file_sink_from_url u s =
      if u.has_user
      then (err (files.errorf (user_not_allowed u)), s)
      else if not (is_empty u.fragment)
      then (err (files.errorf (fragments_not_allowed u)), s)
      else if not (is_empty u.raw_query)
      then (err (files.errorf (queries_not_allowed u)), s)
      else if not (is_empty u.port)
      then (err (files.errorf (ports_not_allowed u)), s)
      else if not (is_empty u.hostname) && not (bytes_eq u.hostname (codes "localhost"))
      then (err (files.errorf (host_not_allowed u)), s)
      else new_file_sink_from_path u.path s

  -- `newSinkRegistry`.
  unfoldable pub new_sink_registry : ToLower → SinkRegistry (Factory S m.Error)
  new_sink_registry lower = (register_sink lower file_scheme new_file_sink_from_url []).1

  -- `sinkRegistry.newSink` after the URL is parsed, and after its factory is looked up.
  unfoldable pub made_by : Option (Factory S m.Error) → Url → S → Opened S m.Error
  made_by none u s = (err (files.errorf (sink_not_found u.scheme)), s)
  made_by (some factory) u s = factory u s

  unfoldable pub new_parsed_sink :
      SinkRegistry (Factory S m.Error) → Bytes → Result m.Error Url → S → Opened S m.Error
  new_parsed_sink registry raw (err e) s = (err (files.errorf (cannot_parse raw e)), s)
  new_parsed_sink registry raw (ok u) s =
      let u' = with_scheme u in made_by (find_factory u'.scheme registry) u' s

  unfoldable pub new_sink : SinkRegistry (Factory S m.Error) → Bytes → S → Opened S m.Error
  new_sink registry raw s =
      if files.is_abs raw
      then new_file_sink_from_path raw s
      else new_parsed_sink registry raw (files.parse_url raw) s

  -- `closeAll`, which ignores the errors.
  unfoldable pub close_all : List (Sink S m.Error) → S → S
  close_all [] s = s
  close_all (k ∷ ks) s = let (ignored, s') = k.close s in close_all ks s'

  -- A round of the loop of `open`, on the sinks that are open and the errors so far.
  unfoldable pub opened :
      Bytes
      → Result m.Error (Sink S m.Error)
      → List (Sink S m.Error)
      → Option m.Error
      → List (Sink S m.Error) × Option m.Error
  opened path (ok k) ks e = (ks ++ (k ∷ []), e)
  opened path (err e') ks e = (ks, m.append e (some (files.open_sink_error path e')))

  -- The end of `open`: where there are errors, what was opened is closed.
  unfoldable pub close_if :
      List (Sink S m.Error) → Option m.Error → S → Result m.Error (List (Sink S m.Error)) × S
  close_if ks none s = (ok ks, s)
  close_if ks (some e) s = (err e, close_all ks s)

  abbrev pub writers : List (Sink S m.Error) → WriteSyncers S m.Error
  writers [] = nil
  writers (k ∷ ks) = cons k.writer (writers ks)

  unfoldable pub combine_write_syncers : WriteSyncers S m.Error → WriteSyncer S m.Error
  combine_write_syncers nil = add_sync (plain files.discard)
  combine_write_syncers (cons w ws) = lock (new_multi (cons w ws))

  abbrev pub combined :
      Result m.Error (List (Sink S m.Error)) → Result m.Error (WriteSyncer S m.Error × (S → S))
  combined (ok ks) = ok (combine_write_syncers (writers ks), close_all ks)
  combined (err e) = err e

  module _ (registry : SinkRegistry (Factory S m.Error)) where
    unfoldable pub open_each :
        List Bytes
        → List (Sink S m.Error)
        → Option m.Error
        → S
        → List (Sink S m.Error) × Option m.Error × S
    open_each [] ks e s = (ks, e, s)
    open_each (path ∷ paths) ks e s =
        let (answer, s') = new_sink registry path s in
        let (ks', e') = opened path answer ks e in open_each paths ks' e' s'

    -- `open`.
    unfoldable pub open_sinks : List Bytes → S → Result m.Error (List (Sink S m.Error)) × S
    open_sinks paths s = let (ks, e, s') = open_each paths [] none s in close_if ks e s'

    -- `Open`: the combined writer, with the function that closes it.
    unfoldable pub open_paths :
        List Bytes → S → Result m.Error (WriteSyncer S m.Error × (S → S)) × S
    open_paths paths s = let (answer, s') = open_sinks paths s in (combined answer, s')
