-- ===== src/Pipeline.antt =====
-- zapcore/core.go over zapcore/json_encoder.go: an ioCore whose encoder is the JSON encoder.
mod Tests
use buffer_full_flush_once.Common.{
  ◌≡◌, refl, sym, ap, ◌∙◌, Bool, true, false, List, [], ◌∷◌, ◌++◌, Result, ok,
}
use buffer_full_flush_once.Common.Int.{ℤ}
use buffer_full_flush_once.Common.Bytes.{Bytes}
use buffer_full_flush_once.Level.{Level, LevelEnabler}
use buffer_full_flush_once.Multierr.{Multierr}
use buffer_full_flush_once.WriteSyncer.{WriteSyncer}
use buffer_full_flush_once.Entry.{Entry}
use buffer_full_flush_once.Core.{Platform, Core, io, with_fields}
use buffer_full_flush_once.Core.Writing.{write_core, write_encoded}
use buffer_full_flush_once.Encoder.{Formats}
use buffer_full_flush_once.Encoder.Calls.{ObjectCalls, done, and_then}
use buffer_full_flush_once.Encoder.Config.{EncoderConfig}
use buffer_full_flush_once.Json.{JsonEncoder, add_calls}
use buffer_full_flush_once.Json.Escape.{Utf8}
use buffer_full_flush_once.Json.Tree.{print, object}
use buffer_full_flush_once.Json.Structure.Calling.{Tokens, SingleParts}
use buffer_full_flush_once.Json.Line.{fresh, encode_entry}
use buffer_full_flush_once.Json.Line.Context.{add_calls-and_then}
use buffer_full_flush_once.Json.Line.Entries.{line_members, encode_entry-print}

-- The calls of fields, one after the other.
abbrev pub all_calls : {f : Formats} → List (ObjectCalls f) → ObjectCalls f
all_calls [] = done
all_calls (c ∷ cs) = and_then c (all_calls cs)

-- The calls of the fields that are given to several calls of With.
abbrev pub calls_after : {f : Formats} → List (List (ObjectCalls f)) → ObjectCalls f
calls_after [] = done
calls_after (fields ∷ later) = and_then (all_calls fields) (calls_after later)

-- Several calls of With.
abbrev pub with_each : {p : Platform} → Core p → List (List p.Field) → Core p
with_each core [] = core
with_each core (fields ∷ later) = with_each (with_fields core fields) later

-- The texts of the errors that the cores make.
pub record Texts (m : Multierr) : Type 0 where
  pub increase_failure : Level → m.Error
  pub write_error : ℤ → m.Error → Bytes
  pub reuse : ℤ → Entry → Bytes

module _ (m : Multierr) (S : Type 0) (texts : Texts m) (sprintf : Bytes → Level → Bytes) (u : Utf8)
    (f : Formats) (spaced : Bool) (cfg : EncoderConfig f) where
  -- The JSON encoder as the encoder of the cores: a field is the calls that its AddTo makes.
  abbrev pub json_platform : Platform
  json_platform = record {
    m = m;
    State = S;
    Field = ObjectCalls f;
    Encoder = JsonEncoder;
    add_fields = λ enc fields. add_calls u f spaced cfg (all_calls fields) enc;
    encode_entry =
        λ enc ent fields. ok (encode_entry sprintf u f spaced cfg enc ent (all_calls fields));
    increase_error = texts.increase_failure;
    write_error_text = texts.write_error;
    reuse_text = texts.reuse;
  }

  with_each-io :
      (enab : LevelEnabler S) (out : WriteSyncer S m.Error) (enc : JsonEncoder)
      (contexts : List (List (ObjectCalls f)))
      → with_each {p = json_platform} (io enab enc out) contexts
        ≡ io enab (add_calls u f spaced cfg (calls_after contexts) enc) out
  unfolding with_fields add_calls and_then
  with_each-io enab out enc [] = refl
  with_each-io enab out enc (fields ∷ later) =
      with_each-io enab out (add_calls u f spaced cfg (all_calls fields) enc) later
      ∙ ap (λ e. io enab e out)
          (sym (add_calls-and_then u f spaced cfg (all_calls fields) (calls_after later) enc))

  -- An ioCore that comes from any number of calls of With hands to its WriteSyncer what `print` writes
  -- for the tree of an object of the metadata, the fields of every With, in order, the fields of the
  -- entry and the stack trace, and then the line ending. Tokens that are not strings stand in it as
  -- they were made, whether that is JSON or not.
  pub write_core-with_each :
      (enab : LevelEnabler S) (out : WriteSyncer S m.Error) (contexts : List (List (ObjectCalls f)))
      (ent : Entry) (fields : List (ObjectCalls f)) (s : S)
      → Tokens f
      → SingleParts cfg
      → write_core {p = json_platform}
          (with_each {p = json_platform} (io enab fresh out) contexts)
          ent
          fields
          s
        ≡ write_encoded json_platform out ent
            (ok (
              print u spaced (
                object (
                  line_members sprintf f cfg ent
                    (and_then (calls_after contexts) (all_calls fields))))
              ++ cfg.line_ending))
            s
  unfolding write_core
  write_core-with_each enab out contexts ent fields s tokens single =
      ap (λ core. write_core {p = json_platform} core ent fields s)
        (with_each-io enab out fresh contexts)
      ∙ ap (λ line. write_encoded json_platform out ent (ok line) s)
          (encode_entry-print sprintf u f spaced cfg tokens single (calls_after contexts)
            (all_calls fields) ent)
