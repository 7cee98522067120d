-- ===== src/AtomicLevel/Handler.antt =====
-- http_handler.go: the level over HTTP.
use buffer_full_flush_once.Common.{
  ℕ, Bool, false, Option, none, some, List, [], ◌∷◌, ◌==◌, ◌++◌, if◌then◌else◌, Result, ok, err,
}
use buffer_full_flush_once.Common.Bytes.{Bytes, codes, bytes_eq, is_empty}
use buffer_full_flush_once.Level.{Level}
use buffer_full_flush_once.Level.Text.{ToLower, LevelError, parse_level}
use buffer_full_flush_once.AtomicLevel.{AtomicLevel, level, set_level}

-- What encoding/json finds in the body: no valid payload, with the error, a payload without a level, or
-- one with the text of a level.
pub data Body : Type 0 where
  malformed : Bytes → Body
  no_level : Body
  level_text : Bytes → Body

-- What the handler reads of the request. The media type is what `mime.ParseMediaType` makes of the
-- header, and the form value that of the key "level".
pub record Request : Type 0 where
  pub method : Bytes
  pub media_type : Option Bytes
  pub form_value : Bytes
  pub body : Body

pub data Payload : Type 0 where
  level_payload : Level → Payload
  error_response : Bytes → Payload

-- What `serveHTTP` answers with, before it is written.
pub record Reply : Type 0 where
  pub status : ℕ
  pub payload : Payload

-- A call of the response writer: the header Content-Type, WriteHeader, a payload that is encoded to
-- it, and a text that is printed to it.
pub data WriterCall : Type 0 where
  content_type : Bytes → WriterCall
  write_header : ℕ → WriterCall
  encode_payload : Payload → WriterCall
  print_text : Bytes → WriterCall

-- The calls of `serveHTTP`. At the status 200 it does not call WriteHeader.
unfoldable pub reply_calls : Reply → List WriterCall
reply_calls reply =
    let encoded = encode_payload reply.payload ∷ [] in
    content_type (codes "application/json")
    ∷ (if reply.status == 200 then encoded else write_header reply.status ∷ encoded)

-- The calls of `ServeHTTP` where `serveHTTP` returns an error: that of encoding the reply.
unfoldable pub internal_error : Bytes → List WriterCall
internal_error e =
    content_type (codes "text/plain; charset=utf-8")
    ∷ write_header 500
    ∷ print_text (codes "internal error: " ++ e)
    ∷ []

-- `error_text` is the Error method of the errors of UnmarshalText.
module _ (lower : ToLower) (error_text : LevelError → Bytes) where
  -- UnmarshalText into a new level.
  abbrev pub read_level : Bytes → Bytes → Result Bytes Level
  read_level prefix text = elim (parse_level lower text) [
    | ok l ↦ ok l
    | err e ↦ err (prefix ++ error_text e)
  ]

  abbrev pub must_specify : Bytes
  must_specify = codes "must specify logging level"

  unfoldable pub decode_put_url : Bytes → Result Bytes Level
  decode_put_url text = if is_empty text then err must_specify else read_level [] text

  unfoldable pub decode_put_json : Body → Result Bytes Level
  decode_put_json (malformed e) = err (codes "malformed request body: " ++ e)
  decode_put_json no_level = err must_specify
  decode_put_json (level_text text) = read_level (codes "malformed request body: ") text

  abbrev pub is_form : Option Bytes → Bool
  is_form none = false
  is_form (some media_type) = bytes_eq media_type (codes "application/x-www-form-urlencoded")

  unfoldable pub decode_put_request : Request → Result Bytes Level
  decode_put_request r =
      if is_form r.media_type then decode_put_url r.form_value else decode_put_json r.body

  module _ {S : Type 0} (a : AtomicLevel S) where
    abbrev pub report_level : S → Reply
    report_level s = record { status = 200; payload = level_payload (level a s) }

    -- PUT, after decoding.
    unfoldable pub serve_put : Result Bytes Level → S → Reply × S
    unfolding level set_level
    serve_put (err e) s = (record { status = 400; payload = error_response e }, s)
    serve_put (ok l) s = let s' = set_level a l s in (report_level s', s')

    -- `serveHTTP`: the reply that it encodes, and the state.
    unfoldable pub serve_http : Request → S → Reply × S
    unfolding level
    serve_http r s =
        if bytes_eq r.method (codes "GET")
        then (report_level s, s)
        else if bytes_eq r.method (codes "PUT")
        then serve_put (decode_put_request r) s
        else (
          record {
            status = 405;
            payload = error_response (codes "Only GET and PUT are supported.");
          },
          s,
        )

    -- `ServeHTTP`. `fails` is the error, if any, of encoding a payload to the response writer.
    unfoldable pub serve : (Payload → Option Bytes) → Request → S → List WriterCall × S
    unfolding serve_http reply_calls internal_error
    serve fails r s =
        let (reply, s') = serve_http r s in
        (
          elim (fails reply.payload) [
            | none ↦ reply_calls reply
            | some e ↦ reply_calls reply ++ internal_error e
          ],
          s',
        )
