-- ===== src/AtomicLevel/Serving.antt =====
-- What the requests do to the level.
use buffer_full_flush_once.Common.{
  ◌≡◌, refl, ◌⊎◌, inl, inr, true, false, Result, ok, err, IsRef, Bool-cases, Option-cases, Option,
  none, some, List, ◌++◌, arith,
}
use buffer_full_flush_once.Common.Bytes.{Bytes, codes, bytes_eq, is_empty}
use buffer_full_flush_once.Level.{Level}
use buffer_full_flush_once.Level.Text.{ToLower, LevelError, string}
use buffer_full_flush_once.Level.TextLaws.{IsSupported, parse_level-string}
use buffer_full_flush_once.AtomicLevel.{AtomicLevel, level, set_level}
use buffer_full_flush_once.AtomicLevel.Handler.{
  level_text, Request, Payload, level_payload, Reply, WriterCall, reply_calls, internal_error,
  serve, is_form, decode_put_url, decode_put_json, decode_put_request, serve_put, serve_http,
  read_level,
}

module _ (lower : ToLower) (error_text : LevelError → Bytes) {S : Type 0} (a : AtomicLevel S) where
  -- The reply tells the level that is set, or the request changes nothing.
  abbrev pub Honest : S → Reply × S → Type 0
  Honest s answer =
      ((answer.0.status ≡ 200) × (answer.0.payload ≡ level_payload (level a answer.1)))
      ⊎ (((answer.0.status ≡ 400) ⊎ (answer.0.status ≡ 405)) × (answer.1 ≡ s))

  serve_put-Honest : (d : Result Bytes Level) (s : S) → Honest s (serve_put lower error_text a d s)
  unfolding serve_put level
  serve_put-Honest (ok l) s = inl (refl, refl)
  serve_put-Honest (err e) s = inr (inl refl, refl)

  serve_http-Honest_reply : (r : Request) (s : S) → Honest s (serve_http lower error_text a r s)
  unfolding serve_http level
  serve_http-Honest_reply r s = elim (Bool-cases (bytes_eq r.method (codes "GET"))) [
    | inl get ↦ rw get (inl (refl, refl))
    | inr other ↦ elim (Bool-cases (bytes_eq r.method (codes "PUT"))) [
      | inl put ↦ rw (other, put) (serve_put-Honest (decode_put_request lower error_text r) s)
      | inr neither ↦ rw (other, neither) (inr (inr refl, refl))
    ]
  ]

  -- A reply is written, and where its payload cannot be encoded an internal error after it.
  abbrev pub Written : (Payload → Option Bytes) → Reply → List WriterCall → Type 0
  Written fails reply calls =
      ((fails reply.payload ≡ none) × (calls ≡ reply_calls reply))
      ⊎ ((e : Bytes) × (fails reply.payload ≡ some e)
          × (calls ≡ reply_calls reply ++ internal_error e))

  -- A request, whatever it is, is answered with the status 200 and the level that is then set, or with
  -- the status 400 or 405, and then it leaves the level as it was. Where the reply cannot be encoded,
  -- the header of the status 500 and the text of the error are reply_calls after what was tried.
  pub serve-Honest :
      (fails : Payload → Option Bytes) (r : Request) (s : S)
      → let (calls, s') = serve lower error_text a fails r s in
        (reply : Reply) × Honest s (reply, s') × Written fails reply calls
  unfolding serve
  serve-Honest fails r s =
      let (reply, s') = serve_http lower error_text a r s in
      elim (Option-cases (fails reply.payload)) [
        | inl e ↦ (reply, serve_http-Honest_reply r s, inl (e, (rw e refl)))
        | inr (text, e) ↦ (reply, serve_http-Honest_reply r s, inr (text, e, (rw e refl)))
      ]

  -- A PUT request with the text of a level, in a form or as JSON.
  abbrev pub Puts : Bytes → Request → Type 0
  Puts text r =
      (r.method ≡ codes "PUT")
      × (((is_form lower error_text r.media_type ≡ true) × (r.form_value ≡ text))
          ⊎ ((is_form lower error_text r.media_type ≡ false) × (r.body ≡ level_text text)))

  string-nonempty :
      (sprintf : Bytes → Level → Bytes) (l : Level)
      → IsSupported l
      → is_empty (string sprintf l) ≡ false
  unfolding string
  string-nonempty sprintf l h = ground arith

  decode_put_request-string :
      (sprintf : Bytes → Level → Bytes) (l : Level) (put : Request)
      → IsSupported l
      → Puts (string sprintf l) put
      → decode_put_request lower error_text put ≡ ok l
  unfolding decode_put_request decode_put_url decode_put_json
  decode_put_request-string sprintf l put h (_, inl (form, value)) =
      rw
        (form, value, string-nonempty sprintf l h, parse_level-string sprintf lower l h, read_level)
        refl
  decode_put_request-string sprintf l put h (_, inr (json, body)) =
      rw (json, body, parse_level-string sprintf lower l h, read_level) refl

  -- A PUT request with the text of a supported level sets it, and a GET request then reports it.
  pub serve_http-put_get :
      (sprintf : Bytes → Level → Bytes) (l : Level) (put get : Request) (s : S)
      → IsRef a
      → IsSupported l
      → Puts (string sprintf l) put
      → get.method ≡ codes "GET"
      → (serve_http lower error_text a get (serve_http lower error_text a put s).1).0
        ≡ record { status = 200; payload = level_payload l }
  unfolding serve_http serve_put level set_level decode_put_request
  serve_http-put_get sprintf l put get s ref supported puts is_get =
      rw
        (puts.0, is_get, decode_put_request-string sprintf l put supported puts, ref.load-store l s)
        refl
