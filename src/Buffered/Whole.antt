-- ===== src/Buffered/Whole.antt =====
-- A record is never split: every chunk that the destination receives is a run of whole records.
use buffer_full_flush_once.Common.{
  ℕ, ◌≤◌, ◌≡◌, ◌≢◌, refl, ap, ◌∙◌, ◌⊎◌, inl, inr, true, false, Option, none, some, List, [], ◌∷◌,
  ◌++◌, arith, length, ltb, leb, Bool-cases, append_assoc, ◌&&◌,
}
use buffer_full_flush_once.Common.Bytes.{Bytes}
use buffer_full_flush_once.Multierr.{Multierr}
use buffer_full_flush_once.WriteSyncer.{WriteSyncer, write, sync}
use buffer_full_flush_once.Buffered.Stdlib.{Bufio}
use buffer_full_flush_once.Buffered.{
  BufferedWriteSyncer, Running, write_running, sync_running, must_flush, write_through, after_flush,
}

-- A destination that takes every write whole; `received` are the chunks that it was sent.
pub record IsReliable (m : Multierr) {S : Type 0} (ws : WriteSyncer S m.Error)
    (received : S → List Bytes) : Type 0 where
  pub count : (p : Bytes) (s : S) → (write m ws p s).0 ≡ length p
  pub nil_error : (p : Bytes) (s : S) → (write m ws p s).1 ≡ none
  pub receives : (p : Bytes) (s : S) → received (write m ws p s).2 ≡ received s ++ p ∷ []
  pub keeps : (s : S) → received (sync m ws s).1 ≡ received s

-- What a write of `p` does to the received chunks and to the buffer.
pub data Written (p : Bytes) (chunks chunks' : List Bytes) (buffer buffer' : Bytes) : Type 0 where
  buffered : chunks' ≡ chunks → buffer' ≡ buffer ++ p → Written p chunks chunks' buffer buffer'
  flushed : chunks' ≡ chunks ++ buffer ∷ [] → buffer' ≡ p → Written p chunks chunks' buffer buffer'
  flushed_direct :
      chunks' ≡ chunks ++ buffer ∷ p ∷ [] → buffer' ≡ [] → Written p chunks chunks' buffer buffer'
  direct :
      buffer ≡ []
      → chunks' ≡ chunks ++ p ∷ []
      → buffer' ≡ []
      → Written p chunks chunks' buffer buffer'

nil_or_not : (c : Bytes) → (c ≡ []) ⊎ (c ≢ [])
nil_or_not [] = inl refl
nil_or_not (x ∷ c) = inr (λ e. cc)

pub flush_full :
    (free : ℕ) (p c : Bytes) → (ltb free (length p) && ltb 0 (length c)) ≡ true → c ≢ []
flush_full free p [] h = ground arith
flush_full free p (x ∷ c) h = λ e. cc

flush_room :
    (free : ℕ) (p c : Bytes)
    → (ltb free (length p) && ltb 0 (length c)) ≡ false
    → (length p ≤ free) ⊎ (c ≡ [])
flush_room free p [] h = inr refl
flush_room free p (x ∷ c) h = inl (ground arith)

module _ (m : Multierr) {S : Type 0} (ws : WriteSyncer S m.Error) (bufio : Bufio m ws)
    (received : S → List Bytes) (reliable : IsReliable m ws received) where
  -- The end of `Write`, on a sound buffer that holds nothing, or into which the record fits.
  write_buf-Written :
      (w : bufio.Buf) (p : Bytes) (s : S)
      → bufio.failed w ≡ none
      → (length p ≤ bufio.available w) ⊎ (bufio.contents w ≡ [])
      → let (n, e, w', s') = bufio.write_buf w p s in
        (n ≡ length p)
        × (e ≡ none)
        × (bufio.failed w' ≡ none)
        × (((received s' ≡ received s) × (bufio.contents w' ≡ bufio.contents w ++ p))
            ⊎ ((bufio.contents w ≡ [])
                × (received s' ≡ received s ++ p ∷ [])
                × (bufio.contents w' ≡ [])))
  write_buf-Written w p s sound room = elim (Bool-cases (leb (length p) (bufio.available w))) [
    | inl fits ↦
        let (n, e, c, f, d) = bufio.write_fits w p s sound (ground arith) in
        (n, e, f, inl (ap received d, c))
    | inr large ↦
        let e : bufio.contents w ≡ [] = ground arith in
        let (n, ok, c, f, d) =
          bufio.write_large w p s sound e (ground arith) (reliable.count p s)
            (reliable.nil_error p s) in
        (n, ok, f, inr (e, ap received d ∙ reliable.receives p s, c))
  ]

  module _ {Clock : Type 0} (default_clock : Clock) where
    abbrev pub Outcome :
        BufferedWriteSyncer bufio.Buf Clock
        → Running bufio.Buf Clock
        → Bytes
        → S
        → ℕ × Option m.Error × BufferedWriteSyncer bufio.Buf Clock × S
        → Type 0
    Outcome b r p s (n, e, b', s') =
        (n ≡ length p)
        × (e ≡ none)
        × (w : bufio.Buf) × (b' ≡ record b { running = some (record r { writer = w }) })
        × (bufio.failed w ≡ none)
        × Written p (received s) (received s') (bufio.contents r.writer) (bufio.contents w)

    write_through-Outcome :
        (b : BufferedWriteSyncer bufio.Buf Clock) (r : Running bufio.Buf Clock) (p : Bytes) (s : S)
        → bufio.failed r.writer ≡ none
        → (length p ≤ bufio.available r.writer) ⊎ (bufio.contents r.writer ≡ [])
        → Outcome b r p s (write_through m ws bufio default_clock b r p s)
    unfolding write_through
    write_through-Outcome b r p s sound room =
        let (n, e, f, how) = write_buf-Written r.writer p s sound room in
        let w : bufio.Buf = (bufio.write_buf r.writer p s).2 in
        (n, e, w, refl, f, elim how [ inl (d, c) ↦ buffered d c | inr (c₀, d, c) ↦ direct c₀ d c ])

    after_flush-Outcome :
        (b : BufferedWriteSyncer bufio.Buf Clock) (r : Running bufio.Buf Clock) (p : Bytes) (s : S)
        → bufio.failed r.writer ≡ none
        → bufio.contents r.writer ≢ []
        → let (e, w, s') = bufio.flush r.writer s in
          Outcome b r p s (after_flush m ws bufio default_clock b (record r { writer = w }) p e s')
    unfolding after_flush write_through
    after_flush-Outcome b r p s sound full =
        let w₁ : bufio.Buf = (bufio.flush r.writer s).1 in
        let s₁ : S = (bufio.flush r.writer s).2 in
        let (e₁, c₁, f₁, d₁) =
          bufio.flush_full r.writer s sound full (reliable.count _ s) (reliable.nil_error _ s) in
        let (n, e, f, how) = write_buf-Written w₁ p s₁ f₁ (inr c₁) in
        let chunks : received s₁ ≡ received s ++ bufio.contents r.writer ∷ [] =
          ap received d₁ ∙ reliable.receives (bufio.contents r.writer) s in
        rw e₁ (
          n,
          e,
          (bufio.write_buf w₁ p s₁).2,
          refl,
          f,
          elim how [
            | inl (d, c) ↦ flushed (d ∙ chunks) (c ∙ ap (λ t. t ++ p) c₁)
            | inr (c₀, d, c) ↦
                flushed_direct
                  (d ∙ ap (λ t. t ++ p ∷ []) chunks ∙ append_assoc (received s) _ (p ∷ [])) c
          ],
        )

    -- `Write` on a running syncer whose buffer has not failed accepts the record.
    pub write_running-Outcome :
        (b : BufferedWriteSyncer bufio.Buf Clock) (r : Running bufio.Buf Clock) (p : Bytes) (s : S)
        → bufio.failed r.writer ≡ none
        → Outcome b r p s (write_running m ws bufio default_clock b r p s)
    unfolding write_running
    write_running-Outcome b r p s sound =
        elim (Bool-cases (must_flush m ws bufio default_clock r.writer p)) [
          | inl flush ↦ rw flush (
              after_flush-Outcome b r p s sound
                (flush_full (bufio.available r.writer) p (bufio.contents r.writer) flush))
          | inr skip ↦ rw skip (
              write_through-Outcome b r p s sound
                (flush_room (bufio.available r.writer) p (bufio.contents r.writer) skip))
        ]

    -- `Sync` of a running syncer whose buffer has not failed empties the buffer: the destination
    -- receives what it held, if anything, as one chunk.
    abbrev pub Flushed : Running bufio.Buf Clock → S → Running bufio.Buf Clock × S → Type 0
    Flushed r s (r', s') =
        (bufio.failed r'.writer ≡ none)
        × (bufio.contents r'.writer ≡ [])
        × (((bufio.contents r.writer ≡ []) × (received s' ≡ received s))
            ⊎ (received s' ≡ received s ++ bufio.contents r.writer ∷ []))

    flush-Flushed :
        (r : Running bufio.Buf Clock) (s : S)
        → bufio.failed r.writer ≡ none
        → let (e, w, s') = bufio.flush r.writer s in Flushed r s (record r { writer = w }, s')
    flush-Flushed r s sound = elim (nil_or_not (bufio.contents r.writer)) [
      | inl empty ↦
          let (e, c, f, d) = bufio.flush_empty r.writer s sound empty in
          (f, c, inl (empty, ap received d))
      | inr full ↦
          let (e, c, f, d) =
            bufio.flush_full r.writer s sound full (reliable.count _ s) (reliable.nil_error _ s) in
          (f, c, inr (ap received d ∙ reliable.receives _ s))
    ]

    pub sync_running-Flushed :
        (b : BufferedWriteSyncer bufio.Buf Clock) (r : Running bufio.Buf Clock) (s : S)
        → bufio.failed r.writer ≡ none
        → let (e, b', s') = sync_running m ws bufio default_clock b (some r) s in
          (r' : Running bufio.Buf Clock) × (b' ≡ record b { running = some r' })
          × (r' ≡ record r { writer = r'.writer })
          × Flushed r s (r', s')
    unfolding sync_running
    sync_running-Flushed b r s sound =
        let (e, w, s') = bufio.flush r.writer s in
        let (f, c, d) = flush-Flushed r s sound in
        (
          record r { writer = w },
          refl,
          refl,
          (
            f,
            c,
            elim d [
              | inl (empty, same) ↦ inl (empty, reliable.keeps s' ∙ same)
              | inr more ↦ inr (reliable.keeps s' ∙ more)
            ],
          ),
        )
