-- ===== src/Buffered/Stdlib.antt =====
-- The standard library's `bufio.Writer` over a destination: a parameter of the model.
use buffer_full_flush_once.Common.{ℕ, suc, ◌≤◌, ◌<◌, ◌≡◌, ◌≢◌, Option, none, some, [], ◌++◌, length}
use buffer_full_flush_once.Common.Int.{ℤ, pos}
use buffer_full_flush_once.Common.Bytes.{Bytes}
use buffer_full_flush_once.Multierr.{Multierr}
use buffer_full_flush_once.WriteSyncer.{WriteSyncer, write}

-- `contents` are the bytes that `Buffered` counts, `failed` is the error that a failed write to the
-- destination leaves behind, after which "no more data will be accepted".
pub record Bufio (m : Multierr) {S : Type 0} (ws : WriteSyncer S m.Error) : Type 1 where
  pub Buf : Type 0
  pub contents : Buf → Bytes
  pub failed : Buf → Option m.Error
  pub available : Buf → ℕ
  pub new_writer_size : ℤ → Buf
  pub flush : Buf → S → Option m.Error × Buf × S
  pub write_buf : Buf → Bytes → S → ℕ × Option m.Error × Buf × S
  -- `NewWriterSize`, for a positive size.
  pub new_contents : (n : ℤ) → contents (new_writer_size n) ≡ []
  pub new_failed : (n : ℤ) → failed (new_writer_size n) ≡ none
  pub new_available : (n : ℕ) → available (new_writer_size (pos (suc n))) ≡ suc n
  -- `Flush` with nothing buffered.
  pub flush_empty :
      (b : Buf) (s : S)
      → failed b ≡ none
      → contents b ≡ []
      → ((flush b s).0 ≡ none)
        × (contents (flush b s).1 ≡ [])
        × (failed (flush b s).1 ≡ none)
        × ((flush b s).2 ≡ s)
  -- `Flush` writes what is buffered, at once.
  pub flush_full :
      (b : Buf) (s : S)
      → failed b ≡ none
      → contents b ≢ []
      → (write m ws (contents b) s).0 ≡ length (contents b)
      → (write m ws (contents b) s).1 ≡ none
      → ((flush b s).0 ≡ none)
        × (contents (flush b s).1 ≡ [])
        × (failed (flush b s).1 ≡ none)
        × ((flush b s).2 ≡ (write m ws (contents b) s).2)
  pub flush_fails :
      (b : Buf) (s : S) (e : m.Error)
      → failed b ≡ none
      → contents b ≢ []
      → (write m ws (contents b) s).1 ≡ some e
      → ((flush b s).0 ≡ some e)
        × (failed (flush b s).1 ≡ some e)
        × ((flush b s).2 ≡ (write m ws (contents b) s).2)
  -- `Write` of what fits is buffered.
  pub write_fits :
      (b : Buf) (p : Bytes) (s : S)
      → failed b ≡ none
      → length p ≤ available b
      → ((write_buf b p s).0 ≡ length p)
        × ((write_buf b p s).1 ≡ none)
        × (contents (write_buf b p s).2 ≡ contents b ++ p)
        × (failed (write_buf b p s).2 ≡ none)
        × ((write_buf b p s).3 ≡ s)
  -- `Write` of what does not fit an empty buffer goes to the destination, at once.
  pub write_large :
      (b : Buf) (p : Bytes) (s : S)
      → failed b ≡ none
      → contents b ≡ []
      → available b < length p
      → (write m ws p s).0 ≡ length p
      → (write m ws p s).1 ≡ none
      → ((write_buf b p s).0 ≡ length p)
        × ((write_buf b p s).1 ≡ none)
        × (contents (write_buf b p s).2 ≡ [])
        × (failed (write_buf b p s).2 ≡ none)
        × ((write_buf b p s).3 ≡ (write m ws p s).2)
  -- After a failure nothing is accepted any more, and nothing reaches the destination.
  pub write_failed :
      (b : Buf) (p : Bytes) (s : S) (e : m.Error)
      → failed b ≡ some e
      → ((write_buf b p s).1 ≡ some e)
        × (failed (write_buf b p s).2 ≡ some e)
        × ((write_buf b p s).3 ≡ s)
  pub flush_failed :
      (b : Buf) (s : S) (e : m.Error)
      → failed b ≡ some e
      → ((flush b s).0 ≡ some e) × (failed (flush b s).1 ≡ some e) × ((flush b s).2 ≡ s)
