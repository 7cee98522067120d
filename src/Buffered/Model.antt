-- ===== src/Buffered/Model.antt =====
-- A concrete buffer that meets the documented behaviour of `bufio.Writer`, for examples: it shows
-- that the assumptions on the standard library can hold over any destination.
use buffer_full_flush_once.Common.{
  ℕ, zero, suc, ◌-◌, ◌≡◌, ◌≢◌, ◌≤◌, ◌<◌, refl, Option, none, some, [], ◌∷◌, ◌++◌, arith, length,
  leb, if◌then◌else◌,
}
use buffer_full_flush_once.Common.Int.{ℤ, pos, negsuc}
use buffer_full_flush_once.Common.Bytes.{Bytes}
use buffer_full_flush_once.Multierr.{Multierr}
use buffer_full_flush_once.WriteSyncer.{WriteSyncer, write}
use buffer_full_flush_once.Buffered.Stdlib.{Bufio}

pub record Held (E : Type 0) : Type 0 where
  pub size : ℕ
  pub bytes : Bytes
  pub failure : Option E

abbrev positive : ℤ → ℕ
positive (pos zero) = 4096
positive (pos (suc n)) = suc n
positive (negsuc n) = 4096

module _ (m : Multierr) {S : Type 0} (ws : WriteSyncer S m.Error) where
  abbrev new_held : ℤ → Held m.Error
  new_held n = record { size = positive n; bytes = []; failure = none }

  abbrev settle : Held m.Error → Option m.Error → Held m.Error
  settle b none = record b { bytes = [] }
  settle b (some e) = record b { failure = some e }

  abbrev flush_sound : Held m.Error → Bytes → S → Option m.Error × Held m.Error × S
  flush_sound b [] s = (none, b, s)
  flush_sound b (c ∷ cs) s = let (n, e, s') = write m ws (c ∷ cs) s in (e, settle b e, s')

  abbrev flush_held : Held m.Error → Option m.Error → S → Option m.Error × Held m.Error × S
  flush_held b (some e) s = (some e, b, s)
  flush_held b none s = flush_sound b b.bytes s

  abbrev write_sound : Held m.Error → Bytes → S → ℕ × Option m.Error × Held m.Error × S
  write_sound b p s =
      if leb (length p) (b.size - length b.bytes)
      then (length p, none, record b { bytes = b.bytes ++ p }, s)
      else (let (n, e, s') = write m ws p s in (n, e, settle b e, s'))

  abbrev write_held :
      Held m.Error → Option m.Error → Bytes → S → ℕ × Option m.Error × Held m.Error × S
  write_held b (some e) p s = (0, some e, b, s)
  write_held b none p s = write_sound b p s

  abbrev flush : Held m.Error → S → Option m.Error × Held m.Error × S
  flush b s = flush_held b b.failure s

  abbrev write_buf : Held m.Error → Bytes → S → ℕ × Option m.Error × Held m.Error × S
  write_buf b p s = write_held b b.failure p s

  pub flush_empty :
      (b : Held m.Error) (s : S)
      → b.failure ≡ none
      → b.bytes ≡ []
      → ((flush b s).0 ≡ none)
        × ((flush b s).1.bytes ≡ [])
        × ((flush b s).1.failure ≡ none)
        × ((flush b s).2 ≡ s)
  flush_empty b s f e = ground arith

  pub flush_full :
      (b : Held m.Error) (s : S)
      → b.failure ≡ none
      → b.bytes ≢ []
      → (write m ws b.bytes s).0 ≡ length b.bytes
      → (write m ws b.bytes s).1 ≡ none
      → ((flush b s).0 ≡ none)
        × ((flush b s).1.bytes ≡ [])
        × ((flush b s).1.failure ≡ none)
        × ((flush b s).2 ≡ (write m ws b.bytes s).2)
  flush_full b s f e n x = ground arith

  pub flush_fails :
      (b : Held m.Error) (s : S) (e : m.Error)
      → b.failure ≡ none
      → b.bytes ≢ []
      → (write m ws b.bytes s).1 ≡ some e
      → ((flush b s).0 ≡ some e)
        × ((flush b s).1.failure ≡ some e)
        × ((flush b s).2 ≡ (write m ws b.bytes s).2)
  flush_fails b s e f full x = ground arith

  pub write_fits :
      (b : Held m.Error) (p : Bytes) (s : S)
      → b.failure ≡ none
      → length p ≤ b.size - length b.bytes
      → ((write_buf b p s).0 ≡ length p)
        × ((write_buf b p s).1 ≡ none)
        × ((write_buf b p s).2.bytes ≡ b.bytes ++ p)
        × ((write_buf b p s).2.failure ≡ none)
        × ((write_buf b p s).3 ≡ s)
  write_fits b p s f fits = ground arith

  pub write_large :
      (b : Held m.Error) (p : Bytes) (s : S)
      → b.failure ≡ none
      → b.bytes ≡ []
      → b.size - length b.bytes < length p
      → (write m ws p s).0 ≡ length p
      → (write m ws p s).1 ≡ none
      → ((write_buf b p s).0 ≡ length p)
        × ((write_buf b p s).1 ≡ none)
        × ((write_buf b p s).2.bytes ≡ [])
        × ((write_buf b p s).2.failure ≡ none)
        × ((write_buf b p s).3 ≡ (write m ws p s).2)
  write_large b p s f e large n x = ground arith

  pub write_failed :
      (b : Held m.Error) (p : Bytes) (s : S) (e : m.Error)
      → b.failure ≡ some e
      → ((write_buf b p s).1 ≡ some e)
        × ((write_buf b p s).2.failure ≡ some e)
        × ((write_buf b p s).3 ≡ s)
  write_failed b p s e f = ground arith

  pub flush_failed :
      (b : Held m.Error) (s : S) (e : m.Error)
      → b.failure ≡ some e
      → ((flush b s).0 ≡ some e) × ((flush b s).1.failure ≡ some e) × ((flush b s).2 ≡ s)
  flush_failed b s e f = ground arith

  -- The buffer as an instance of what is assumed of `bufio.Writer`.
  abbrev pub held : Bufio m ws
  held = record {
    Buf = Held m.Error;
    contents = λ b. b.bytes;
    failed = λ b. b.failure;
    available = λ b. b.size - length b.bytes;
    new_writer_size = new_held;
    flush = flush;
    write_buf = write_buf;
    new_contents = λ n. refl;
    new_failed = λ n. refl;
    new_available = λ n. omega arith;
    flush_empty = flush_empty;
    flush_full = flush_full;
    flush_fails = flush_fails;
    write_fits = write_fits;
    write_large = write_large;
    write_failed = write_failed;
    flush_failed = flush_failed;
  }
