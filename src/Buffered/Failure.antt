-- ===== src/Buffered/Failure.antt =====
-- What `BufferedWriteSyncer` does when the destination fails.
use mathlib.Core.Path.{subst}
use buffer_full_flush_once.Common.{
  ◌≡◌, ◌≢◌, refl, ap, ◌∙◌, true, none, some, arith, Bool-cases, inl, inr, sym,
}
use buffer_full_flush_once.Common.Bytes.{Bytes}
use buffer_full_flush_once.Multierr.{Multierr, append-eq-none}
use buffer_full_flush_once.WriteSyncer.{WriteSyncer, write, sync}
use buffer_full_flush_once.Buffered.Stdlib.{Bufio}
use buffer_full_flush_once.Buffered.{
  BufferedWriteSyncer, Running, must_flush, write_through, after_flush, write_running,
  write_buffered, sync_running, sync_buffered,
}
use buffer_full_flush_once.Buffered.Whole.{flush_full}

module _ (m : Multierr) {S : Type 0} (ws : WriteSyncer S m.Error) (bufio : Bufio m ws)
    {Clock : Type 0} (default_clock : Clock) where
  -- The syncer of `b'` is that of `b` but for its buffer, behind which a write has failed with `e`.
  pub record HasFailed (e : m.Error) (b' : BufferedWriteSyncer bufio.Buf Clock) : Type 0 where
    pub fields : Running bufio.Buf Clock
    pub is_running : b'.running ≡ some fields
    pub failed : bufio.failed fields.writer ≡ some e

  write_buffered-running :
      (p : Bytes) (b : BufferedWriteSyncer bufio.Buf Clock) (r : Running bufio.Buf Clock) (s : S)
      → b.running ≡ some r
      → write_buffered m ws bufio default_clock p b s
        ≡ write_running m ws bufio default_clock b r p s
  unfolding write_buffered
  write_buffered-running p b r s e = ground arith

  failing_flush :
      (p : Bytes) (b : BufferedWriteSyncer bufio.Buf Clock) (r : Running bufio.Buf Clock) (s : S)
      (e : m.Error)
      → must_flush m ws bufio default_clock r.writer p ≡ true
      → (bufio.flush r.writer s).0 ≡ some e
      → bufio.failed (bufio.flush r.writer s).1 ≡ some e
      → let (n, e', b', s') = write_running m ws bufio default_clock b r p s in
        (n ≡ 0) × (e' ≡ some e) × (s' ≡ (bufio.flush r.writer s).2) × HasFailed e b'
  unfolding write_running after_flush
  failing_flush p b r s e full x f =
      rw (full, x)
        (
          refl,
          refl,
          refl,
          record {
            fields = record r { writer = (bufio.flush r.writer s).1 };
            is_running = refl;
            failed = f;
          },
        )

  -- Where the record does not fit and the flush of what is buffered fails, `Write` returns the error
  -- and the count 0, the destination was written to once, with the buffered bytes and nothing of
  -- the record, and the syncer has failed.
  pub write_buffered-flush_fails :
      (p : Bytes) (b : BufferedWriteSyncer bufio.Buf Clock) (r : Running bufio.Buf Clock) (s : S)
      (e : m.Error)
      → b.running ≡ some r
      → bufio.failed r.writer ≡ none
      → must_flush m ws bufio default_clock r.writer p ≡ true
      → (write m ws (bufio.contents r.writer) s).1 ≡ some e
      → let (n, e', b', s') = write_buffered m ws bufio default_clock p b s in
        (n ≡ 0) × (e' ≡ some e) × (s' ≡ (write m ws (bufio.contents r.writer) s).2) × HasFailed e b'
  write_buffered-flush_fails p b r s e run sound full fails =
      let (x, f, d) =
        bufio.flush_fails r.writer s e sound
          (flush_full (bufio.available r.writer) p (bufio.contents r.writer) full) fails in
      let (n, e', s', h) = failing_flush p b r s e full x f in
      rw (write_buffered-running p b r s run) (n, e', s' ∙ d, h)

  -- Once the syncer has failed it stays so: `Write` returns the error of the failure, and the
  -- destination sees nothing.
  pub write_buffered-HasFailed :
      (p : Bytes) (b : BufferedWriteSyncer bufio.Buf Clock) (s : S) (e : m.Error)
      → HasFailed e b
      → let (n, e', b', s') = write_buffered m ws bufio default_clock p b s in
        (e' ≡ some e) × (s' ≡ s) × HasFailed e b'
  write_buffered-HasFailed p b s e h =
      let r = h.fields in
      rw (write_buffered-running p b r s h.is_running)
        (elim (Bool-cases (must_flush m ws bufio default_clock r.writer p)) [
          | inl full ↦
              let (x, f, d) = bufio.flush_failed r.writer s e h.failed in
              let (n, e', s', h') = failing_flush p b r s e full x f in (e', s' ∙ d, h')
          | inr skip ↦
              let (x, f, d) = bufio.write_failed r.writer p s e h.failed in
              unfold write_running write_through in
              rw skip (
                x,
                d,
                record {
                  fields = record r { writer = (bufio.write_buf r.writer p s).2 };
                  is_running = refl;
                  failed = f;
                },
              )
        ])

  -- Once the syncer has failed, `Sync` still syncs the destination, returns an error whatever the
  -- destination returns, and leaves the syncer failed.
  pub sync_buffered-HasFailed :
      (b : BufferedWriteSyncer bufio.Buf Clock) (s : S) (e : m.Error)
      → HasFailed e b
      → let (e', b', s') = sync_buffered m ws bufio default_clock b s in
        (e' ≢ none) × (s' ≡ (sync m ws s).1) × HasFailed e b'
  unfolding sync_buffered
  sync_buffered-HasFailed b s e h =
      subst
        (λ o.
          let (e', b', s') = sync_running m ws bufio default_clock b o s in
          (e' ≢ none) × (s' ≡ (sync m ws s).1) × HasFailed e b')
        (sym h.is_running) (of_running h.fields h.failed)
    where
      of_running :
          (r : Running bufio.Buf Clock)
          → bufio.failed r.writer ≡ some e
          → let (e', b', s') = sync_running m ws bufio default_clock b (some r) s in
            (e' ≢ none) × (s' ≡ (sync m ws s).1) × HasFailed e b'
      of_running r failed =
          let (x, f, d) = bufio.flush_failed r.writer s e failed in
          let w : bufio.Buf = (bufio.flush r.writer s).1 in
          (
            λ z. cc (x, (append-eq-none m _ _ z).0),
            ap (λ t. (sync m ws t).1) d,
            record { fields = record r { writer = w }; is_running = refl; failed = f },
          )
