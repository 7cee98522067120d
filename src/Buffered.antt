-- ===== src/Buffered.antt =====
-- zapcore/buffered_write_syncer.go: a destination behind an in-memory buffer, flushed when the next
-- record does not fit, at an interval, and on `Sync` and `Stop`.
-- The buffer is the standard library's `bufio.Writer`, a parameter with its documented behaviour.
-- The mutex makes each method one step; the background goroutine is a step of `Buffered.Run`.
pub mod Stdlib
pub mod Run
pub mod Whole
pub mod Delivery
pub mod Safety
pub mod Interleavings
pub mod Order
pub mod Failure
pub mod Stopping
mod Model
mod Tests
use buffer_full_flush_once.Common.{
  ℕ, ◌*◌, Bool, true, false, ◌&&◌, Option, none, some, ltb, leb, length, if◌then◌else◌,
}
use buffer_full_flush_once.Common.Int.{ℤ, pos, eqb_ℤ}
use buffer_full_flush_once.Common.Bytes.{Bytes}
use buffer_full_flush_once.Multierr.{Multierr}
use buffer_full_flush_once.WriteSyncer.{WriteSyncer, sync}
use buffer_full_flush_once.Buffered.Stdlib.{Bufio}

abbrev pub default_buffer_size : ℤ
default_buffer_size = pos (256 * 1024)

-- 30 seconds, in nanoseconds.
abbrev pub default_flush_interval : ℤ
default_flush_interval = pos (30 * 1_000_000_000)

pub record Ticker (Clock : Type 0) : Type 0 where
  pub clock : Clock
  pub interval : ℤ
  pub stopped : Bool

-- The fields that `initialize` sets. A channel that is closed counts as `true`; `done` is closed
-- when the goroutine of `flushLoop` has ended.
pub record Running (Buf Clock : Type 0) : Type 0 where
  pub writer : Buf
  pub ticker : Ticker Clock
  pub stopped : Bool
  pub stop : Bool
  pub done : Bool

-- `BufferedWriteSyncer`: `initialized` is that `running` is not `none`.
pub record BufferedWriteSyncer (Buf Clock : Type 0) : Type 0 where
  pub size : ℤ
  pub flush_interval : ℤ
  pub clock : Option Clock
  pub running : Option (Running Buf Clock)

module _ (m : Multierr) {S : Type 0} (ws : WriteSyncer S m.Error) (bufio : Bufio m ws)
    {Clock : Type 0} (default_clock : Clock) where
  -- What `initialize` makes of the configuration. The default clock goes to the ticker alone: that the
  -- source also stores it in the configuration changes nothing, which reads it nowhere else.
  unfoldable pub initialize : BufferedWriteSyncer bufio.Buf Clock → Running bufio.Buf Clock
  initialize b = record {
    writer = bufio.new_writer_size (if eqb_ℤ b.size (pos 0) then default_buffer_size else b.size);
    ticker = record {
      clock = elim b.clock [ some c ↦ c | none ↦ default_clock ];
      interval =
          if eqb_ℤ b.flush_interval (pos 0) then default_flush_interval else b.flush_interval;
      stopped = false;
    };
    stopped = false;
    stop = false;
    done = false;
  }

  -- `if !s.initialized { s.initialize() }`.
  abbrev pub initialized :
      BufferedWriteSyncer bufio.Buf Clock
      → Option (Running bufio.Buf Clock)
      → Running bufio.Buf Clock
  initialized b none = initialize b
  initialized b (some r) = r

  -- Whether the existing buffer is flushed first: the record does not fit, and there is something.
  abbrev pub must_flush : bufio.Buf → Bytes → Bool
  must_flush w p = ltb (bufio.available w) (length p) && ltb 0 (length (bufio.contents w))

  -- The end of `Write`: `return s.writer.Write(bs)`.
  write_through :
      BufferedWriteSyncer bufio.Buf Clock
      → Running bufio.Buf Clock
      → Bytes
      → S
      → ℕ × Option m.Error × BufferedWriteSyncer bufio.Buf Clock × S
  write_through b r p s =
      let (n, e, w, s') = bufio.write_buf r.writer p s in
      (n, e, record b { running = some (record r { writer = w }) }, s')

  -- A failed flush ends `Write`.
  after_flush :
      BufferedWriteSyncer bufio.Buf Clock
      → Running bufio.Buf Clock
      → Bytes
      → Option m.Error
      → S
      → ℕ × Option m.Error × BufferedWriteSyncer bufio.Buf Clock × S
  unfolding write_through
  after_flush b r p (some e) s = (0, some e, record b { running = some r }, s)
  after_flush b r p none s = write_through b r p s

  unfoldable pub write_running :
      BufferedWriteSyncer bufio.Buf Clock
      → Running bufio.Buf Clock
      → Bytes
      → S
      → ℕ × Option m.Error × BufferedWriteSyncer bufio.Buf Clock × S
  unfolding write_through after_flush
  write_running b r p s =
      if must_flush r.writer p
      then (let (e, w, s') = bufio.flush r.writer s in
          after_flush b (record r { writer = w }) p e s')
      else write_through b r p s

  -- `Write`.
  unfoldable pub write_buffered :
      Bytes
      → BufferedWriteSyncer bufio.Buf Clock
      → S
      → ℕ × Option m.Error × BufferedWriteSyncer bufio.Buf Clock × S
  write_buffered p b s = write_running b (initialized b b.running) p s

  -- `Sync`, once for each of the two cases of `initialized`.
  unfoldable pub sync_running :
      BufferedWriteSyncer bufio.Buf Clock
      → Option (Running bufio.Buf Clock)
      → S
      → Option m.Error × BufferedWriteSyncer bufio.Buf Clock × S
  sync_running b none s = let (e, s') = sync m ws s in (m.append none e, b, s')
  sync_running b (some r) s =
      let (e, w, s') = bufio.flush r.writer s in
      let (e', s'') = sync m ws s' in
      (m.append e e', record b { running = some (record r { writer = w }) }, s'')

  unfoldable pub sync_buffered :
      BufferedWriteSyncer bufio.Buf Clock
      → S
      → Option m.Error × BufferedWriteSyncer bufio.Buf Clock × S
  unfolding sync_running
  sync_buffered b s = sync_running b b.running s

  -- The critical section of `Stop`: whether there is something to clean up.
  unfoldable pub stop_running :
      BufferedWriteSyncer bufio.Buf Clock
      → Option (Running bufio.Buf Clock)
      → Bool × BufferedWriteSyncer bufio.Buf Clock
  stop_running b none = (false, b)
  stop_running b (some r) = if r.stopped then (false, b) else (
    true,
    record b {
      running =
          some
            (record r { stopped = true; ticker = record r.ticker { stopped = true }; stop = true });
    },
  )

  unfoldable pub stop_begin :
      BufferedWriteSyncer bufio.Buf Clock → Bool × BufferedWriteSyncer bufio.Buf Clock
  unfolding stop_running
  stop_begin b = stop_running b b.running
