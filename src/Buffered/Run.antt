-- ===== src/Buffered/Run.antt =====
-- The interleavings of a `BufferedWriteSyncer`: its callers, the goroutine of `flushLoop`, and
-- `Stop`, which waits for that goroutine outside of the lock.
use buffer_full_flush_once.Common.{
  zero, suc, not, ◌&&◌, ◌>>=◌, if◌then◌else◌, Bool, true, false, Option, none, some, List, [], ◌∷◌,
  ◌++◌, ℕ,
}
use buffer_full_flush_once.Common.Bytes.{Bytes}
use buffer_full_flush_once.Multierr.{Multierr}
use buffer_full_flush_once.WriteSyncer.{WriteSyncer}
use buffer_full_flush_once.Buffered.Stdlib.{Bufio}
use buffer_full_flush_once.Buffered.{
  BufferedWriteSyncer, Running, write_buffered, sync_buffered, stop_begin,
}

-- What may happen next: a call of `Write` or `Sync`; a tick that `flushLoop` receives; the start of
-- a `Stop`; the end of `flushLoop`; the end of a `Stop` that waited.
pub data Event : Type 0 where
  write : Bytes → Event
  sync tick stop loop_exit stop_end : Event

-- The syncer, the destination, the records that `Write` accepted (with a nil error), in order, and
-- the number of calls of `Stop` that wait for `flushLoop`.
pub record State (Buf Clock S : Type 0) : Type 0 where
  pub syncer : BufferedWriteSyncer Buf Clock
  pub dest : S
  pub accepted : List Bytes
  pub waiting : ℕ

module _ (m : Multierr) {S : Type 0} (ws : WriteSyncer S m.Error) (bufio : Bufio m ws)
    {Clock : Type 0} (default_clock : Clock) where
  abbrev pub accepts : Option m.Error → Bytes → List Bytes
  accepts none p = p ∷ []
  accepts (some e) p = []

  abbrev pub call_sync : State bufio.Buf Clock S → State bufio.Buf Clock S
  call_sync st =
      let (e, b, s) = sync_buffered m ws bufio default_clock st.syncer st.dest in
      record st { syncer = b; dest = s }

  -- The rest of `Stop` is left to do only if the critical section returned true.
  unfoldable pub stopping :
      State bufio.Buf Clock S → Bool × BufferedWriteSyncer bufio.Buf Clock → State bufio.Buf Clock S
  stopping st (true, b) = record st { syncer = b; waiting = suc st.waiting }
  stopping st (false, b) = record st { syncer = b }

  -- `flushLoop` returns, and `defer` closes `done`, where `stop` is closed.
  unfoldable pub exiting :
      State bufio.Buf Clock S → Option (Running bufio.Buf Clock) → Option (State bufio.Buf Clock S)
  exiting st none = none
  exiting st (some r) =
      if r.stop && not r.done
      then some
          (record st { syncer = record st.syncer { running = some (record r { done = true }) } })
      else none

  abbrev pub is_done : Option (Running bufio.Buf Clock) → Bool
  is_done none = false
  is_done (some r) = r.done

  abbrev pub is_looping : Option (Running bufio.Buf Clock) → Bool
  is_looping none = false
  is_looping (some r) = not r.done

  unfoldable pub ending : State bufio.Buf Clock S → ℕ → Option (State bufio.Buf Clock S)
  ending st zero = none
  ending st (suc n) =
      if is_done st.syncer.running then some (record (call_sync st) { waiting = n }) else none

  -- A `Write` with a nil error has accepted its record.
  unfoldable pub returned :
      State bufio.Buf Clock S
      → Bytes
      → ℕ × Option m.Error × BufferedWriteSyncer bufio.Buf Clock × S
      → State bufio.Buf Clock S
  returned st p (n, e, b, s) = record st {
    syncer = b;
    dest = s;
    accepted = st.accepted ++ accepts e p;
  }

  abbrev pub call_write : Bytes → State bufio.Buf Clock S → State bufio.Buf Clock S
  call_write p st = returned st p (write_buffered m ws bufio default_clock p st.syncer st.dest)

  -- One step, or `none` where it cannot happen.
  unfoldable pub step : Event → State bufio.Buf Clock S → Option (State bufio.Buf Clock S)
  unfolding stopping exiting ending
  step (write p) st = some (call_write p st)
  step sync st = some (call_sync st)
  step tick st = if is_looping st.syncer.running then some (call_sync st) else none
  step stop st = some (stopping st (stop_begin m ws bufio default_clock st.syncer))
  step loop_exit st = exiting st st.syncer.running
  step stop_end st = ending st st.waiting

  unfoldable pub run : List Event → State bufio.Buf Clock S → Option (State bufio.Buf Clock S)
  run [] st = some st
  run (ev ∷ evs) st = step ev st >>= run evs
