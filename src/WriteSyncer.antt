-- ===== src/WriteSyncer.antt =====
-- zapcore/write_syncer.go: destinations of log output, and their combinations.
-- An operation takes the state `S` of the destinations and returns the new one. A mutex makes the
-- operation under it one step, so that it leaves no trace here.
pub mod Multi
mod Tests
use buffer_full_flush_once.Common.{
  ℕ, zero, suc, ◌&&◌, not, Option, none, some, List, [], ◌∷◌, ltb, ◌==◌, if◌then◌else◌,
}
use buffer_full_flush_once.Common.Bytes.{Bytes}
use buffer_full_flush_once.Multierr.{Multierr}

-- `io.Writer`: the count of bytes written, the error, and the new state.
abbrev pub Writer : Type 0 → Type 0 → Type 0
Writer S E = Bytes → S → ℕ × Option E × S

-- `external` is a destination with methods of its own; `wrapper` is `writerWrapper`.
mutual
  pub data WriteSyncer (S E : Type 0) : Type 0 where
    external : Writer S E → (S → Option E × S) → WriteSyncer S E
    wrapper : Writer S E → WriteSyncer S E
    locked : WriteSyncer S E → WriteSyncer S E
    multi : WriteSyncers S E → WriteSyncer S E

  pub data WriteSyncers (S E : Type 0) : Type 0 where
    nil : WriteSyncers S E
    cons : WriteSyncer S E → WriteSyncers S E → WriteSyncers S E

-- What `AddSync` is given: a writer that has a method `Sync`, or one that has none.
pub data IoWriter (S E : Type 0) : Type 0 where
  syncs : WriteSyncer S E → IoWriter S E
  plain : Writer S E → IoWriter S E

module _ {S E : Type 0} where
  unfoldable pub add_sync : IoWriter S E → WriteSyncer S E
  add_sync (syncs ws) = ws
  add_sync (plain w) = wrapper w

  -- `Lock`.
  unfoldable pub lock : WriteSyncer S E → WriteSyncer S E
  lock (locked ws) = locked ws
  lock ws = locked ws

  -- `NewMultiWriteSyncer`.
  unfoldable pub new_multi : WriteSyncers S E → WriteSyncer S E
  new_multi (cons ws nil) = ws
  new_multi ws = multi ws

-- The count that the loop of `multiWriteSyncer.Write` keeps.
unfoldable pub count_written : ℕ → ℕ → ℕ
count_written so_far n =
    if (so_far == 0) && not (n == 0) then n else if ltb n so_far then n else so_far

module _ (m : Multierr) {S : Type 0} where
  unfoldable mutual
    pub write : WriteSyncer S m.Error → Bytes → S → ℕ × Option m.Error × S
    write (external w sync_it) p s = w p s
    write (wrapper w) p s = w p s
    write (locked ws) p s = write ws p s
    write (multi ws) p s = write_all ws p 0 none s

    -- The loop of `multiWriteSyncer.Write`.
    pub write_all : WriteSyncers S m.Error → Bytes → ℕ → Option m.Error → S → ℕ × Option m.Error × S
    write_all nil p count e s = (count, e, s)
    write_all (cons w ws) p count e s =
        let (n, e', s') = write w p s in write_all ws p (count_written count n) (m.append e e') s'

  unfoldable mutual
    pub sync : WriteSyncer S m.Error → S → Option m.Error × S
    sync (external w sync_it) s = sync_it s
    sync (wrapper w) s = (none, s)
    sync (locked ws) s = sync ws s
    sync (multi ws) s = sync_all ws none s

    -- The loop of `multiWriteSyncer.Sync`.
    pub sync_all : WriteSyncers S m.Error → Option m.Error → S → Option m.Error × S
    sync_all nil e s = (e, s)
    sync_all (cons w ws) e s = let (e', s') = sync w s in sync_all ws (m.append e e') s'
