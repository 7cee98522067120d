-- ===== src/Core/Writing.antt =====
-- The methods Write and Sync of the cores.
use buffer_full_flush_once.Common.{
  Option, none, some, List, [], ◌∷◌, if◌then◌else◌, Result, ok, err,
}
use buffer_full_flush_once.Common.Int.{ltb_ℤ}
use buffer_full_flush_once.Common.Bytes.{Bytes}
use buffer_full_flush_once.Level.{error_level}
use buffer_full_flush_once.WriteSyncer.{WriteSyncer, write, sync}
use buffer_full_flush_once.Entry.{Entry}
use buffer_full_flush_once.Core.{
  Platform, Core, Cores, Hook, nop, io, multi, hooked, level_filter, sampler, lazy_with, nil, cons,
  init_once,
}

module _ (p : Platform) where
  -- `ioCore.Write` on the bytes of the encoded entry.
  unfoldable pub write_encoded :
      WriteSyncer p.State p.m.Error
      → Entry
      → Result p.m.Error Bytes
      → p.State
      → Option p.m.Error × p.State
  write_encoded out ent (err e) s = (some e, s)
  write_encoded out ent (ok bytes) s =
      let (n, e, s') = write p.m out bytes s in
      let (ignored, synced) = sync p.m out s' in
      (elim e as (λ _. Option p.m.Error × p.State) [
        | some e' ↦ (some e', s')
        | none ↦ (none, if ltb_ℤ error_level ent.level then synced else s')
      ])

  -- The loop of `hooked.Write`.
  unfoldable pub run_hooks :
      List (Hook p) → Entry → Option p.m.Error → p.State → Option p.m.Error × p.State
  run_hooks [] ent e s = (e, s)
  run_hooks (f ∷ fs) ent e s = let (e', s') = f ent s in run_hooks fs ent (p.m.append e e') s'

module _ {p : Platform} where
  unfoldable mutual
    pub write_core : Core p → Entry → List p.Field → p.State → Option p.m.Error × p.State
    write_core nop ent fields s = (none, s)
    write_core (io enab enc out) ent fields s =
        write_encoded p out ent (p.encode_entry enc ent fields) s
    write_core (multi cores) ent fields s = write_cores cores ent fields none s
    write_core (hooked core funcs) ent fields s = run_hooks p funcs ent none s
    write_core (level_filter core enab) ent fields s = write_core core ent fields s
    write_core (sampler core g) ent fields s = write_core core ent fields s
    write_core (lazy_with original core fields' once) ent fields s =
        write_core core ent fields (init_once original once s)

    -- The loop of `multiCore.Write`.
    pub write_cores :
        Cores p → Entry → List p.Field → Option p.m.Error → p.State → Option p.m.Error × p.State
    write_cores nil ent fields e s = (e, s)
    write_cores (cons core cores) ent fields e s =
        let (e', s') = write_core core ent fields s in
        write_cores cores ent fields (p.m.append e e') s'

  unfoldable mutual
    pub sync_core : Core p → p.State → Option p.m.Error × p.State
    sync_core nop s = (none, s)
    sync_core (io enab enc out) s = sync p.m out s
    sync_core (multi cores) s = sync_cores cores none s
    sync_core (hooked core funcs) s = sync_core core s
    sync_core (level_filter core enab) s = sync_core core s
    sync_core (sampler core g) s = sync_core core s
    sync_core (lazy_with original core fields once) s = sync_core core (init_once original once s)

    -- The loop of `multiCore.Sync`.
    pub sync_cores : Cores p → Option p.m.Error → p.State → Option p.m.Error × p.State
    sync_cores nil e s = (e, s)
    sync_cores (cons core cores) e s =
        let (e', s') = sync_core core s in sync_cores cores (p.m.append e e') s'
