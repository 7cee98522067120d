-- ===== src/Core.antt =====
-- zapcore/core.go, tee.go, hook.go, increase_level.go, lazy_with.go and the core of sampler.go:
-- the cores, their levels, and the fields that are added to them.
-- `Core/Writing.antt` has their Write and Sync, `Core/Checking.antt` their Check and the checked
-- entries of entry.go.
pub mod Samplers
pub mod Writing
pub mod Checking
pub mod Enabling
pub mod Fresh
pub mod Increasing
pub mod Tee
pub mod Sampled
pub mod Once
mod Tests
use buffer_full_flush_once.Common.{
  ℕ, zero, suc, Bool, true, false, not, ◌&&◌, ◌||◌, Option, none, some, List, [], ◌∷◌,
  if◌then◌else◌, Ref, Result, ok, err,
}
use buffer_full_flush_once.Common.Int.{ℤ, negsuc, ltb_ℤ, ◌+ℤ◌}
use buffer_full_flush_once.Common.Bytes.{Bytes}
use buffer_full_flush_once.Multierr.{Multierr}
use buffer_full_flush_once.Level.{Level, LevelEnabler, level_of, max_level, min_level, scan_levels}
use buffer_full_flush_once.WriteSyncer.{WriteSyncer}
use buffer_full_flush_once.Sampler.{Counters}
use buffer_full_flush_once.Entry.{Entry}

-- What the cores are built over: the state that they share with the outside, encoders, which are
-- values here since a core changes only a clone, and the texts that the package fmt makes.
pub record Platform : Type 1 where
  pub m : Multierr
  pub State : Type 0
  pub Field : Type 0
  pub Encoder : Type 0
  pub add_fields : Encoder → List Field → Encoder
  pub encode_entry : Encoder → Entry → List Field → Result m.Error Bytes
  pub increase_error : Level → m.Error
  pub write_error_text : ℤ → m.Error → Bytes
  pub reuse_text : ℤ → Entry → Bytes

pub data SamplingDecision : Type 0 where
  log_dropped : SamplingDecision
  log_sampled : SamplingDecision

-- The fields of `sampler` besides its core. All copies that With makes share `counts`.
pub record Sampling (p : Platform) : Type 0 where
  pub counts : Ref p.State Counters
  pub tick : ℤ
  pub first : ℕ
  pub thereafter : ℕ
  pub hook : Entry → SamplingDecision → p.State → p.State

abbrev pub Hook : Platform → Type 0
Hook p = Entry → p.State → Option p.m.Error × p.State

-- `lazy_with original core fields once`: `core` is what initOnce stores there, the original core
-- with the fields, and `once` says whether it has. The values of fields are taken not to change, so
-- that With always gives the same core and the value may stand there before; what With changes in the
-- state happens when initOnce runs.
mutual
  pub data Core (p : Platform) : Type 0 where
    nop : Core p
    io : LevelEnabler p.State → p.Encoder → WriteSyncer p.State p.m.Error → Core p
    multi : Cores p → Core p
    hooked : Core p → List (Hook p) → Core p
    level_filter : Core p → LevelEnabler p.State → Core p
    sampler : Core p → Sampling p → Core p
    lazy_with : Core p → Core p → List p.Field → Ref p.State Bool → Core p

  pub data Cores (p : Platform) : Type 0 where
    nil : Cores p
    cons : Core p → Cores p → Cores p

-- `NewTee`, of the cores in order.
unfoldable pub new_tee : {p : Platform} → Cores p → Core p
new_tee nil = nop
new_tee (cons core nil) = core
new_tee cores = multi cores

-- An enabler without a method Level.
abbrev pub unleveled : {S : Type 0} → (Level → S → Bool) → LevelEnabler S
unleveled f = record { enabled = f; level = none }

-- `Once.Do` of a call that would change the state `s` to `s'`.
abbrev pub do_once : {S : Type 0} → Ref S Bool → S → S → S
do_once once s' s = if once.load s then s else once.store true s'

module _ {p : Platform} where
  -- The methods Enabled.
  unfoldable mutual
    pub core_enabled : Core p → Level → p.State → Bool
    core_enabled nop lvl s = false
    core_enabled (io enab enc out) lvl s = enab.enabled lvl s
    core_enabled (multi cores) lvl s = any_enabled cores lvl s
    core_enabled (hooked core funcs) lvl s = core_enabled core lvl s
    core_enabled (level_filter core enab) lvl s = enab.enabled lvl s
    core_enabled (sampler core g) lvl s = core_enabled core lvl s
    core_enabled (lazy_with original core fields once) lvl s = core_enabled original lvl s

    pub any_enabled : Cores p → Level → p.State → Bool
    any_enabled nil lvl s = false
    any_enabled (cons core cores) lvl s =
        if core_enabled core lvl s then true else any_enabled cores lvl s

  -- LevelOf of a core, with the methods Level.
  unfoldable mutual
    pub core_level : Core p → p.State → Level
    core_level nop s = level_of (unleveled (λ lvl s'. false)) s
    core_level (io enab enc out) s = level_of enab s
    core_level (multi cores) s = least_level cores max_level s
    core_level (hooked core funcs) s = core_level core s
    core_level (level_filter core enab) s = level_of enab s
    core_level (sampler core g) s = core_level core s
    core_level (lazy_with original core fields once) s =
        level_of (unleveled (core_enabled original)) s

    -- The loop of `multiCore.Level`.
    pub least_level : Cores p → Level → p.State → Level
    least_level nil min_lvl s = min_lvl
    least_level (cons core cores) min_lvl s =
        let lvl = core_level core s in
        least_level cores (if ltb_ℤ lvl min_lvl then lvl else min_lvl) s

  -- The methods With: the new core.
  unfoldable mutual
    pub with_fields : Core p → List p.Field → Core p
    with_fields nop fields = nop
    with_fields (io enab enc out) fields = io enab (p.add_fields enc fields) out
    with_fields (multi cores) fields = multi (all_with cores fields)
    with_fields (hooked core funcs) fields = hooked (with_fields core fields) funcs
    with_fields (level_filter core enab) fields = level_filter (with_fields core fields) enab
    with_fields (sampler core g) fields = sampler (with_fields core fields) g
    with_fields (lazy_with original core fields' once) fields = with_fields core fields

    pub all_with : Cores p → List p.Field → Cores p
    all_with nil fields = nil
    all_with (cons core cores) fields = cons (with_fields core fields) (all_with cores fields)

  -- The methods With: the new state. `initOnce` runs the first time only.
  unfoldable mutual
    pub with_effect : Core p → p.State → p.State
    with_effect nop s = s
    with_effect (io enab enc out) s = s
    with_effect (multi cores) s = all_with_effect cores s
    with_effect (hooked core funcs) s = with_effect core s
    with_effect (level_filter core enab) s = with_effect core s
    with_effect (sampler core g) s = with_effect core s
    with_effect (lazy_with original core fields once) s =
        with_effect core (do_once once (with_effect original s) s)

    pub all_with_effect : Cores p → p.State → p.State
    all_with_effect nil s = s
    all_with_effect (cons core cores) s = all_with_effect cores (with_effect core s)

  -- `lazyWithCore.initOnce`.
  unfoldable pub init_once : Core p → Ref p.State Bool → p.State → p.State
  init_once original once s = do_once once (with_effect original s) s

-- `NewLazyWith`, with a new `once`.
unfoldable pub new_lazy_with : {p : Platform} → Core p → List p.Field → Ref p.State Bool → Core p
new_lazy_with core fields once = lazy_with core (with_fields core fields) fields once

-- The loop of `NewIncreaseLevelCore` from `l` down, and the function: the loop makes a round for
-- each of the seven levels.
pub first_increased :
    {p : Platform} → ℕ → Level → Core p → LevelEnabler p.State → p.State → Option Level
first_increased zero l core enab s = none
first_increased (suc k) l core enab s =
    let rest = first_increased k (l +ℤ negsuc 0) core enab s in
    if not (core_enabled core l s) && enab.enabled l s then some l else rest

unfoldable pub increased :
    {p : Platform} → Core p → LevelEnabler p.State → Option Level → Result p.m.Error (Core p)
increased {p} core enab (some l) = err (p.increase_error l)
increased {p} core enab none = ok (level_filter core enab)

unfoldable pub new_increase_level :
    {p : Platform} → Core p → LevelEnabler p.State → p.State → Result p.m.Error (Core p)
unfolding first_increased
new_increase_level core enab s = increased core enab (first_increased 7 max_level core enab s)
