-- ===== src/Logger/Options.antt =====
-- options.go: the options of a logger, `WithOptions` and `WithLazy`; and what holds
-- of them.
use mathlib.Core.Path.{subst}
use buffer_full_flush_once.Common.{
  ℕ, List, [], ◌∷◌, ◌++◌, ◌≡◌, refl, ap, inl, inr, Bool, true, false, some, Result, ok, err, Ref,
  append_assoc,
}
use buffer_full_flush_once.Common.Int.{ℤ, ◌+ℤ◌}
use buffer_full_flush_once.Common.Bytes.{Bytes, codes, is_empty}
use buffer_full_flush_once.Level.{Level, LevelEnabler}
use buffer_full_flush_once.WriteSyncer.{WriteSyncer, write}
use buffer_full_flush_once.Core.{
  Platform, Core, Hook, hooked, core_enabled, with_fields, with_effect, new_lazy_with,
  new_increase_level,
}
use buffer_full_flush_once.Core.Checking.{CheckWriteHook}
use buffer_full_flush_once.Core.Increasing.{IsSupported, new_increase_level_lem}
use buffer_full_flush_once.Logger.{Logger, named, join_name}

-- An option, by the function that makes it. `wrap_core` may change the state, as With does.
pub data LoggerOption (p : Platform) : Type 0 where
  wrap_core : (Core p → p.State → Core p × p.State) → LoggerOption p
  hooks : List (Hook p) → LoggerOption p
  fields : List p.Field → LoggerOption p
  error_output : WriteSyncer p.State p.m.Error → LoggerOption p
  set_development : LoggerOption p
  with_caller : Bool → LoggerOption p
  add_caller_skip : ℤ → LoggerOption p
  add_stacktrace : LevelEnabler p.State → LoggerOption p
  increase_level : LevelEnabler p.State → LoggerOption p
  with_panic_hook : CheckWriteHook p → LoggerOption p
  with_fatal_hook : CheckWriteHook p → LoggerOption p
  with_clock : (p.State → ℤ × p.State) → LoggerOption p

module _ (p : Platform) (increase_text : p.m.Error → Bytes) where
  -- `IncreaseLevel`, with what NewIncreaseLevelCore returns. Fprintf's error is ignored, and the
  -- error output is not synced.
  unfoldable pub increase : Logger p → Result p.m.Error (Core p) → p.State → Logger p × p.State
  increase log (ok core) s = (record log { core = core }, s)
  increase log (err e) s =
      let (n, ignored, s') = write p.m log.error_output (increase_text e) s in (log, s')

  unfoldable pub apply_option : LoggerOption p → Logger p → p.State → Logger p × p.State
  apply_option (wrap_core f) log s =
      let (core, s') = f log.core s in (record log { core = core }, s')
  apply_option (hooks funcs) log s = (record log { core = hooked log.core funcs }, s)
  apply_option (fields fs) log s =
      (record log { core = with_fields log.core fs }, with_effect log.core s)
  apply_option (error_output out) log s = (record log { error_output = out }, s)
  apply_option set_development log s = (record log { development = true }, s)
  apply_option (with_caller on) log s = (record log { add_caller = on }, s)
  apply_option (add_caller_skip skip) log s =
      (record log { caller_skip = log.caller_skip +ℤ skip }, s)
  apply_option (add_stacktrace enab) log s = (record log { add_stack = enab }, s)
  apply_option (increase_level enab) log s = increase log (new_increase_level log.core enab s) s
  apply_option (with_panic_hook hook) log s = (record log { on_panic = some hook }, s)
  apply_option (with_fatal_hook hook) log s = (record log { on_fatal = some hook }, s)
  apply_option (with_clock clock) log s = (record log { clock = clock }, s)

  -- `Logger.WithOptions`.
  unfoldable pub with_options : List (LoggerOption p) → Logger p → p.State → Logger p × p.State
  with_options [] log s = (log, s)
  with_options (opt ∷ opts) log s =
      let (log', s') = apply_option opt log s in with_options opts log' s'

  -- `Logger.WithLazy`, with the cell of the new core.
  unfoldable pub with_lazy :
      List p.Field → Ref p.State Bool → Logger p → p.State → Logger p × p.State
  with_lazy [] once log s = (log, s)
  with_lazy (f ∷ fs) once log s =
      with_options (wrap_core (λ core s'. (new_lazy_with core (f ∷ fs) once, s')) ∷ []) log s

  -- IncreaseLevel only takes levels away: a supported level that the core of the resulting logger
  -- enables was core_enabled before, whatever the enabler and whether or not the option fails.
  pub increase_level-enabled :
      (enab : LevelEnabler p.State) (log : Logger p) (lvl : Level) (s : p.State)
      → IsSupported lvl
      → core_enabled (apply_option (increase_level enab) log s).0.core lvl s ≡ true
      → core_enabled log.core lvl s ≡ true
  unfolding apply_option increase core_enabled
  increase_level-enabled enab log lvl s supported on =
      let Enabled : Result p.m.Error (Core p) → Type 0 =
        λ r. core_enabled (increase log r s).0.core lvl s ≡ true in
      elim (new_increase_level_lem p log.core enab s) [
        | inl (e, up) ↦ up lvl supported (subst Enabled e on)
        | inr (l, e, within, increases) ↦ subst Enabled e on
      ]

join_name-join_name :
    (name : Bytes) (c d : ℕ) (s t : Bytes)
    → join_name (join_name name (c ∷ s)) (d ∷ t)
      ≡ join_name name ((c ∷ s) ++ (codes "." ++ (d ∷ t)))
join_name-join_name [] c d s t = refl
join_name-join_name (b ∷ name) c d s t =
    append_assoc (b ∷ name) (codes "." ++ (c ∷ s)) (codes "." ++ (d ∷ t))

-- A logger named twice has the two names joined by a dot.
pub named-named :
    {p : Platform} (log : Logger p) (s t : Bytes)
    → is_empty s ≡ false
    → is_empty t ≡ false
    → named (named log s) t ≡ named log (s ++ (codes "." ++ t))
unfolding named
named-named log [] t hs ht = cc
named-named log (c ∷ s) [] hs ht = cc
named-named log (c ∷ s) (d ∷ t) hs ht =
    ap (λ n. record log { name = n }) (join_name-join_name log.name c d s t)
