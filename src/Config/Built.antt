-- ===== src/Config/Built.antt =====
-- config.go: the logger that `Config.Build` returns.
use buffer_full_flush_once.Common.{
  ◌≡◌, refl, ap, ◌∙◌, Bool, true, false, not, Option, none, some, List, [], ◌∷◌, ◌++◌,
  if◌then◌else◌, ok,
}
use buffer_full_flush_once.Level.{Level, LevelEnabler, static, fatal_level}
use buffer_full_flush_once.Common.Int.{pos, ◌+ℤ◌}
use buffer_full_flush_once.Common.Bytes.{Bytes}
use buffer_full_flush_once.AtomicLevel.{AtomicLevel, atomic, level_enabled}
use buffer_full_flush_once.WriteSyncer.{WriteSyncer}
use buffer_full_flush_once.Core.{Platform, Core, io, core_enabled, with_fields, with_effect}
use buffer_full_flush_once.Core.Samplers.{new_sampler_with_options}
use buffer_full_flush_once.Encoder.{Formats}
use buffer_full_flush_once.Logger.{Logger}
use buffer_full_flush_once.Logger.Options.{
  LoggerOption, error_output, set_development, with_caller, add_stacktrace, apply_option,
  with_options,
}
use buffer_full_flush_once.Logger.Making.{new_logger, new_bare}
use buffer_full_flush_once.Config.{SamplingConfig, InitialFields}
use buffer_full_flush_once.Config.Building.{
  Setting, Configuration, Outputs, sampling_option, initial_option, build_options, option_if,
  stack_level, with_outputs, with_level, with_encoder, build_encoder, build, open_outputs,
}

-- What a configuration says of the logger: which levels the atomic level enables, in every state,
-- whether it is in development mode, adds callers, and from which level on it adds stacks; and that
-- it has no name.
pub record Configured (p : Platform) (V : Type 0) (f : Formats) (g : Setting p V f)
    (cfg : Configuration p V f g) (level : AtomicLevel p.State)
    (err_sink : WriteSyncer p.State p.m.Error) (log : Logger p) : Type 0 where
  pub levels : (lvl : Level) (s : p.State) → core_enabled log.core lvl s ≡ level_enabled level lvl s
  pub mode : log.development ≡ cfg.development
  pub callers : log.add_caller ≡ not cfg.disable_caller
  pub stacks :
      log.add_stack
      ≡ static (if cfg.disable_stacktrace then fatal_level +ℤ pos 1 else stack_level p V f g cfg)
  pub errors : log.error_output ≡ err_sink
  pub unnamed : log.name ≡ []

module _ (p : Platform) (V : Type 0) (f : Formats) (g : Setting p V f) where
  with_options-append :
      (xs ys : List (LoggerOption p)) (log : Logger p) (s : p.State)
      → let (log', s') = with_options p g.process.increase_text xs log s in
        with_options p g.process.increase_text (xs ++ ys) log s
        ≡ with_options p g.process.increase_text ys log' s'
  unfolding with_options
  with_options-append [] ys log s = refl
  with_options-append (x ∷ xs) ys log s =
      let (log', s') = apply_option p g.process.increase_text x log s in
      with_options-append xs ys log' s'

  -- A logger that differs from another only in its core, which enables the same levels.
  record SameBut (log log' : Logger p) : Type 0 where
    same_levels :
        (lvl : Level) (s : p.State) → core_enabled log'.core lvl s ≡ core_enabled log.core lvl s
    same_rest : log' ≡ record log { core = log'.core }

  -- The last options, on a logger whose core is an ioCore.
  SameBut-cores :
      (sampling : Option (SamplingConfig p.State)) (initial : InitialFields V) (log : Logger p)
      (enab : LevelEnabler p.State) (enc : p.Encoder) (out : WriteSyncer p.State p.m.Error)
      (s : p.State)
      → log.core ≡ io enab enc out
      → SameBut log
          (with_options p g.process.increase_text
            (sampling_option p V f g sampling ++ initial_option p V f g initial)
            log
            s).0
  unfolding with_options sampling_option initial_option apply_option new_sampler_with_options
      core_enabled with_fields with_effect
  SameBut-cores sampling initial log enab enc out s e = from sampling initial.keys
    where
      from :
          (sampling : Option (SamplingConfig p.State)) (keys : List Bytes)
          → SameBut log
              (with_options p g.process.increase_text
                (sampling_option p V f g sampling
                  ++ initial_option p V f g (record { keys = keys; value = initial.value }))
                log
                s).0
      from none [] = record { same_levels = λ lvl s1. refl; same_rest = refl }
      from none (k ∷ ks) = record { same_levels = λ lvl s1. rw e refl; same_rest = refl }
      from (some scfg) [] = record { same_levels = λ lvl s1. refl; same_rest = refl }
      from (some scfg) (k ∷ ks) = record { same_levels = λ lvl s1. rw e refl; same_rest = refl }

  -- The logger after the first options.
  abbrev prepared : Bool → Bool → Bool → Level → WriteSyncer p.State p.m.Error → Core p → Logger p
  prepared d c k lvl err_sink core = record (new_bare p g.process core) {
    error_output = err_sink;
    development = d;
    add_caller = not c;
    add_stack = static (if k then fatal_level +ℤ pos 1 else lvl);
  }

  first_options :
      (d c k : Bool) (lvl : Level) (err_sink : WriteSyncer p.State p.m.Error) (core : Core p)
      (ys : List (LoggerOption p)) (s : p.State)
      → with_options p g.process.increase_text
          (error_output err_sink
            ∷ (option_if p V f g d set_development
                ++ (option_if p V f g (not c) (with_caller true)
                    ++ (option_if p V f g (not k) (add_stacktrace (static lvl)) ++ ys))))
          (new_bare p g.process core)
          s
        ≡ with_options p g.process.increase_text ys (prepared d c k lvl err_sink core) s
  unfolding with_options apply_option new_bare
  first_options true true true lvl err_sink core ys s = refl
  first_options true true false lvl err_sink core ys s = refl
  first_options true false true lvl err_sink core ys s = refl
  first_options true false false lvl err_sink core ys s = refl
  first_options false true true lvl err_sink core ys s = refl
  first_options false true false lvl err_sink core ys s = refl
  first_options false false true lvl err_sink core ys s = refl
  first_options false false false lvl err_sink core ys s = refl

  Configured-new_logger :
      (cfg : Configuration p V f g) (enc : p.Encoder) (level : AtomicLevel p.State)
      (sink err_sink : WriteSyncer p.State p.m.Error) (s : p.State)
      → Configured p V f g cfg level err_sink
          (new_logger p g.process
            (some (io (atomic level) enc sink))
            (build_options p V f g cfg err_sink)
            s).0
  unfolding new_logger build_options new_bare core_enabled atomic
  Configured-new_logger cfg enc level sink err_sink s =
      let core = io (atomic level) enc sink in
      let lvl = stack_level p V f g cfg in
      let log =
        prepared cfg.development cfg.disable_caller cfg.disable_stacktrace lvl err_sink core in
      let same = SameBut-cores cfg.sampling cfg.initial_fields log (atomic level) enc sink s refl in
      rw
        (first_options cfg.development cfg.disable_caller cfg.disable_stacktrace lvl err_sink core
          (sampling_option p V f g cfg.sampling ++ initial_option p V f g cfg.initial_fields) s)
        (record {
          levels = same.same_levels;
          mode = ap (λ l. l.development) same.same_rest;
          callers = ap (λ l. l.add_caller) same.same_rest;
          stacks = ap (λ l. l.add_stack) same.same_rest;
          errors = ap (λ l. l.error_output) same.same_rest;
          unnamed = ap (λ l. l.name) same.same_rest;
        })

  abbrev built :
      Configuration p V f g → p.Encoder → AtomicLevel p.State → Outputs p V f g → p.State → Logger p
  built cfg enc level out s =
      (new_logger p g.process (some (io (atomic level) enc out.0)) (build_options p V f g cfg out.1)
        (open_outputs p V f g cfg s).1).0

  with_level-built :
      (cfg : Configuration p V f g) (s : p.State) (enc : p.Encoder) (level : AtomicLevel p.State)
      (out : Outputs p V f g)
      → (open_outputs p V f g cfg s).0 ≡ ok out
      → (with_level p V f g cfg [] enc (some level) s).0 ≡ ok (built cfg enc level out s)
  unfolding with_level with_outputs
  with_level-built cfg s enc level out opened = rw (with_outputs, opened) refl

  -- Where the encoder is found, the level is there and the outputs open, Build without options
  -- returns a logger. It enables at every moment what the configuration's atomic level enables then,
  -- whether or not it samples and has initial fields; its mode, its callers, the level of its stacks
  -- and its error output are those of the configuration.
  pub build-Configured :
      (cfg : Configuration p V f g) (s : p.State) (enc : p.Encoder) (level : AtomicLevel p.State)
      (out : Outputs p V f g)
      → build_encoder p V f g cfg ≡ ok enc
      → cfg.level ≡ some level
      → (open_outputs p V f g cfg s).0 ≡ ok out
      → (log : Logger p) × ((build p V f g cfg [] s).0 ≡ ok log)
        × Configured p V f g cfg level out.1 log
  unfolding build with_encoder
  build-Configured cfg s enc level out found leveled opened = (
    built cfg enc level out s,
    ap (λ r. (with_encoder p V f g cfg [] r s).0) found
        ∙ ap (λ l. (with_level p V f g cfg [] enc l s).0) leveled
        ∙ with_level-built cfg s enc level out opened,
    Configured-new_logger cfg enc level out.0 out.1 _,
  )
