-- ===== src/Config/Building.antt =====
-- config.go: `Config.Build`.
use buffer_full_flush_once.Common.{
  Bool, true, false, not, Option, none, some, List, [], ◌∷◌, ◌++◌, map, if◌then◌else◌, Ref, Result,
  ok, err,
}
use buffer_full_flush_once.Common.Int.{ℤ, pos}
use buffer_full_flush_once.Common.Bytes.{Bytes}
use buffer_full_flush_once.Level.{Level, static, debug_level, error_level, warn_level}
use buffer_full_flush_once.AtomicLevel.{AtomicLevel, atomic}
use buffer_full_flush_once.WriteSyncer.{WriteSyncer}
use buffer_full_flush_once.Sampler.{Counters}
use buffer_full_flush_once.Core.{Platform, io}
use buffer_full_flush_once.Core.Samplers.{SamplerOption, sampler_hook, new_sampler_with_options}
use buffer_full_flush_once.Encoder.{Formats}
use buffer_full_flush_once.Encoder.Config.{EncoderConfig}
use buffer_full_flush_once.Sinks.{SinkRegistry}
use buffer_full_flush_once.Sinks.Opening.{Factory, open_paths}
use buffer_full_flush_once.Logger.{Logger}
use buffer_full_flush_once.Logger.Options.{
  LoggerOption, wrap_core, fields, error_output, set_development, with_caller, add_stacktrace,
  with_options,
}
use buffer_full_flush_once.Logger.Making.{Process, new_logger}
use buffer_full_flush_once.Config.{
  SamplingConfig, InitialFields, Config, new_production_config, example_encoder_config,
  new_development_config,
}
use buffer_full_flush_once.Config.Registry.{
  ConfigError, missing_level, EncoderRegistry, new_encoder,
}

abbrev pub second_tick : ℤ
second_tick = pos 1_000_000_000

-- What Build uses: the two registries, `Any`, sort.Strings, the errors, and the cell that
-- newCounters allocates.
pub record Setting (p : Platform) (V : Type 0) (f : Formats) : Type 0 where
  pub process : Process p
  pub sinks : SinkRegistry (Factory p.State p.m.Error)
  pub encoders : EncoderRegistry p.m.Error p.Encoder f
  pub any : Bytes → V → p.Field
  pub sort_strings : List Bytes → List Bytes
  pub config_errorf : ConfigError → p.m.Error
  pub counts : Ref p.State Counters

module _ (p : Platform) (V : Type 0) (f : Formats) (g : Setting p V f) where
  abbrev pub Configuration : Type 0
  Configuration = Config p.State V f

  abbrev pub sampler_options : SamplingConfig p.State → List (SamplerOption p)
  sampler_options scfg = elim scfg.hook [ none ↦ [] | some hook ↦ sampler_hook hook ∷ [] ]

  unfoldable pub sampling_option : Option (SamplingConfig p.State) → List (LoggerOption p)
  sampling_option none = []
  sampling_option (some scfg) =
      wrap_core (λ core s.
        new_sampler_with_options g.counts core second_tick scfg.initial scfg.thereafter
          (sampler_options scfg) s)
      ∷ []

  unfoldable pub initial_option : InitialFields V → List (LoggerOption p)
  initial_option initial = elim initial.keys as (λ _. List (LoggerOption p)) [
    | [] ↦ []
    | _ ∷ _ ↦ fields (map (λ k. g.any k (initial.value k)) (g.sort_strings initial.keys)) ∷ []
  ]

  abbrev pub option_if : Bool → LoggerOption p → List (LoggerOption p)
  option_if true opt = opt ∷ []
  option_if false opt = []

  abbrev pub stack_level : Configuration → Level
  stack_level cfg = if cfg.development then warn_level else error_level

  -- `buildOptions`.
  unfoldable pub build_options :
      Configuration → WriteSyncer p.State p.m.Error → List (LoggerOption p)
  build_options cfg err_sink =
      error_output err_sink
      ∷ (option_if cfg.development set_development
          ++ (option_if (not cfg.disable_caller) (with_caller true)
              ++ (option_if (not cfg.disable_stacktrace) (add_stacktrace (static (stack_level cfg)))
                  ++ (sampling_option cfg.sampling ++ initial_option cfg.initial_fields))))

  -- The sinks of the logs and of the errors.
  abbrev pub Outputs : Type 0
  Outputs = WriteSyncer p.State p.m.Error × WriteSyncer p.State p.m.Error

  abbrev pub Open : Type 0
  Open = WriteSyncer p.State p.m.Error × (p.State → p.State)

  unfoldable pub open_at : List Bytes → p.State → Result p.m.Error Open × p.State
  open_at paths s = open_paths p.m g.process.files g.sinks paths s

  unfoldable pub both_open :
      Open → Result p.m.Error Open → p.State → Result p.m.Error Outputs × p.State
  both_open out (ok err_out) s = (ok (out.0, err_out.0), s)
  both_open out (err e) s = (err e, out.1 s)

  unfoldable pub open_second :
      Configuration → Result p.m.Error Open → p.State → Result p.m.Error Outputs × p.State
  open_second cfg (err e) s = (err e, s)
  open_second cfg (ok out) s =
      let (answer, s') = open_at cfg.error_output_paths s in both_open out answer s'

  -- `openSinks`.
  unfoldable pub open_outputs : Configuration → p.State → Result p.m.Error Outputs × p.State
  open_outputs cfg s = let (answer, s') = open_at cfg.output_paths s in open_second cfg answer s'

  abbrev pub add_options : List (LoggerOption p) → Logger p → p.State → Logger p × p.State
  add_options [] log s = (log, s)
  add_options (opt ∷ opts) log s = with_options p g.process.increase_text (opt ∷ opts) log s

  unfoldable pub with_outputs :
      Configuration
      → List (LoggerOption p)
      → p.Encoder
      → AtomicLevel p.State
      → Result p.m.Error Outputs
      → p.State
      → Result p.m.Error (Logger p) × p.State
  with_outputs cfg opts enc level (err e) s = (err e, s)
  with_outputs cfg opts enc level (ok (sink, err_sink)) s =
      let (log, s') =
        new_logger p g.process (some (io (atomic level) enc sink)) (build_options cfg err_sink) s in
      let (log', s'') = add_options opts log s' in (ok log', s'')

  unfoldable pub with_level :
      Configuration
      → List (LoggerOption p)
      → p.Encoder
      → Option (AtomicLevel p.State)
      → p.State
      → Result p.m.Error (Logger p) × p.State
  with_level cfg opts enc none s = (err (g.config_errorf missing_level), s)
  with_level cfg opts enc (some level) s =
      let (outputs, s') = open_outputs cfg s in with_outputs cfg opts enc level outputs s'

  unfoldable pub with_encoder :
      Configuration
      → List (LoggerOption p)
      → Result p.m.Error p.Encoder
      → p.State
      → Result p.m.Error (Logger p) × p.State
  with_encoder cfg opts (err e) s = (err e, s)
  with_encoder cfg opts (ok enc) s = with_level cfg opts enc cfg.level s

  -- `buildEncoder`.
  unfoldable pub build_encoder : Configuration → Result p.m.Error p.Encoder
  build_encoder cfg = new_encoder g.config_errorf g.encoders cfg.encoding cfg.encoder_config

  -- `Build`.
  unfoldable pub build :
      Configuration → List (LoggerOption p) → p.State → Result p.m.Error (Logger p) × p.State
  build cfg opts s = with_encoder cfg opts (build_encoder cfg) s

  module _ (sprintf : Bytes → Level → Bytes) (no_fields : InitialFields V)
      (cell : AtomicLevel p.State) where
    -- `NewProduction` and `NewDevelopment`.
    unfoldable pub new_production :
        List (LoggerOption p) → p.State → Result p.m.Error (Logger p) × p.State
    new_production opts s =
        let (cfg, s') = new_production_config sprintf f no_fields cell s in build cfg opts s'

    unfoldable pub new_development :
        List (LoggerOption p) → p.State → Result p.m.Error (Logger p) × p.State
    new_development opts s =
        let (cfg, s') = new_development_config sprintf f no_fields cell s in build cfg opts s'

  -- `NewExample`, with the constructor of JSON encoders.
  unfoldable pub new_example :
      (Bytes → Level → Bytes)
      → (EncoderConfig f → p.Encoder)
      → List (LoggerOption p)
      → p.State
      → Logger p × p.State
  new_example sprintf new_json_encoder options s =
      let encoder = new_json_encoder (example_encoder_config sprintf f) in
      let core = io (static debug_level) encoder g.process.files.stdout in
      let (log, s') = new_logger p g.process (some core) [] s in
      with_options p g.process.increase_text options log s'
