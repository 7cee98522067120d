-- ===== src/Config/Tests.antt =====
-- Configurations over the files of `Sinks/Samples.antt`.
use buffer_full_flush_once.Common.{ℕ, ◌≡◌, refl, some, List, [], ◌∷◌, ◌++◌, Ref, ok, err}
use buffer_full_flush_once.Common.Bytes.{Bytes, codes}
use buffer_full_flush_once.AtomicLevel.{AtomicLevel}
use buffer_full_flush_once.Common.Int.{pos}
use buffer_full_flush_once.WriteSyncer.{WriteSyncer, locked, wrapper, lock, new_multi}
use buffer_full_flush_once.Sampler.{Counters}
use buffer_full_flush_once.Core.{Platform}
use buffer_full_flush_once.Fixtures.{plain, lists}
use buffer_full_flush_once.Json.Samples.{digits}
use buffer_full_flush_once.Sinks.{
  find_factory, register_sink, register_normalized, normalize_scheme, first_bad,
}
use buffer_full_flush_once.Sinks.Opening.{
  open_paths, open_sinks, close_if, open_each, opened, new_sink, made_by, new_file_sink_from_path,
  new_parsed_sink, new_file_sink_from_url, new_sink_registry, combine_write_syncers,
}
use buffer_full_flush_once.Sinks.Leaks.{Balances, open_paths-Balances}
use buffer_full_flush_once.Sinks.Samples.{
  World, live, ignore, disk, file_sinks, file_sinks-Balanced, open_any-Balanced, closed_world,
}
use buffer_full_flush_once.Logger.Making.{Process}
use buffer_full_flush_once.Config.{Config, new_production_config, new_production_encoder_config}
use buffer_full_flush_once.Config.Registry.{first_encoders, new_encoder, find_encoder, constructed}
use buffer_full_flush_once.Config.Building.{
  Setting, build, build_encoder, open_outputs, with_encoder, with_level, with_outputs, open_second,
  open_at, both_open,
}
use buffer_full_flush_once.Logger.{Logger}
use buffer_full_flush_once.Config.Built.{Configured, build-Configured}
use buffer_full_flush_once.Config.Leaks.{build_refuses}

abbrev worldly : Platform
worldly = record plain { State = World }

abbrev level_cell : AtomicLevel World
level_cell = record { load = λ s. s.level; store = λ l s. record s { level = l } }

abbrev counts_cell : Ref World Counters
counts_cell = record { load = λ s. s.counters; store = λ c s. record s { counters = c } }

abbrev process : Process worldly
process = record { files = disk; default_clock = λ s. (pos 0, s); increase_text = λ e. e }

abbrev setting : Setting worldly Bytes digits
setting = record {
  process = process;
  sinks = file_sinks;
  encoders = first_encoders (λ cfg. codes "console") (λ cfg. codes "json");
  any = λ key v. key ++ v;
  sort_strings = λ keys. keys;
  config_errorf = λ e. 9 ∷ [];
  counts = counts_cell;
}

abbrev production : Config World Bytes digits
production =
    (new_production_config (λ prefix l. prefix) digits (record { keys = []; value = λ k. [] })
      level_cell closed_world).0

-- The second path of the errors cannot be opened.
abbrev leaky : Config World Bytes digits
leaky = record production {
  output_paths = codes "a.log" ∷ codes "b.log" ∷ [];
  error_output_paths = codes "c.log" ∷ [] ∷ [];
}

leaky_fails : (build worldly Bytes digits setting leaky [] closed_world).0 ≡ err (7 ∷ [])
unfolding build build_encoder with_encoder new_encoder new_production_config
    new_production_encoder_config constructed find_encoder first_encoders with_level with_outputs
    open_outputs open_second open_at open_paths open_sinks close_if open_each opened new_sink
    new_parsed_sink made_by find_factory new_sink_registry register_sink register_normalized
    normalize_scheme first_bad new_file_sink_from_url new_file_sink_from_path both_open
leaky_fails = refl

build_refuses_example : live (build worldly Bytes digits setting leaky [] closed_world).1 ≡ 0
build_refuses_example =
    build_refuses worldly Bytes digits setting live open_any-Balanced file_sinks-Balanced leaky []
      closed_world (7 ∷ []) leaky_fails

-- Both outputs are the standard error output, behind a lock.
abbrev locked_stderr : WriteSyncer World (List ℕ)
locked_stderr = locked (wrapper ignore)

production_encodes : build_encoder worldly Bytes digits setting production ≡ ok (codes "json")
unfolding build_encoder new_encoder new_production_config new_production_encoder_config constructed
    find_encoder first_encoders
production_encodes = refl

production_opens :
    (open_outputs worldly Bytes digits setting production closed_world).0
    ≡ ok (locked_stderr, locked_stderr)
unfolding open_outputs new_production_config open_second open_at open_paths open_sinks close_if
    open_each opened new_sink new_parsed_sink made_by find_factory new_sink_registry register_sink
    register_normalized normalize_scheme first_bad new_file_sink_from_url new_file_sink_from_path
    both_open combine_write_syncers lock new_multi
production_opens = refl

production_level : production.level ≡ some level_cell
unfolding new_production_config
production_level = refl

build-Configured_example :
    (log : Logger worldly) × ((build worldly Bytes digits setting production [] closed_world).0
      ≡ ok log)
    × Configured worldly Bytes digits setting production level_cell locked_stderr log
build-Configured_example =
    build-Configured worldly Bytes digits setting production closed_world (codes "json") level_cell
      (locked_stderr, locked_stderr) production_encodes production_level production_opens

open_paths-Balances_example :
    Balances lists disk live open_any-Balanced file_sinks file_sinks-Balanced closed_world
      (open_paths lists disk file_sinks (codes "a.log" ∷ codes "stdout" ∷ []) closed_world)
open_paths-Balances_example =
    open_paths-Balances lists disk live open_any-Balanced file_sinks file_sinks-Balanced
      (codes "a.log" ∷ codes "stdout" ∷ []) closed_world
