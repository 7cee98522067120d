-- ===== src/Core/Samplers.antt =====
-- zapcore/sampler.go: the constructors of a sampler, and their options.
use buffer_full_flush_once.Common.{List, [], ◌∷◌, Ref}
use buffer_full_flush_once.Common.Int.{ℤ}
use buffer_full_flush_once.Sampler.{Counters, new_counters}
use buffer_full_flush_once.Entry.{Entry}
use buffer_full_flush_once.Core.{Platform, Core, sampler, Sampling, SamplingDecision}
use buffer_full_flush_once.Fields.{unsigned}

-- `SamplerOption`, by what its apply does.
abbrev pub SamplerOption : Platform → Type 0
SamplerOption p = Sampling p → Sampling p

unfoldable pub nop_sampling_hook : {S : Type 0} → Entry → SamplingDecision → S → S
nop_sampling_hook ent decision s = s

module _ {p : Platform} where
  unfoldable pub sampler_hook : (Entry → SamplingDecision → p.State → p.State) → SamplerOption p
  sampler_hook hook g = record g { hook = hook }

  abbrev pub apply_each : List (SamplerOption p) → Sampling p → Sampling p
  apply_each [] g = g
  apply_each (opt ∷ opts) g = apply_each opts (opt g)

  -- `NewSamplerWithOptions`, with the new cell of the counters: the sampler, and the state.
  unfoldable pub new_sampler_with_options :
      Ref p.State Counters
      → Core p
      → ℤ
      → ℤ
      → ℤ
      → List (SamplerOption p)
      → p.State
      → Core p × p.State
  new_sampler_with_options cell core tick first thereafter opts s =
      let g : Sampling p = record {
        counts = cell;
        tick = tick;
        first = unsigned 64 first;
        thereafter = unsigned 64 thereafter;
        hook = nop_sampling_hook;
      } in
      (sampler core (apply_each opts g), cell.store new_counters s)

  -- `NewSampler`.
  unfoldable pub new_sampler :
      Ref p.State Counters → Core p → ℤ → ℤ → ℤ → p.State → Core p × p.State
  new_sampler counts core tick first thereafter s =
      new_sampler_with_options counts core tick first thereafter [] s
