-- ===== src/Config/Leaks.antt =====
-- config.go: what stays open after `Config.Build`.
use buffer_full_flush_once.Common.{
  ℕ, ◌≡◌, refl, inl, inr, Option, none, some, List, All, arith, Result, ok, err, Result-cases,
}
use buffer_full_flush_once.Common.Bytes.{Bytes}
use buffer_full_flush_once.AtomicLevel.{AtomicLevel}
use buffer_full_flush_once.Core.{Platform}
use buffer_full_flush_once.Encoder.{Formats}
use buffer_full_flush_once.Sinks.Opening.{Url}
use buffer_full_flush_once.Sinks.Leaks.{Balanced, Balances, opens, refuses, open_paths-Balances}
use buffer_full_flush_once.Logger.Options.{LoggerOption}
use buffer_full_flush_once.Config.Building.{
  Setting, Configuration, Open, open_at, both_open, open_second, open_outputs, with_outputs,
  with_level, with_encoder, build_encoder, build,
}

module _ (p : Platform) (V : Type 0) (f : Formats) (g : Setting p V f) (live : p.State → ℕ)
    (file_balanced : (path : Bytes) (s : p.State)
      → Balanced live s (g.process.files.open_file path s))
    (factories : All
      (λ entry. (u : Url) (s : p.State) → Balanced live s (entry.1 u s))
      g.sinks) where
  both_open_refuses :
      (out : Open p V f g) (r : Result p.m.Error (Open p V f g)) (s : p.State) (e : p.m.Error)
      → (both_open p V f g out r s).0 ≡ err e
      → (both_open p V f g out r s).1 ≡ out.1 s
  unfolding both_open
  both_open_refuses out (ok r) s e h = cc
  both_open_refuses out (err e') s e h = refl

  open_at-Balances :
      (paths : List Bytes) (s : p.State)
      → Balances p.m g.process.files live file_balanced g.sinks factories s
          (open_at p V f g paths s)
  unfolding open_at
  open_at-Balances paths s =
      open_paths-Balances p.m g.process.files live file_balanced g.sinks factories paths s

  -- Where openSinks returns an error, nothing that it opened stays open.
  open_outputs_refuses :
      (cfg : Configuration p V f g) (s : p.State) (e : p.m.Error)
      → (open_outputs p V f g cfg s).0 ≡ err e
      → live (open_outputs p V f g cfg s).1 ≡ live s
  unfolding open_outputs open_second both_open
  open_outputs_refuses cfg s e h = elim (open_at-Balances cfg.output_paths s) [
    | refuses e' failed same ↦ rw (open_second, failed) same
    | opens ws close w found more back ↦
        (let s' = (open_at p V f g cfg.output_paths s).1 in
          elim (open_at-Balances cfg.error_output_paths s') [
            | refuses e' failed same ↦
                rw (open_second, found, both_open, failed) (omega (arith, same, more, back))
            | opens ws' close' w' found' more' back' ↦
                (let h' = rw (open_second, found, both_open, found') at h in cc)
          ])
  ]

  with_level_refuses :
      (cfg : Configuration p V f g) (opts : List (LoggerOption p)) (enc : p.Encoder)
      (level : Option (AtomicLevel p.State)) (s : p.State) (e : p.m.Error)
      → (with_level p V f g cfg opts enc level s).0 ≡ err e
      → live (with_level p V f g cfg opts enc level s).1 ≡ live s
  unfolding with_level with_outputs
  with_level_refuses cfg opts enc none s e h = refl
  with_level_refuses cfg opts enc (some level) s e h =
      elim (Result-cases (open_outputs p V f g cfg s).0) [
        | inl (outputs, found) ↦ (let h' = rw (with_outputs, found) at h in absurd cc)
        | inr (e', failed) ↦ rw (with_outputs, failed) (open_outputs_refuses cfg s e' failed)
      ]

  -- Where the factories of the sinks and the opening of files count what they open, and their sinks
  -- close just that: where Build returns an error, for the encoder, the level, the outputs or the
  -- error outputs, nothing stays open of what it opened.
  pub build_refuses :
      (cfg : Configuration p V f g) (opts : List (LoggerOption p)) (s : p.State) (e : p.m.Error)
      → (build p V f g cfg opts s).0 ≡ err e
      → live (build p V f g cfg opts s).1 ≡ live s
  unfolding build with_encoder
  build_refuses cfg opts s e h = elim (Result-cases (build_encoder p V f g cfg)) [
    | inl (enc, found) ↦
        (let h' = rw (with_encoder, found) at h in
          rw (with_encoder, found) (with_level_refuses cfg opts enc cfg.level s e h'))
    | inr (e', failed) ↦ rw (with_encoder, failed) refl
  ]
