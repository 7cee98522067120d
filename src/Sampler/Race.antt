-- ===== src/Sampler/Race.antt =====
-- zapcore/sampler.go: `IncCheckReset` of one counter in several goroutines, an atomic access at a
-- time.
pub mod System
pub mod Early
pub mod Alone
