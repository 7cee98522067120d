-- ===== src/Lib.antt =====
-- The zap logging library (Go), modelled by shallow embedding: each function of the source is a
-- function here, over explicit state.
--
-- Parts. An encoder makes bytes of an entry, a write syncer takes them, a core joins the two
-- behind a level, and a logger asks its core which cores log an entry and writes it to them.
-- The files below are named for these parts.
--
-- - Level.antt and below it: zapcore/level.go. A level is an integer (int8 in the source), a
--   LevelEnabler a function of the state that it reads. LevelOf is a loop of seven rounds, one
--   for each supported level, so that no fuel is needed. Level/Text.antt prints and reads
--   levels; bytes.ToLower and fmt.Sprintf are parameters.
-- - Multierr.antt: the library go.uber.org/multierr as a parameter, with the laws of Append
--   that the code relies on.
-- - WriteSyncer.antt and below it: zapcore/write_syncer.go. A destination is a tree whose
--   leaves are functions of the state of the outside; a mutex makes the operation under it one
--   step, so that Lock leaves no other trace.
-- - Buffered.antt and below it: zapcore/buffered_write_syncer.go. The standard library's
--   bufio.Writer is a parameter, with its documented behaviour (Buffered/Stdlib.antt);
--   Buffered/Model.antt shows that it can be met. initialized is modelled as the presence of
--   the fields that initialize sets. Buffered/Run.antt makes every interleaving of callers, of
--   the flush loop and of Stop a list of events; a mutex makes each event one step.
-- - Sampler.antt and below it: the counters of zapcore/sampler.go. IncCheckReset is one step in
--   Sampler.antt; Sampler/Race.antt takes it apart into its atomic accesses, which several
--   calls make in any order. Times are nanoseconds since 1970 as integers.
-- - Entry.antt and Entry/Paths.antt: zapcore/entry.go, the entry and the texts of its caller.
--   Core.antt and below it: the cores of zapcore/core.go, tee.go, hook.go, increase_level.go,
--   lazy_with.go and sampler.go as one data type, with each method a function by cases on it
--   (Core/Writing.antt for Write and Sync, Core/Checking.antt for Check and the checked entries
--   of entry.go). Encoders, and the texts that fmt makes, are parameters. A lazy core holds the
--   core that initOnce makes, and a cell of the state that says whether it has run.
-- - Logger.antt and below it: logger.go, options.go and internal/stacktrace/stack.go. What the
--   Go runtime captures is a parameter; the loop that makes room for a stack runs on fuel, and
--   Logger/Stacks.antt shows that the number of its frames is enough; panics and exits are
--   values of Outcome.
-- - LineWriter.antt and below it: zapio/writer.go. The loop of Write runs on fuel, the length
--   of the text; each round takes a byte at least, and LineWriter/Lines.antt shows that this is
--   enough.
-- - AtomicLevel.antt and below it: level.go, a level in a cell of the state, and
--   http_handler.go (AtomicLevel/Handler.antt), on requests that Go's libraries have read.
-- - Observer.antt and below it: zaptest/observer/observer.go, the log as a cell of the state.
-- - Sugar.antt and below it: sugar.go, how fields are made of loosely typed arguments, and the
--   sugared logger over the logger (Sugar/Logging.antt).
-- - Encoder.antt and below it: zapcore/encoder.go. What a marshaler, or an encoder of a part of
--   an entry, does to the encoder that it is given is the list of the calls that it makes
--   (Encoder/Calls.antt). The numbers, times and texts of Go's libraries, and encoding by
--   reflection, are a parameter (Formats); times are instants, without a zone.
-- - Json.antt and below it: zapcore/json_encoder.go, with a buffer that is a list of bytes.
--   Json/Escape.antt has the escaping of strings, whose loop runs on fuel, the length of the
--   text (Json/Fuel.antt), and Json/Unescape.antt a reader of JSON strings to compare it with;
--   Json/Line.antt has EncodeEntry, and Json/Tree.antt the trees that its lines are compared
--   with. The decoder of UTF-8 is a parameter.
-- - Console.antt and below it: zapcore/console_encoder.go, over the JSON encoder.
-- - MapEncoder.antt and below it: zapcore/memory_encoder.go. The pointer to the current
--   namespace is a path in a tree of maps: only the map at its end is ever written.
-- - Pipeline.antt: the cores of Core.antt with the JSON encoder for their encoder.
-- - Sinks.antt and below it: sink.go, the registry of sinks and the schemes, and writer.go
--   (Sinks/Opening.antt). Parsing of URLs, files and standard streams are a parameter.
-- - Config.antt and below it: config.go and encoder.go. A configuration names its level by the
--   cell that holds it; the constructors of encoders are a parameter of the registry.
-- - Slog.antt and below it: exp/zapslog/handler.go and options.go. The values of log/slog are a
--   data type by their kind; Slog/Handling.antt is the handler over any core.
-- - Buffer.antt and below it: buffer/buffer.go and buffer/pool.go; which buffer the pool hands
--   out is a parameter of Get.
-- - TestLogger.antt: zaptest/logger.go, over a test that is a parameter.
-- - Grpc.antt and below it: zapgrpc/zapgrpc.go, over the sugared logger.
-- - Global.antt and below it: global.go. The global loggers, and the standard library's logger,
--   are values that the functions take and return.
-- - Fields.antt and below it: zapcore/field.go, zapcore/error.go, field.go, array.go, error.go
--   and exp/zapfield/zapfield.go. A field becomes the calls that AddTo makes on the JSON
--   encoder, or a panic. Errors are given by what their methods do.
-- - Fixtures.antt, Json/Samples.antt, and the modules named Tests: concrete runs.
--
-- Not modelled: objects in fields that change between With, or WithLazy, and the moment at
-- which they are encoded, so that the difference between the two that logger.go describes does
-- not show; a nil EncodeCaller, at which the JSON encoder panics and which the console encoder
-- passes over; the location of a time; Equals of fields, which compares any values by
-- reflection; the memory pools of internal/pool; slices that share an array; the real files,
-- clocks and goroutine scheduler, which are parameters or events here; generated code,
-- benchmarks, examples and other test helpers.
pub mod Common
pub mod Level
pub mod Multierr
pub mod WriteSyncer
pub mod Fixtures
pub mod Buffered
pub mod Sampler
pub mod Entry
pub mod Core
pub mod Logger
pub mod LineWriter
pub mod AtomicLevel
pub mod Observer
pub mod Sugar
pub mod Encoder
pub mod Json
pub mod Fields
pub mod Console
pub mod MapEncoder
pub mod Pipeline
pub mod Sinks
pub mod Config
pub mod Global
pub mod Slog
pub mod Grpc
pub mod Buffer
pub mod TestLogger
