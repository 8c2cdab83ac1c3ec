-- ===== src/Logging.antt =====
-- `configure_logging` of data-processing-service/app/config/logging.py, and what Python's `logging`
-- makes of it. A logger is named by the parts of its name, the innermost first, so that its parent
-- is the rest; the root is the empty name. All handlers are the root's, and every logger propagates
-- its records to it.
pub mod Outputs
use global_payments_api.Prelude.{
  ℕ, String, ◌==◌, Bool, true, false, ◌&&◌, ◌||◌, List, [], ◌∷◌, ◌++◌, Option, none, some, leb, ltb,
  count_if, if◌then◌else◌,
}

pub data Stream : Type 0 where
  stdout stderr : Stream

pub record Handler : Type 0 where
  pub stream : Stream
  pub level : ℕ

-- The processors of structlog that the service names.
pub data Processor : Type 0 where
  filter_by_level add_logger_name add_log_level positional_arguments_formatter : Processor
  time_stamper stack_info_renderer format_exc_info unicode_decoder : Processor
  json_renderer console_renderer : Processor

pub record Logging : Type 0 where
  pub processors : List Processor
  pub handlers : List Handler
  pub root_level : ℕ
  pub levels : List String → Option ℕ  -- of the loggers with one of their own
  pub disabled : List String → Bool

abbrev pub debug_level : ℕ
debug_level = 10

abbrev pub info_level : ℕ
info_level = 20

abbrev pub warning_level : ℕ
warning_level = 30

abbrev pub same_name : List String → List String → Bool
same_name [] [] = true
same_name (x ∷ xs) (y ∷ ys) = let rest = same_name xs ys in (x == y) && rest
same_name _ _ = false

-- `logging.getLogger(name).setLevel(level)`
abbrev set_level : List String → ℕ → Logging → Logging
set_level name level s = record s {
  levels = λ q. if same_name q name then some level else s.levels q;
}

abbrev pub log_level : Bool → ℕ
log_level debug = if debug then debug_level else info_level

-- `structlog.configure(processors=[…], …)`
abbrev processors_of : Bool → List Processor
processors_of debug =
    filter_by_level
    ∷ add_logger_name
    ∷ add_log_level
    ∷ positional_arguments_formatter
    ∷ time_stamper
    ∷ stack_info_renderer
    ∷ format_exc_info
    ∷ unicode_decoder
    ∷ (if debug then console_renderer else json_renderer)
    ∷ []

-- The loggers that are silenced.
abbrev pub engine_name : List String
engine_name = "engine" ∷ "sqlalchemy" ∷ []

abbrev pub kafka_name : List String
kafka_name = "kafka" ∷ []

abbrev pub urllib3_name : List String
urllib3_name = "urllib3" ∷ []

unfoldable pub configure_logging : Bool → Logging → Logging
configure_logging debug s =
    let root = record s {
      processors = processors_of debug;
      root_level = log_level debug;
      handlers = s.handlers ++ (record { stream = stdout; level = log_level debug } ∷ []);
    } in
    set_level urllib3_name warning_level
      (set_level kafka_name warning_level (set_level engine_name warning_level root))

-- The applications that a process has made, the last one first, each with its `DEBUG`.
abbrev pub configure_all : List Bool → Logging → Logging
configure_all [] s = s
configure_all (debug ∷ earlier) s = configure_logging debug (configure_all earlier s)

abbrev or_level : Option ℕ → ℕ → ℕ
or_level none n = n
or_level (some l) n = l

-- `logger.getEffectiveLevel()`
unfoldable pub effective_level : Logging → List String → ℕ
effective_level s [] = s.root_level
effective_level s (x ∷ parent) = or_level (s.levels (x ∷ parent)) (effective_level s parent)

abbrev same_stream : Stream → Stream → Bool
same_stream stdout stdout = true
same_stream stderr stderr = true
same_stream _ _ = false

-- The handler writes a record of this level to the stream.
abbrev pub writes : Stream → ℕ → Handler → Bool
writes stream level h = same_stream h.stream stream && leb h.level level

-- How often a record of the logger is written to the stream.
unfoldable pub outputs : Logging → Stream → List String → ℕ → ℕ
unfolding effective_level
outputs s stream name level =
    if s.disabled name || ltb level (effective_level s name)
    then 0
    else count_if (writes stream level) s.handlers
