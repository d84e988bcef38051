-- ===== src/Http/Logging.antt =====
-- http_server/logging/ and the logger process of http_server/core/Server.cpp. `put_time` is an
-- argument: a time is the text that it prints. An open log file is what has been written to it.
pub mod Messages
use ivos.Base.{
  Bool, ℕ, zero, suc, ◌==◌, List, [], ◌∷◌, ◌++◌, Option, none, some, if◌then◌else◌, maybe,
}
use ivos.Http.Text.{Text, codes}
use ivos.Http.Client.{until_zero}

pub data LogLevel : Type 0 where
  debug info warning error fatal : LogLevel

-- The time is kept as the text it is printed as.
pub record LogMessage : Type 0 where
  pub level : LogLevel
  pub time : Text
  pub message : Text

abbrev pub message_size : ℕ
message_size = 256

-- strncpy of a C string: cut after `n` bytes, or filled with zeros.
abbrev pub strncpy : (n : ℕ) → Text → Text
strncpy zero s = []
strncpy (suc n) [] = 0 ∷ strncpy n []
strncpy (suc n) (c ∷ s) = if c == 0 then 0 ∷ strncpy n [] else c ∷ strncpy n s

unfoldable pub create_log_message : LogLevel → (time msg : Text) → LogMessage
create_log_message level time msg = record {
  level = level;
  time = time;
  message = strncpy 255 msg ++ (0 ∷ []);
}

abbrev pub level_string : LogLevel → Text
level_string debug = codes "DEBUG"
level_string info = codes "INFO"
level_string warning = codes "WARNING"
level_string error = codes "ERROR"
level_string fatal = codes "FATAL"

abbrev pub log_line : LogLevel → (time message : Text) → Text
log_line level time message =
    codes "["
    ++ (time ++ (codes "] [" ++ (level_string level ++ (codes "] " ++ (message ++ (10 ∷ []))))))

-- Logger::log
unfoldable pub log_to : LogLevel → (time message : Text) → (out_stream : Text) → Text
log_to level time message out_stream = out_stream ++ log_line level time message

-- CompositeLogger::log
unfoldable pub log : LogLevel → (time message : Text) → (loggers : List Text) → List Text
unfolding log_to
log level time message [] = []
log level time message (out_stream ∷ loggers) =
    log_to level time message out_stream ∷ log level time message loggers

-- A logger starts with an empty file.
abbrev pub add_logger : (loggers : List Text) → List Text
add_logger loggers = loggers ++ ([] ∷ [])

-- The loop of the logger process: `none` is a message that could not be received.
unfoldable pub receive_messages : List (Option LogMessage) → (loggers : List Text) → List Text
unfolding log
receive_messages [] loggers = loggers
receive_messages (received ∷ queue) loggers =
    receive_messages queue
      (maybe received loggers λ m. log m.level m.time (until_zero m.message) loggers)

-- `start_logger_process`, with the texts of its first and last message and their times.
unfoldable pub start_logger_process :
    (start started ended end : Text) → List (Option LogMessage) → (loggers : List Text) → List Text
unfolding receive_messages log
start_logger_process start started ended end queue loggers =
    log debug ended end (receive_messages queue (log debug start started loggers))

-- The child of `run` that is to become the logger, with its exit code: it needs a handler for SIGQUIT.
unfoldable pub run_logger :
    (sigaction_works : Bool) (start started ended end : Text)
    → List (Option LogMessage)
    → (loggers : List Text) → List Text × ℕ
unfolding start_logger_process
run_logger sigaction_works start started ended end queue loggers =
    if sigaction_works
    then (start_logger_process start started ended end queue loggers, 0)
    else (loggers, 1)
