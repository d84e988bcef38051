-- ===== src/Http/Main.antt =====
-- http_server/main.cpp, and the configuration in http_server/core/Server.cpp: options and settings.
-- How the server starts and ends stands in Http/Life.
mod Tests
use ivos.Base.{
  ℕ, ◌+◌, ltb, leb, ◌&&◌, ◌||◌, Bool, Option, none, some, List, [], ◌∷◌, if◌then◌else◌, Text, codes,
  same,
}
use ivos.Http.Logging.{add_logger}

-- strcasecmp(a, b) == 0, for ASCII.
abbrev lower : Text → Text
lower [] = []
lower (c ∷ s) = (if leb b'A' c && leb c b'Z' then c + 32 else c) ∷ lower s

abbrev is_option : (arg short long : Text) → Bool
is_option arg short long = same (lower arg) short || same (lower arg) long

-- The program shows its help and exits with 0, names an option that it does not know and exits with 1,
-- or starts the server.
pub data Launch : Type 0 where
  shows_help starts : Launch
  unknown_option : Text → Launch

-- The options for the port, the connections, the log file and the certificate do nothing.
unfoldable pub read_arguments : (args : List Text) → Launch
read_arguments [] = starts
read_arguments (arg ∷ args) =
    let rest = read_arguments args in
    if is_option arg (codes "-h") (codes "--help")
    then shows_help
    else if is_option arg (codes "-p") (codes "--port")
    then rest
    else if is_option arg (codes "-c") (codes "--connections")
    then rest
    else if is_option arg (codes "-l") (codes "--log")
    then rest
    else if is_option arg (codes "-s") (codes "--ssl")
    then rest
    else unknown_option arg

-- The fields that are configured, and the loggers, each as what has been written to it.
pub record Settings : Type 0 where
  pub port : ℕ
  pub max_connections : ℕ
  pub loggers : List Text

abbrev pub default_settings : Settings
default_settings = record { port = 8080; max_connections = 10; loggers = [] }

-- The program exits at a port that it refuses; the argument has sixteen bits.
unfoldable pub configure_port : (port : ℕ) → Settings → Option Settings
configure_port port s =
    if ltb port 1024 || ltb 65535 port then none else some (record s { port = port })

abbrev pub configure_max_connections : ℕ → Settings → Settings
configure_max_connections n s = record s { max_connections = n }

-- `add_logger` and `add_console_logger` of the server.
abbrev pub with_logger : Settings → Settings
with_logger s = record s { loggers = add_logger s.loggers }

-- The chain of calls in `main`.
unfoldable pub configured : Option Settings
unfolding configure_port
configured = elim (configure_port 8080 default_settings) [
  | none ↦ none
  | some s ↦ some (with_logger (with_logger (configure_max_connections 10 s)))
]
