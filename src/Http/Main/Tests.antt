-- ===== src/Http/Main/Tests.antt =====
-- Runs of the options and of the configuration.
use ivos.Base.{◌≡◌, refl, some, none, [], ◌∷◌, codes}
use ivos.Http.Main.{
  starts, unknown_option, shows_help, read_arguments, default_settings, configure_port, configured,
}

any_case : read_arguments (codes "-P" ∷ codes "--HELP" ∷ []) ≡ shows_help
unfolding read_arguments
any_case = refl

-- The value of an option is taken for an option.
value_refused : read_arguments (codes "--port" ∷ codes "9000" ∷ []) ≡ unknown_option (codes "9000")
unfolding read_arguments
value_refused = refl

port_ignored : read_arguments (codes "--port" ∷ []) ≡ starts
unfolding read_arguments
port_ignored = refl

low_port : configure_port 80 default_settings ≡ none
unfolding configure_port
low_port = refl

configured_lem :
    configured ≡ some (record { port = 8080; max_connections = 10; loggers = [] ∷ [] ∷ [] })
unfolding configured
configured_lem = refl
