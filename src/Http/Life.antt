-- ===== src/Http/Life.antt =====
-- http_server/core/Server.cpp around its loop, as http_server/main.cpp calls it: the queues, the sockets,
-- the TLS context and the processes, from the constructor to the destructor. What the system calls
-- return is an argument.
pub mod Working
pub mod Ending
pub mod Keeping
pub mod Stranded
pub mod Killed
pub mod Refined
mod Tests
use ivos.Base.{
  ℕ, ◌+◌, ◌-◌, ◌==◌, Bool, true, false, List, [], ◌∷◌, Option, none, some, Outcome, done, fault,
  runs_on, if◌then◌else◌, map, maybe,
}
use ivos.Http.System.{
  add, remove, QueueName, logger, available, set_linked, System, goes_on, exits, killed, crashes,
  waits, Action, ◌>>=◌, ◌>>◌, pure, modify, check, check_number, close_fd, opened, open_queue,
}
use ivos.Http.Server
use ivos.Http.Server.{Start, no_pair, no_process, forked, Event}
use ivos.Http.Server.Queue.{count}
use ivos.Http.Main.{Settings, configured}

-- The constructor: the queue of the log messages.
unfoldable pub create_server : (queue : Option ℕ) → Action ℕ
unfolding open_queue
create_server queue = open_queue logger queue

-- The server that there is, or a new one.
abbrev pub get_instance : (instance queue : Option ℕ) → Action ℕ
get_instance instance queue = maybe instance (create_server queue) pure

-- SSL_CTX_new and the two files, whether each succeeds.
unfoldable pub configure_ssl : (context certificate private_key : Bool) → Action (Unit {0})
configure_ssl context certificate private_key = do
  check context
  modify (λ w. record w { tls = true })
  check certificate
  check private_key

-- fork, in the parent, for the process of the logger.
unfoldable pub start_logger : (forks : Option ℕ) → Action ℕ
start_logger forks = do
  logger_pid ← check_number forks
  modify (λ w. record w { running = add logger_pid w.running })
  pure logger_pid

-- What the calls of `set_up_socket` return, in their order.
pub record Calls : Type 0 where
  pub socket : Option ℕ
  pub reuse_works : Bool
  pub both_versions_work : Bool
  pub bind_works : Bool
  pub listen_works : Bool

unfoldable pub set_up_socket : Calls → Action ℕ
set_up_socket calls = do
  server_fd ← check_number calls.socket
  opened server_fd
  check calls.reuse_works
  check calls.both_versions_work
  check calls.bind_works
  check calls.listen_works
  pure server_fd

-- What socketpair and fork return for one client process.
pub record Forking : Type 0 where
  pub pair : Option (ℕ × ℕ)
  pub forks : Option ℕ

-- A process as the server keeps it: its number, 0 where fork failed, and the server's end of its pair.
abbrev pub Kept : Type 0
Kept = List (ℕ × ℕ)

-- fork, with the ends of the pair. Where it fails both ends stay open.
unfoldable pub fork_client : (pair : ℕ × ℕ) → (forks : Option ℕ) → Action (ℕ × ℕ)
fork_client (mine, other) none = pure (0, mine)
fork_client (mine, other) (some pid) = do
  modify (λ w. record w { running = add pid w.running })
  close_fd other
  pure (pid, mine)

abbrev pub with_pair : Option (ℕ × ℕ) → (forks : Option ℕ) → Action (ℕ × ℕ)
with_pair none forks w = exits 1 w
with_pair (some (mine, other)) forks w =
    (opened mine >> opened other >> fork_client (mine, other) forks) w

unfoldable pub start_client : Forking → Action (ℕ × ℕ)
unfolding fork_client
start_client x = with_pair x.pair x.forks

unfoldable pub start_clients : List Forking → Action Kept
unfolding start_client
start_clients [] = pure []
start_clients (x ∷ xs) = start_client x >>= λ kept. start_clients xs >>= λ rest. pure (kept ∷ rest)

-- What the loop over the connections sees of it.
abbrev pub as_start : Forking → Start
as_start x = maybe x.pair no_pair λ _. maybe x.forks no_process forked

-- What the loop leaves: the descriptors that it has open.
abbrev pub after_loop : Outcome Server.Server → Action (Unit {0})
after_loop (done s) w =
    goes_on tt (record w { descriptors = λ fd. count fd s.descriptors + w.descriptors fd })
after_loop fault w = crashes
after_loop runs_on w = waits

-- The loop of `run`, as its events, on the processes that were started. What was `left` in the queue
-- comes first.
unfoldable pub serve_connections : (left : List ℕ) → List Forking → List Event → Action (Unit {0})
unfolding Server.start_client_processes Server.run
serve_connections left xs es w =
    maybe (Server.start_client_processes left (map as_start xs)) (exits 1 w)
      λ s. after_loop (Server.run es s) w

-- kill(pid, SIGQUIT), for which the server itself has no handler: 0 is its own process group. Then
-- waitpid, which returns if the process stops.
unfoldable pub stop_process : (stops : ℕ → Bool) → (pid : ℕ) → Action (Unit {0})
stop_process stops pid w =
    if pid == 0
    then killed w
    else if stops pid
    then goes_on tt (record w { running = remove pid w.running })
    else waits

unfoldable pub stop_clients : (stops : ℕ → Bool) → Kept → Action (Unit {0})
unfolding stop_process
stop_clients stops [] = pure tt
stop_clients stops ((pid, mine) ∷ kept) =
    close_fd mine >> stop_process stops pid >> stop_clients stops kept

-- What the environment does in a run of the program: what the calls return, in their order, with one
-- forking for each of `_max_connections`; the events of the loop; and which processes stop when they
-- are told to.
pub record World : Type 0 where
  pub message_queue : Option ℕ
  pub context_works : Bool
  pub certificate_works : Bool
  pub private_key_works : Bool
  pub logger_forks : Option ℕ
  pub calls : Calls
  pub available_queue : Option ℕ
  pub clients : List Forking
  pub sigaction_works : Bool
  pub left : List ℕ
  pub events : List Event
  pub stops : ℕ → Bool

-- `run`, with the descriptors of the socket and of the queue /available.
unfoldable pub run_server : World → Action (ℕ × ℕ)
unfolding start_logger set_up_socket open_queue start_clients serve_connections stop_clients
run_server e = do
  logger_pid ← start_logger e.logger_forks
  server_fd ← set_up_socket e.calls
  available_clients ← open_queue available e.available_queue
  kept ← start_clients e.clients
  check e.sigaction_works
  serve_connections e.left e.clients e.events
  stop_clients e.stops kept
  stop_process e.stops logger_pid
  pure (server_fd, available_clients)

-- mq_close and mq_unlink.
unfoldable pub close_queue : QueueName → (fd : ℕ) → Action (Unit {0})
close_queue name fd = do
  close_fd fd
  modify (λ w. record w { linked = set_linked name false w.linked })

-- The destructor.
unfoldable pub destroy : (message_queue server_fd available_clients : ℕ) → Action (Unit {0})
unfolding close_queue
destroy message_queue server_fd available_clients = do
  modify (λ w. record w { tls = false })
  close_queue available available_clients
  close_queue logger message_queue
  close_fd server_fd

-- `main` once the options are read: the server is made and configured, runs, and is deleted.
unfoldable pub launch : World → Action (Unit {0})
unfolding create_server configured configure_ssl run_server destroy
launch e = do
  message_queue ← get_instance none e.message_queue
  check (maybe configured false (λ _. true))
  configure_ssl e.context_works e.certificate_works e.private_key_works
  (server_fd, available_clients) ← run_server e
  destroy message_queue server_fd available_clients
  (λ w. exits 0 w)
