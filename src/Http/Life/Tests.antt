-- ===== src/Http/Life/Tests.antt =====
-- Runs of the program with two client processes that get no connection.
use ivos.Base.{
  ◌+◌, ◌==◌, if◌then◌else◌, ℕ, ◌<◌, ◌≡◌, inl, inr, refl, true, false, List, [], ◌∷◌, some, none,
  arith,
}
use ivos.Http.System.{QueueName, System, nothing, exits, killed}
use ivos.Http.Server
use ivos.Http.Server.Queue.{count}
use ivos.Http.Life.{Forking, World, run_server, launch}
use ivos.Http.Life.Ending.{Works, launch-ends}
use ivos.Http.Life.Keeping.{Keeps}
use ivos.Http.Life.Stranded.{run_server-Stranded}
use ivos.Http.Life.Killed.{launch-killed}

abbrev started : (mine other pid : ℕ) → Forking
started mine other pid = record { pair = some (mine, other); forks = some pid }

abbrev not_started : (mine other : ℕ) → Forking
not_started mine other = record { pair = some (mine, other); forks = none }

abbrev world : List Forking → World
world clients = record {
  message_queue = some 3;
  context_works = true;
  certificate_works = true;
  private_key_works = true;
  logger_forks = some 69;
  calls = record {
    socket = some 4;
    reuse_works = true;
    both_versions_work = true;
    bind_works = true;
    listen_works = true;
  };
  available_queue = some 5;
  clients = clients;
  sigaction_works = true;
  left = [];
  events = [];
  stops = λ pid. true;
}

abbrev both : List Forking
both = started 6 7 70 ∷ started 8 9 71 ∷ []

abbrev one_failed : List Forking
one_failed = not_started 6 7 ∷ started 8 9 71 ∷ []

abbrev pool : List ℕ → List ℕ → Server.Server
pool pids queue = record {
  client_processes = pids;
  socket_pairs = λ i. [];
  available_clients = queue;
  processes = λ i. if Server.element i pids == 0 then Server.gone else Server.waiting;
  descriptors = [];
  refused = [];
}

both-Works : Works (world both) (pool (70 ∷ 71 ∷ []) (70 ∷ 71 ∷ []))
unfolding Server.start_client_processes Server.run
both-Works = record {
  message_queue = (3, refl);
  context = refl;
  certificate = refl;
  private_key = refl;
  logger_pid = (69, refl, λ e. absurd (omega arith));
  socket = (4, refl);
  reuse = refl;
  both_versions = refl;
  bind = refl;
  listen = refl;
  available_queue = (5, refl);
  sigaction = refl;
  first = pool (70 ∷ 71 ∷ []) (70 ∷ 71 ∷ []);
  starts = refl;
  loops = refl;
  stops = λ pid. refl;
}

one_failed-Works : Works (world one_failed) (pool (0 ∷ 71 ∷ []) (71 ∷ []))
unfolding Server.start_client_processes Server.run
one_failed-Works = record {
  message_queue = (3, refl);
  context = refl;
  certificate = refl;
  private_key = refl;
  logger_pid = (69, refl, λ e. absurd (omega arith));
  socket = (4, refl);
  reuse = refl;
  both_versions = refl;
  bind = refl;
  listen = refl;
  available_queue = (5, refl);
  sigaction = refl;
  first = pool (0 ∷ 71 ∷ []) (71 ∷ []);
  starts = refl;
  loops = refl;
  stops = λ pid. refl;
}

launch-ends_example :
    launch (world both) nothing ≡ exits 0 (record nothing { descriptors = λ fd. count fd [] })
launch-ends_example =
    launch-ends (world both) ((70, 6) ∷ (71, 8) ∷ []) (pool (70 ∷ 71 ∷ []) (70 ∷ 71 ∷ []))
      both-Works
      (
        (7, refl),
        refl,
        (λ e. absurd (omega arith)),
        ((9, refl), refl, (λ e. absurd (omega arith)), tt),
      )

launch-killed_example :
    (w' : System) × (launch (world one_failed) nothing ≡ killed w')
    × (0 < w'.running 69)
    × ((n : QueueName) → w'.linked n ≡ true)
unfolding one_failed-Works
launch-killed_example =
    launch-killed (world one_failed) ((0, 6) ∷ (71, 8) ∷ []) (pool (0 ∷ 71 ∷ []) (71 ∷ []))
      one_failed-Works
      ((7, refl), inr (refl, refl), ((9, refl), inl (refl, λ e. absurd (omega arith)), tt))
      (inl refl)

-- The port is in use.
abbrev in_use : World
in_use = record (world both) {
  calls = record {
    socket = some 4;
    reuse_works = true;
    both_versions_work = true;
    bind_works = false;
    listen_works = true;
  };
}

abbrev stuck : System
stuck = record nothing {
  running = λ y. (if y == 69 then 1 else 0) + 0;
  descriptors = λ y. (if y == 4 then 1 else 0) + 0;
}

in_use-exits : run_server in_use nothing ≡ exits 1 stuck
unfolding run_server
in_use-exits = refl

run_server-Stranded_example : ◌≡◌ {A = ℕ} 1 1 × (0 < stuck.running 69) × Keeps nothing stuck
run_server-Stranded_example = run_server-Stranded in_use 69 1 nothing stuck refl in_use-exits
