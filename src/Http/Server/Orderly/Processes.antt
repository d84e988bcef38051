-- ===== src/Http/Server/Orderly/Processes.antt =====
-- What the client processes do, and whole runs, keep them to one connection each.
use ivos.Base.{
  Outcome, done, fault, runs_on, ℕ, ◌≤◌, ◌==◌, ◌≡◌, ◌≢◌, Bool, true, false, refl, subst, sym, eq→==,
  ==→eq, Bool-cases, inl, inr, List, [], ◌∷◌, ◌++◌, arith, Ensures, Ensures-bind,
}
use ivos.Http.Client.{Client}
use ivos.Http.Worker.{handle_connection}
use ivos.Http.Server.{
  Process, waiting, gone, handling, Server, Event, turns, receives, serves, element, set,
  receive_from, recv_fd, end_connection, step, run,
}
use ivos.Http.Server.Queue.{count, count-snoc, IsKnown-snoc, client_index-element}
use ivos.Http.Server.Orderly.Turns.{turn-Orderly}
use ivos.Http.Server.Orderly.{load, Orderly}

-- What one process does changes what it has to do, and nothing of the others.
record Locally (s : Server) (i : ℕ) (s' : Server) : Type 0 where
  others_wait :
      (j : ℕ)
      → (j == i) ≡ false
      → (count (element j s'.client_processes) s'.available_clients
          ≤ count (element j s.client_processes) s.available_clients)
        × (s'.socket_pairs j ≡ s.socket_pairs j)
        × (s'.processes j ≡ s.processes j)
  same_processes : s'.client_processes ≡ s.client_processes
  no_more : load s' i ≤ load s i

once-Locally :
    (s : Server) (i : ℕ) (s' : Server)
    → Locally s i s'
    → ((j : ℕ) → load s j ≤ 1)
    → (j : ℕ) → load s' j ≤ 1
once-Locally s i s' l once j = elim (Bool-cases (j == i)) [
  | inl here ↦ subst (λ k. load s' k ≤ 1) (sym (==→eq j i here)) (omega (arith, l.no_more, once i))
  | inr other ↦
      let (fewer, pair, process) = l.others_wait j other in
      rw (pair, process) (omega (arith, fewer, once j))
]

-- A process that has not ended is one that was started.
started_set :
    (s : Server) (i : ℕ) (p : Process)
    → Orderly s
    → (s.processes i ≡ gone → ⊥)
    → (j : ℕ) → element j s.client_processes ≡ 0
    → set i p s.processes j ≡ gone
started_set s i p o alive j h = elim (Bool-cases (j == i)) [
  | inl here ↦ absurd (alive (subst (λ k. s.processes k ≡ gone) (==→eq j i here) (o.started j h)))
  | inr other ↦ rw other (o.started j h)
]

abbrev taken : (i : ℕ) → (pair : List ℕ) → (ℕ → Process) → Server → Server
taken i pair processes s = record s {
  socket_pairs = set i pair s.socket_pairs;
  processes = processes;
}

receive_from-Orderly :
    (arrives : Bool) (i : ℕ) (pair : List ℕ) (s : Server)
    → s.processes i ≡ waiting
    → s.socket_pairs i ≡ pair
    → Orderly s
    → Ensures Orderly (receive_from arrives i pair s)
receive_from-Orderly arrives i [] s waits next o = tt
receive_from-Orderly true i (fd ∷ pair) s waits next o = record {
  distinct = o.distinct;
  started = started_set s i (handling fd) o (λ ended. cc);
  known = o.known;
  once =
      once-Locally s i (taken i pair (set i (handling fd) s.processes) s)
        (record {
          others_wait = λ j other. (omega arith, rw other refl, rw other refl);
          same_processes = refl;
          no_more = rw (eq→== i i refl, next, waits) (omega arith);
        })
        o.once;
}
receive_from-Orderly false i (fd ∷ pair) s waits next o = record {
  distinct = o.distinct;
  started = o.started;
  known = o.known;
  once =
      once-Locally s i (taken i pair s.processes s)
        (record {
          others_wait = λ j other. (omega arith, rw other refl, refl);
          same_processes = refl;
          no_more = rw (eq→== i i refl, next) (omega arith);
        })
        o.once;
}

recv_fd-Orderly :
    (arrives : Bool) (i : ℕ) (p : Process) (s : Server)
    → s.processes i ≡ p
    → Orderly s
    → Ensures Orderly (recv_fd arrives i p s)
recv_fd-Orderly arrives i waiting s is o =
    receive_from-Orderly arrives i (s.socket_pairs i) s is refl o
recv_fd-Orderly arrives i gone s is o = tt
recv_fd-Orderly arrives i (handling fd) s is o = tt

-- In the queue the number of one process is not that of another.
pub fewer-snoc :
    (s : Server) (i j : ℕ)
    → Orderly s
    → element i s.client_processes ≢ 0
    → (j == i) ≡ false
    → count
        (element j s.client_processes)
        (s.available_clients ++ (element i s.client_processes ∷ []))
      ≤ count (element j s.client_processes) s.available_clients
fewer-snoc s i j o positive other =
    let more =
      count-snoc (element j s.client_processes) (element i s.client_processes)
        s.available_clients in
    elim (Bool-cases (element i s.client_processes == element j s.client_processes)) [
      | inl same ↦ absurd (
          let e =
            o.distinct i j positive
              (==→eq (element i s.client_processes) (element j s.client_processes) same) in
          ground arith)
      | inr differ ↦ rw (more, differ) (omega arith)
    ]

pub started-positive :
    (s : Server) (i fd : ℕ)
    → Orderly s
    → s.processes i ≡ handling fd
    → element i s.client_processes ≢ 0
started-positive s i fd o is none_such = let ended = o.started i none_such in cc

end_connection-Orderly :
    (ended : Outcome Client) (i : ℕ) (p : Process) (s : Server)
    → s.processes i ≡ p
    → Orderly s
    → Ensures Orderly (end_connection ended i p s)
end_connection-Orderly ended i waiting s is o = tt
end_connection-Orderly ended i gone s is o = tt
end_connection-Orderly runs_on i (handling fd) s is o = tt
end_connection-Orderly fault i (handling fd) s is o = record {
  distinct = o.distinct;
  started = started_set s i gone o (λ ended. cc);
  known = o.known;
  once =
      once-Locally s i (record s { processes = set i gone s.processes })
        (record {
          others_wait = λ j other. (omega arith, refl, rw other refl);
          same_processes = refl;
          no_more = rw (eq→== i i refl, is) (omega arith);
        })
        o.once;
}
end_connection-Orderly (done c) i (handling fd) s is o =
    let positive = started-positive s i fd o is in
    let pid = element i s.client_processes in
    record {
      distinct = o.distinct;
      started = started_set s i waiting o (λ ended. cc);
      known =
          IsKnown-snoc s.client_processes pid s.available_clients positive
            (client_index-element i s.client_processes positive) o.known;
      once =
          once-Locally s i
            (record s {
              processes = set i waiting s.processes;
              available_clients = s.available_clients ++ (pid ∷ []);
            })
            (record {
              others_wait = λ j other. (fewer-snoc s i j o positive other, refl, rw other refl);
              same_processes = refl;
              no_more =
                  rw
                    (eq→== i i refl, is, count-snoc pid pid s.available_clients, eq→== pid pid refl)
                    (omega arith);
            })
            o.once;
    }

pub step-Orderly : (e : Event) (s : Server) → Orderly s → Ensures Orderly (step e s)
unfolding step
step-Orderly (turns t) s o = turn-Orderly t s o
step-Orderly (receives arrives i) s o = recv_fd-Orderly arrives i (s.processes i) s refl o
step-Orderly (serves files accepted rounds i) s o =
    end_connection-Orderly (handle_connection files accepted rounds) i (s.processes i) s refl o

pub run-Orderly : (es : List Event) (s : Server) → Orderly s → Ensures Orderly (run es s)
unfolding run
run-Orderly [] s o = o
run-Orderly (e ∷ es) s o =
    Ensures-bind Orderly Orderly (step e s) (λ s'. run es s') (step-Orderly e s o)
      λ s' o'. run-Orderly es s' o'
