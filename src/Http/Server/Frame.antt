-- ===== src/Http/Server/Frame.antt =====
-- The vector of processes is only written when they are started.
use ivos.Base.{
  ℕ, ◌≡◌, refl, ◌∙◌, ltb, Bool, List, [], ◌∷◌, Outcome, done, fault, runs_on, length, arith,
  Ensures, Ensures-bind, Ensures-any, Ensures-maybe, Ensures-if,
}
use ivos.Http.Response.{new_response, create_service_unavailable_response}
use ivos.Http.Client.{Client}
use ivos.Http.Worker.{handle_connection}
use ivos.Http.Server.{
  Process, waiting, gone, handling, Server, Turn, Event, turns, receives, serves, Start, pids_of,
  client_index, refuse, hand_over, from_queue, turn, recv_fd, end_connection, step, run,
}

abbrev SameProcesses : Server → Server → Type 0
SameProcesses s s' = s'.client_processes ≡ s.client_processes

hand_over-SameProcesses :
    (send_fails : Bool) (fd pid : ℕ) (available : List ℕ) (s : Server)
    → Ensures (SameProcesses s) (hand_over send_fails fd pid available s)
unfolding hand_over
hand_over-SameProcesses send_fails fd pid available s =
    Ensures-if (SameProcesses s)
      (ltb (client_index pid s.client_processes) (length s.client_processes)) _ fault
      (λ _. Ensures-if (SameProcesses s) send_fails _ _ (λ _. refl) λ _. refl) λ _. tt

from_queue-SameProcesses :
    (send_fails : Bool) (fd : ℕ) (queue : List ℕ) (s : Server)
    → Ensures (SameProcesses s) (from_queue send_fails fd queue s)
unfolding from_queue
from_queue-SameProcesses send_fails fd [] s = tt
from_queue-SameProcesses send_fails fd (pid ∷ available) s =
    hand_over-SameProcesses send_fails fd pid available s

turn-SameProcesses : (t : Turn) (s : Server) → Ensures (SameProcesses s) (turn t s)
unfolding turn refuse
turn-SameProcesses t s = Ensures-maybe (SameProcesses s) t.accepted (done s) _ refl λ fd.
    Ensures-if (SameProcesses s) t.receive_fails _ _
      (λ _.
        Ensures-bind (λ _. Unit {0}) (SameProcesses s)
          (create_service_unavailable_response t.files new_response) _
          (Ensures-any (create_service_unavailable_response t.files new_response))
          λ response _. refl)
      λ _.
        from_queue-SameProcesses t.send_fails fd s.available_clients
          (record s { descriptors = fd ∷ s.descriptors })

recv_fd-SameProcesses :
    (arrives : Bool) (i : ℕ) (p : Process) (pair : List ℕ) (s : Server)
    → s.socket_pairs i ≡ pair
    → Ensures (SameProcesses s) (recv_fd arrives i p s)
recv_fd-SameProcesses arrives i waiting [] s next = rw next tt
recv_fd-SameProcesses arrives i waiting (fd ∷ pair) s next = rw next refl
recv_fd-SameProcesses arrives i gone pair s next = tt
recv_fd-SameProcesses arrives i (handling fd) pair s next = tt

end_connection-SameProcesses :
    (ended : Outcome Client) (i : ℕ) (p : Process) (s : Server)
    → Ensures (SameProcesses s) (end_connection ended i p s)
end_connection-SameProcesses ended i waiting s = tt
end_connection-SameProcesses ended i gone s = tt
end_connection-SameProcesses runs_on i (handling fd) s = tt
end_connection-SameProcesses fault i (handling fd) s = refl
end_connection-SameProcesses (done c) i (handling fd) s = refl

step-SameProcesses : (e : Event) (s : Server) → Ensures (SameProcesses s) (step e s)
unfolding step
step-SameProcesses (turns t) s = turn-SameProcesses t s
step-SameProcesses (receives arrives i) s =
    recv_fd-SameProcesses arrives i (s.processes i) (s.socket_pairs i) s refl
step-SameProcesses (serves files accepted rounds i) s =
    end_connection-SameProcesses (handle_connection files accepted rounds) i (s.processes i) s

Ensures-trans :
    (s s' : Server) (m : Outcome Server)
    → SameProcesses s s'
    → Ensures (SameProcesses s') m
    → Ensures (SameProcesses s) m
Ensures-trans s s' (done s'') same h = h ∙ same
Ensures-trans s s' fault same h = tt
Ensures-trans s s' runs_on same h = tt

pub run-SameProcesses :
    (es : List Event) (s : Server)
    → Ensures (λ s'. s'.client_processes ≡ s.client_processes) (run es s)
unfolding run
run-SameProcesses [] s = refl
run-SameProcesses (e ∷ es) s =
    Ensures-bind (SameProcesses s) (SameProcesses s) (step e s) (λ s'. run es s')
      (step-SameProcesses e s)
      λ s' same. Ensures-trans s s' (run es s') same (run-SameProcesses es s')

pub length-pids_of : (starts : List Start) → length (pids_of starts) ≡ length starts
length-pids_of [] = refl
length-pids_of (start ∷ starts) = omega (arith, length-pids_of starts)
