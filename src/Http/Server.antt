-- ===== src/Http/Server.antt =====
-- http_server/core/Server.cpp: the server process, which hands connections over to client processes,
-- and those processes as it sees them. Log messages are left out.
pub mod Queue
pub mod Orderly
pub mod Frame
pub mod Starting
pub mod Dispatch
pub mod Lost
pub mod Cycle
mod Tests
use ivos.Base.{
  ℕ, zero, suc, ◌+◌, ◌==◌, ltb, Bool, true, false, List, [], ◌∷◌, ◌++◌, Option, none, some, Outcome,
  done, fault, runs_on, ◌>>=◌, if◌then◌else◌, length, maybe,
}
use ivos.Http.Response.{Files, new_response, create_service_unavailable_response}
use ivos.Http.Client.{Client, close, new_client, send}
use ivos.Http.Worker.{Round, handle_connection}

-- A client process: in `recv_fd`, with a connection, or ended (or never started).
pub data Process : Type 0 where
  waiting gone : Process
  handling : (fd : ℕ) → Process

-- Of the fields: the processes' numbers, what is under way in each socket pair, the queue /available.
-- Beside them: what each process does, the connections' descriptors that the server has open, and the
-- connections that it answered itself.
pub record Server : Type 0 where
  pub client_processes : List ℕ
  pub socket_pairs : ℕ → List ℕ
  pub available_clients : List ℕ
  pub processes : ℕ → Process
  pub descriptors : List ℕ
  pub refused : List Client

-- What socketpair and fork do for one process.
pub data Start : Type 0 where
  no_pair no_process : Start
  forked : (pid : ℕ) → Start

-- An element of a vector, 0 behind its end.
abbrev pub element : ℕ → List ℕ → ℕ
element i [] = 0
element zero (x ∷ xs) = x
element (suc i) (x ∷ xs) = element i xs

abbrev pub pid_of : Start → ℕ
pid_of (forked pid) = pid
pid_of start = 0

abbrev pub pids_of : List Start → List ℕ
pids_of [] = []
pids_of (start ∷ starts) = pid_of start ∷ pids_of starts

abbrev pub first_available : List Start → List ℕ
first_available [] = []
first_available (forked pid ∷ starts) = pid ∷ first_available starts
first_available (start ∷ starts) = first_available starts

abbrev pub all_pairs : List Start → Bool
all_pairs [] = true
all_pairs (no_pair ∷ starts) = false
all_pairs (start ∷ starts) = all_pairs starts

-- The loop of `start_client_processes`, once the queue is open, with what is `left` in it from before;
-- `none` is the program's exit. One start for each of `_max_connections`.
unfoldable pub start_client_processes : (left : List ℕ) → List Start → Option Server
start_client_processes left starts =
    if all_pairs starts
    then some (record {
      client_processes = pids_of starts;
      socket_pairs = λ i. [];
      available_clients = left ++ first_available starts;
      processes = λ i. if element i (pids_of starts) == 0 then gone else waiting;
      descriptors = [];
      refused = [];
    })
    else none

abbrev pub set {ℓ} : {A : Type ℓ} → (at : ℕ) → A → (ℕ → A) → ℕ → A
set at a f i = if i == at then a else f i

-- close, of the descriptor's first occurrence.
abbrev pub close_descriptor : (fd : ℕ) → List ℕ → List ℕ
close_descriptor fd [] = []
close_descriptor fd (d ∷ ds) = let rest = close_descriptor fd ds in if d == fd then ds else d ∷ rest

-- std::distance(begin, std::find(begin, end, pid))
abbrev pub client_index : (pid : ℕ) → List ℕ → ℕ
client_index pid [] = 0
client_index pid (p ∷ ps) = if p == pid then 0 else suc (client_index pid ps)

-- What comes from outside in a turn of the loop in `run`: the descriptor that accept gives, whether
-- mq_receive and send_fd fail, whether TLS accepts, and the files.
pub record Turn : Type 0 where
  pub accepted : Option ℕ
  pub receive_fails : Bool
  pub send_fails : Bool
  pub tls : Bool
  pub files : Files

-- No process could be got from the queue.
unfoldable pub refuse : (tls : Bool) → Files → (fd : ℕ) → Server → Outcome Server
unfolding new_client create_service_unavailable_response send close
refuse tls files fd s = create_service_unavailable_response files new_response >>= λ response.
    done (record s {
      descriptors = close_descriptor fd s.descriptors;
      refused = s.refused ++ (close (send response (new_client tls)) ∷ []);
    })

-- `available` is the queue without `pid`; a pid that is not found gives an index out of range.
unfoldable pub hand_over :
    (send_fails : Bool) → (fd pid : ℕ) → (available : List ℕ) → Server → Outcome Server
hand_over send_fails fd pid available s =
    let i = client_index pid s.client_processes in
    if ltb i (length s.client_processes)
    then (if send_fails
        then done (record s {
          available_clients = available ++ (pid ∷ []);
          descriptors = close_descriptor fd s.descriptors;
        })
        else done (record s {
          available_clients = available;
          socket_pairs = set i (s.socket_pairs i ++ (fd ∷ [])) s.socket_pairs;
        }))
    else fault

-- mq_receive of an empty queue waits: the queue was opened without O_NONBLOCK, which mq_open reads from
-- its second argument and not from the attributes.
unfoldable pub from_queue :
    (send_fails : Bool) → (fd : ℕ) → (queue : List ℕ) → Server → Outcome Server
unfolding hand_over
from_queue send_fails fd [] s = runs_on
from_queue send_fails fd (pid ∷ available) s = hand_over send_fails fd pid available s

-- One turn of the loop.
unfoldable pub turn : Turn → Server → Outcome Server
unfolding refuse from_queue
turn t s = maybe t.accepted (done s) λ fd.
    let s' = record s { descriptors = fd ∷ s.descriptors } in
    if t.receive_fails
    then refuse t.tls t.files fd s'
    else from_queue t.send_fails fd s'.available_clients s'

-- recv_fd of process `i`; `arrives` is whether the message carries the descriptor. A recvmsg that fails
-- changes nothing.
abbrev pub receive_from : (arrives : Bool) → (i : ℕ) → (pair : List ℕ) → Server → Outcome Server
receive_from arrives i [] s = runs_on
receive_from arrives i (fd ∷ pair) s = done (record s {
  socket_pairs = set i pair s.socket_pairs;
  processes = if arrives then set i (handling fd) s.processes else s.processes;
})

abbrev pub recv_fd : (arrives : Bool) → (i : ℕ) → Process → Server → Outcome Server
recv_fd arrives i waiting s = receive_from arrives i (s.socket_pairs i) s
recv_fd arrives i p s = runs_on

-- How process `i` ends its connection: it closes it and reports itself, or the process ends by a fault.
abbrev pub end_connection : (ended : Outcome Client) → (i : ℕ) → Process → Server → Outcome Server
end_connection ended i waiting s = runs_on
end_connection ended i gone s = runs_on
end_connection runs_on i (handling fd) s = runs_on
end_connection fault i (handling fd) s = done (record s { processes = set i gone s.processes })
end_connection (done c) i (handling fd) s = done (record s {
  processes = set i waiting s.processes;
  available_clients = s.available_clients ++ (element i s.client_processes ∷ []);
})

-- A turn of the server, a message taken by process `i`, and what process `i` does with its connection.
pub data Event : Type 0 where
  turns : Turn → Event
  receives : (arrives : Bool) → (i : ℕ) → Event
  serves : Files → (accepted : Bool) → List Round → (i : ℕ) → Event

-- `runs_on` is an event that cannot happen yet.
unfoldable pub step : Event → Server → Outcome Server
unfolding turn handle_connection
step (turns t) s = turn t s
step (receives arrives i) s = recv_fd arrives i (s.processes i) s
step (serves files accepted rounds i) s =
    end_connection (handle_connection files accepted rounds) i (s.processes i) s

unfoldable pub run : List Event → Server → Outcome Server
unfolding step
run [] s = done s
run (e ∷ es) s = step e s >>= λ s'. run es s'

-- Whom SIGQUIT goes to when the loop has ended; 0 is the whole process group.
abbrev pub signalled : (logger_pid : ℕ) → Server → List ℕ
signalled logger_pid s = s.client_processes ++ (logger_pid ∷ [])
