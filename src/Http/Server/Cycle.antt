-- ===== src/Http/Server/Cycle.antt =====
-- A client process that serves a connection, from the server's turn to its report.
use ivos.Base.{ℕ, ◌≡◌, true, false, refl, ap, ◌∙◌, eq→==, List, [], ◌∷◌, ◌++◌, some, done, ◌>>=◌}
use ivos.Http.Response.{Files}
use ivos.Http.Client.{Client}
use ivos.Http.Worker.{Round, handle_connection}
use ivos.Http.Worker.Answers.{Visit, AllVisits, Session, rounds_of, handle_connection-Session}
use ivos.Http.Server.{
  waiting, handling, Server, Start, Turn, Event, turns, receives, serves, element, set, turn,
  receive_from, recv_fd, end_connection, step, run,
}
use ivos.Http.Server.Starting.{Reached}
use ivos.Http.Server.Dispatch.{IsIdle, after_send, turn-first}

-- Process `i` takes the only message sent to it.
abbrev taken : (i fd : ℕ) → Server → Server
taken i fd s = record s {
  socket_pairs = set i [] s.socket_pairs;
  processes = set i (handling fd) s.processes;
}

step-receives :
    (i fd : ℕ) (s : Server)
    → s.processes i ≡ waiting
    → s.socket_pairs i ≡ fd ∷ []
    → step (receives true i) s ≡ done (taken i fd s)
unfolding step
step-receives i fd s waits sent =
    ap (λ p. recv_fd true i p s) waits ∙ ap (λ p. receive_from true i p s) sent

-- It has served its connection.
abbrev reported : (i : ℕ) → Server → Server
reported i s = record s {
  processes = set i waiting s.processes;
  available_clients = s.available_clients ++ (element i s.client_processes ∷ []);
}

step-serves :
    (files : Files) (rounds : List Round) (i fd : ℕ) (s : Server) (c : Client)
    → s.processes i ≡ handling fd
    → handle_connection files true rounds ≡ done c
    → step (serves files true rounds i) s ≡ done (reported i s)
unfolding step
step-serves files rounds i fd s c handles ends =
    ap (λ p. end_connection (handle_connection files true rounds) i p s) handles
    ∙ ap (λ o. end_connection o i (handling fd) s) ends

run-step :
    (e : Event) (es : List Event) (s s' : Server) → step e s ≡ done s' → run (e ∷ es) s ≡ run es s'
unfolding run
run-step e es s s' h = ap (λ m. m >>= λ x. run es x) h

run-nil : (s : Server) → run [] s ≡ done s
unfolding run
run-nil s = refl

step-turns : (t : Turn) (s : Server) → step (turns t) s ≡ turn t s
unfolding step
step-turns t s = refl

-- A process that has served a connection: it waits, nothing is sent to it, and it is at the end of the
-- queue.
pub record IsBack (pid i : ℕ) (available : List ℕ) (s : Server) : Type 0 where
  pub idle : IsIdle s pid i
  pub queued : s.available_clients ≡ available ++ (pid ∷ [])

-- In a state that the server reaches, when a connection is accepted, mq_receive gives a number and
-- sending succeeds: if then, with no other event between, the process with that number takes the
-- message, TLS accepts, and the connection brings GET requests for files as in `AllVisits` and then
-- ends, where what lies behind the copy of each head, up to a zero, is one line and no field: all of them
-- are answered in order, and afterwards the process waits again and is the last in the queue.
pub run-IsBack :
    (starts : List Start) (es : List Event) (s : Server) (t : Turn) (fd pid : ℕ)
    (available : List ℕ) (files : Files) (vs : List Visit)
    → Reached starts es s
    → t.accepted ≡ some fd
    → t.receive_fails ≡ false
    → t.send_fails ≡ false
    → s.available_clients ≡ pid ∷ available
    → AllVisits files vs
    → (i : ℕ) × (s' : Server) × (run
          (turns t ∷ receives true i ∷ serves files true (rounds_of vs) i ∷ [])
          s
        ≡ done s')
      × IsBack pid i available s'
      × Session files vs [] (handle_connection files true (rounds_of vs))
run-IsBack starts es s t fd pid available files vs r accepted received sends queue all =
    let (i, idle, turned) = turn-first starts es s t fd pid available r accepted received queue in
    let session = handle_connection-Session files vs all in
    let s1 = after_send false fd pid i available s in
    let s2 = taken i fd s1 in
    let s3 = reported i s2 in
    let e1 : step (turns t) s ≡ done s1 =
      step-turns t s ∙ turned ∙ ap (λ b. done (after_send b fd pid i available s)) sends in
    let e2 = step-receives i fd s1 idle.waits (rw (eq→== i i refl) refl) in
    let e3 =
      step-serves files (rounds_of vs) i fd s2 session.client (rw (eq→== i i refl) refl)
        session.ends in
    (
      i,
      s3,
      run-step (turns t) (receives true i ∷ serves files true (rounds_of vs) i ∷ []) s s1 e1
          ∙ run-step (receives true i) (serves files true (rounds_of vs) i ∷ []) s1 s2 e2
          ∙ run-step (serves files true (rounds_of vs) i) [] s2 s3 e3
          ∙ run-nil s3,
      record {
        idle = record {
          numbered = idle.numbered;
          waits = rw (eq→== i i refl) refl;
          unsent = rw (eq→== i i refl) refl;
        };
        queued = ap (λ p. available ++ (p ∷ [])) idle.numbered;
      },
      session,
    )
