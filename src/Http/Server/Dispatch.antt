-- ===== src/Http/Server/Dispatch.antt =====
-- Which process gets a connection, and what happens when none does.
use ivos.Base.{
  ℕ, ◌+◌, ◌≤◌, ◌<◌, ◌≡◌, Bool, true, false, refl, ap, ◌∙◌, subst, sym, eq→==, <→ltb, List, [], ◌∷◌,
  ◌++◌, some, done, arith, length, if◌then◌else◌,
}
use ivos.Http.Text.{Text, codes}
use ivos.Http.Response.{Response, unavailable_status}
use ivos.Http.Response.Framing.{Framed, create_service_unavailable_response-Framed}
use ivos.Http.Client.{Client, close, new_client, send}
use ivos.Http.Worker.Closing.{IsClosed}
use ivos.Http.Server.{
  Process, waiting, gone, handling, Server, Start, Turn, Event, element, set, client_index, refuse,
  hand_over, from_queue, turn,
}
use ivos.Http.Server.Queue.{count, IsKnown, element-client_index}
use ivos.Http.Server.Orderly.{busy, Orderly}
use ivos.Http.Server.Starting.{Reached, Reached-Orderly}

-- The process that is first in the queue.
pub record IsIdle (s : Server) (pid i : ℕ) : Type 0 where
  pub numbered : element i s.client_processes ≡ pid
  pub waits : s.processes i ≡ waiting
  pub unsent : s.socket_pairs i ≡ []

-- `busy` and an empty pair from numbers.
idle_waits : (p : Process) → busy p ≡ 0 → p ≡ waiting
idle_waits waiting h = refl
idle_waits gone h = absurd (omega arith)
idle_waits (handling fd) h = absurd (omega arith)

pub no_length : (xs : List ℕ) → length xs ≡ 0 → xs ≡ []
no_length [] h = refl
no_length (x ∷ xs) h = absurd (omega arith)

first-load :
    (s : Server) (pid : ℕ) (available : List ℕ) (i : ℕ)
    → s.available_clients ≡ pid ∷ available
    → element i s.client_processes ≡ pid
    → Orderly s
    → length (s.socket_pairs i) + busy (s.processes i) ≡ 0
first-load s pid available i queue at o =
    let before =
      subst
        (λ q.
          count (element i s.client_processes) q + length (s.socket_pairs i) + busy (s.processes i)
          ≤ 1)
        queue (o.once i) in
    let same = eq→== pid (element i s.client_processes) (sym at) in ground arith

first-IsIdle :
    (s : Server) (pid : ℕ) (available : List ℕ)
    → s.available_clients ≡ pid ∷ available
    → Orderly s
    → IsIdle s pid (client_index pid s.client_processes)
first-IsIdle s pid available queue o =
    let i = client_index pid s.client_processes in
    let at =
      element-client_index pid s.client_processes
        (subst (IsKnown s.client_processes) queue o.known).1 in
    let nothing = first-load s pid available i queue at o in
    record {
      numbered = at;
      waits = idle_waits (s.processes i) (omega arith);
      unsent = no_length (s.socket_pairs i) (omega arith);
    }

-- The result of a turn in which a process is got from the queue.
abbrev pub after_send :
    (send_fails : Bool) → (fd pid i : ℕ) → (available : List ℕ) → Server → Server
after_send true fd pid i available s = record s { available_clients = available ++ (pid ∷ []) }
after_send false fd pid i available s = record s {
  available_clients = available;
  socket_pairs = set i (fd ∷ []) s.socket_pairs;
  descriptors = fd ∷ s.descriptors;
}

hand_over-first :
    (send_fails : Bool) (fd pid : ℕ) (available : List ℕ) (s : Server)
    → client_index pid s.client_processes < length s.client_processes
    → s.socket_pairs (client_index pid s.client_processes) ≡ []
    → hand_over send_fails fd pid available (record s { descriptors = fd ∷ s.descriptors })
      ≡ done (after_send send_fails fd pid (client_index pid s.client_processes) available s)
unfolding hand_over
hand_over-first true fd pid available s found unsent =
    rw
      (
        <→ltb (client_index pid s.client_processes) (length s.client_processes) found,
        eq→== fd fd refl,
      )
      refl
hand_over-first false fd pid available s found unsent =
    rw (<→ltb (client_index pid s.client_processes) (length s.client_processes) found, unsent) refl

-- In a state that the server reaches, when a connection is accepted and mq_receive gives the first number
-- of the queue: the number is that of a process which waits with nothing sent to it. If sending succeeds
-- that process alone gets the connection, whose descriptor the server leaves open; if it fails the
-- number is put back at the end of the queue and the descriptor closed.
pub turn-first :
    (starts : List Start) (es : List Event) (s : Server) (t : Turn) (fd pid : ℕ)
    (available : List ℕ)
    → Reached starts es s
    → t.accepted ≡ some fd
    → t.receive_fails ≡ false
    → s.available_clients ≡ pid ∷ available
    → (i : ℕ) × IsIdle s pid i × (turn t s ≡ done (after_send t.send_fails fd pid i available s))
unfolding turn from_queue
turn-first starts es s t fd pid available r accepted received queue =
    let o = Reached-Orderly starts es s r in
    let idle = first-IsIdle s pid available queue o in
    let s' = record s { descriptors = fd ∷ s.descriptors } in
    let begins : turn t s ≡ from_queue t.send_fails fd s.available_clients s' =
      rw (accepted, received) refl in
    let sent =
      hand_over-first t.send_fails fd pid available s
        (subst (IsKnown s.client_processes) queue o.known).1 idle.unsent in
    (
      client_index pid s.client_processes,
      idle,
      begins ∙ ap (λ q. from_queue t.send_fails fd q s') queue ∙ sent,
    )

-- What a client that was turned away has got: the answer if TLS accepted it, and in either case the
-- end of the connection.
pub record IsRefused (tls : Bool) (content : Text) (c : Client) : Type 0 where
  pub closed : IsClosed c
  pub told :
      (text : Text) × (c.written ≡ (if tls then text ∷ [] else []))
      × Framed unavailable_status content text

close-IsRefused :
    (tls : Bool) (content : Text) (r : Response)
    → Framed unavailable_status content r.response
    → IsRefused tls content (close (send r (new_client tls)))
unfolding close send new_client
close-IsRefused true content r framed = record {
  closed = (record { freed = refl; closed = refl; shut = omega arith }, refl);
  told = (r.response, refl, framed);
}
close-IsRefused false content r framed = record {
  closed = (record { freed = refl; closed = refl; shut = omega arith }, refl);
  told = (r.response, refl, framed);
}

-- When a connection is accepted and mq_receive fails, and www/service_unavailable.html is there: the
-- client gets that page with status 503 if TLS accepts it, the connection is closed once, its
-- descriptor too, and nothing else changes.
pub turn-IsRefused :
    (s : Server) (t : Turn) (fd : ℕ) (content : Text)
    → t.accepted ≡ some fd
    → t.receive_fails ≡ true
    → t.files (codes "www/service_unavailable.html") ≡ some content
    → (c : Client) × IsRefused t.tls content c
      × (turn t s ≡ done (record s { refused = s.refused ++ (c ∷ []) }))
unfolding turn refuse
turn-IsRefused s t fd content accepted failed found =
    let (r, made, framed) = create_service_unavailable_response-Framed t.files content found in
    (
      close (send r (new_client t.tls)),
      close-IsRefused t.tls content r framed,
      rw (accepted, failed, made, eq→== fd fd refl) refl,
    )
