-- ===== src/Http/Server/Orderly/Turns.antt =====
-- A turn of the server keeps the processes to one connection each.
use ivos.Base.{
  ℕ, ◌+◌, ◌≤◌, ◌==◌, ◌≡◌, Bool, refl, subst, sym, eq→==, ==→eq, ltb, Bool-cases, inl, inr, List, [],
  ◌∷◌, ◌++◌, done, fault, arith, length, if◌then◌else◌, Ensures, Ensures-bind, Ensures-any,
  Ensures-maybe, Ensures-if,
}
use ivos.Http.Response.{Files, new_response, create_service_unavailable_response}
use ivos.Http.Server.{Server, Turn, element, set, client_index, refuse, hand_over, from_queue, turn}
use ivos.Http.Server.Queue.{
  count, count-snoc, length-snoc, IsKnown, IsKnown-snoc, element-client_index,
}
use ivos.Http.Server.Orderly.{busy, load, Orderly, unchanged-Orderly}

-- The load, when it is known who is first in the queue.
offered :
    (s : Server) (pid : ℕ) (available : List ℕ) (i : ℕ)
    → s.available_clients ≡ pid ∷ available
    → Orderly s
    → (if pid == element i s.client_processes then 1 else 0)
        + count (element i s.client_processes) available
        + length (s.socket_pairs i)
        + busy (s.processes i)
      ≤ 1
offered s pid available i queue o =
    subst
      (λ q.
        count (element i s.client_processes) q + length (s.socket_pairs i) + busy (s.processes i)
        ≤ 1)
      queue (o.once i)

-- The first of the queue is put back, at its end.
put_back-Orderly :
    (s : Server) (pid : ℕ) (available descriptors : List ℕ)
    → s.available_clients ≡ pid ∷ available
    → Orderly s
    → Orderly (record s { available_clients = available ++ (pid ∷ []); descriptors = descriptors })
put_back-Orderly s pid available descriptors queue o =
    let (positive, found, known) = subst (IsKnown s.client_processes) queue o.known in
    record {
      distinct = o.distinct;
      started = o.started;
      known = IsKnown-snoc s.client_processes pid available positive found known;
      once = λ i.
          let before = offered s pid available i queue o in
          let more = count-snoc (element i s.client_processes) pid available in omega arith;
    }

-- The first of the queue gets the connection.
abbrev pub handed_over : Server → (fd i : ℕ) → (available : List ℕ) → Server
handed_over s fd i available = record s {
  available_clients = available;
  socket_pairs = set i (s.socket_pairs i ++ (fd ∷ [])) s.socket_pairs;
}

handed_over-load :
    (s : Server) (fd pid : ℕ) (available : List ℕ) (i : ℕ)
    → s.available_clients ≡ pid ∷ available
    → element i s.client_processes ≡ pid
    → Orderly s
    → load (handed_over s fd i available) i ≤ 1
handed_over-load s fd pid available i queue at o =
    let before = offered s pid available i queue o in
    let same = eq→== pid (element i s.client_processes) (sym at) in
    let more = length-snoc fd (s.socket_pairs i) in rw (eq→== i i refl, more) (ground arith)

handed_over-Orderly :
    (s : Server) (fd pid : ℕ) (available : List ℕ)
    → s.available_clients ≡ pid ∷ available
    → Orderly s
    → Orderly (handed_over s fd (client_index pid s.client_processes) available)
handed_over-Orderly s fd pid available queue o =
    let (positive, found, known) = subst (IsKnown s.client_processes) queue o.known in
    let at = element-client_index pid s.client_processes found in
    let next = handed_over s fd (client_index pid s.client_processes) available in
    record {
      distinct = o.distinct;
      started = o.started;
      known = known;
      once = λ i. elim (Bool-cases (i == client_index pid s.client_processes)) [
        | inl here ↦
            subst (λ j. load next j ≤ 1) (sym (==→eq i (client_index pid s.client_processes) here))
              (handed_over-load s fd pid available (client_index pid s.client_processes) queue at o)
        | inr other ↦ let before = offered s pid available i queue o in rw other (omega arith)
      ];
    }

hand_over-Orderly :
    (send_fails : Bool) (fd pid : ℕ) (available : List ℕ) (s : Server)
    → s.available_clients ≡ pid ∷ available
    → Orderly s
    → Ensures Orderly (hand_over send_fails fd pid available s)
unfolding hand_over
hand_over-Orderly send_fails fd pid available s queue o =
    Ensures-if Orderly (ltb (client_index pid s.client_processes) (length s.client_processes)) _
      fault
      (λ _.
        Ensures-if Orderly send_fails _ _ (λ _. put_back-Orderly s pid available _ queue o)
          λ _. handed_over-Orderly s fd pid available queue o)
      λ _. tt

from_queue-Orderly :
    (send_fails : Bool) (fd : ℕ) (queue : List ℕ) (s : Server)
    → s.available_clients ≡ queue
    → Orderly s
    → Ensures Orderly (from_queue send_fails fd queue s)
unfolding from_queue
from_queue-Orderly send_fails fd [] s is o = tt
from_queue-Orderly send_fails fd (pid ∷ available) s is o =
    hand_over-Orderly send_fails fd pid available s is o

refuse-Orderly :
    (tls : Bool) (files : Files) (fd : ℕ) (s : Server)
    → Orderly s
    → Ensures Orderly (refuse tls files fd s)
unfolding refuse
refuse-Orderly tls files fd s o =
    Ensures-bind (λ _. Unit {0}) Orderly (create_service_unavailable_response files new_response) _
      (Ensures-any (create_service_unavailable_response files new_response))
      λ response _. unchanged-Orderly s _ _ o

pub turn-Orderly : (t : Turn) (s : Server) → Orderly s → Ensures Orderly (turn t s)
unfolding turn
turn-Orderly t s o = Ensures-maybe Orderly t.accepted (done s) _ o λ fd.
    let o' = unchanged-Orderly s (fd ∷ s.descriptors) s.refused o in
    Ensures-if Orderly t.receive_fails _ _ (λ _. refuse-Orderly t.tls t.files fd _ o')
      λ _. from_queue-Orderly t.send_fails fd s.available_clients _ refl o'
