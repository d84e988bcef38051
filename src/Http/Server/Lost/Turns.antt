-- ===== src/Http/Server/Lost/Turns.antt =====
-- A turn of the server sends nothing to a process that is not in its queue.
use ivos.Base.{
  done, fault, ℕ, ◌+◌, ◌==◌, ◌≡◌, Bool, false, refl, ap, ◌∙◌, subst, sym, eq→==, ==→eq, ltb,
  Bool-cases, inl, inr, List, [], ◌∷◌, arith, length, if◌then◌else◌, Ensures, Ensures-bind,
  Ensures-any, Ensures-maybe, Ensures-if,
}
use ivos.Http.Response.{new_response, create_service_unavailable_response}
use ivos.Http.Server.{Server, Turn, element, client_index, refuse, hand_over, from_queue, turn}
use ivos.Http.Client.{Client}
use ivos.Http.Server.Queue.{count, count-snoc, IsKnown, element-client_index}
use ivos.Http.Server.Orderly.{Orderly, unchanged-Orderly}
use ivos.Http.Server.Lost.{IsForgotten}

unlisted_first :
    (i : ℕ) (s : Server) (pid : ℕ) (available : List ℕ)
    → s.available_clients ≡ pid ∷ available
    → IsForgotten i s
    → (if pid == element i s.client_processes then 1 else 0)
        + count (element i s.client_processes) available
      ≡ 0
unlisted_first i s pid available queue f =
    subst (λ q. count (element i s.client_processes) q ≡ 0) queue f.unlisted

hand_over-IsForgotten :
    (i : ℕ) (send_fails : Bool) (fd pid : ℕ) (available : List ℕ) (s : Server)
    → s.available_clients ≡ pid ∷ available
    → Orderly s
    → IsForgotten i s
    → Ensures (IsForgotten i) (hand_over send_fails fd pid available s)
unfolding hand_over
hand_over-IsForgotten i send_fails fd pid available s queue o f =
    let none_before = unlisted_first i s pid available queue f in
    let at =
      element-client_index pid s.client_processes
        (subst (IsKnown s.client_processes) queue o.known).1 in
    let other : (i == client_index pid s.client_processes) ≡ false =
      elim (Bool-cases (i == client_index pid s.client_processes)) [
        | inl here ↦ absurd (
            let e = eq→== pid (element i s.client_processes) (
              sym (
                ap (λ k. element k s.client_processes)
                  (==→eq i (client_index pid s.client_processes) here)
                ∙ at)) in
            ground arith)
        | inr other ↦ other
      ] in
    Ensures-if (IsForgotten i)
      (ltb (client_index pid s.client_processes) (length s.client_processes)) _ fault
      (λ _.
        Ensures-if (IsForgotten i) send_fails _ _
          (λ _. record {
            waits = f.waits;
            unsent = f.unsent;
            unlisted = rw (count-snoc (element i s.client_processes) pid available) (omega arith);
          })
          λ _. record { waits = f.waits; unsent = rw other f.unsent; unlisted = omega arith })
      λ _. tt

from_queue-IsForgotten :
    (i : ℕ) (send_fails : Bool) (fd : ℕ) (queue : List ℕ) (s : Server)
    → s.available_clients ≡ queue
    → Orderly s
    → IsForgotten i s
    → Ensures (IsForgotten i) (from_queue send_fails fd queue s)
unfolding from_queue
from_queue-IsForgotten i send_fails fd [] s queue o f = tt
from_queue-IsForgotten i send_fails fd (pid ∷ available) s queue o f =
    hand_over-IsForgotten i send_fails fd pid available s queue o f

unchanged-IsForgotten :
    (i : ℕ) (s : Server) (descriptors : List ℕ) (refused : List Client)
    → IsForgotten i s
    → IsForgotten i (record s { descriptors = descriptors; refused = refused })
unchanged-IsForgotten i s descriptors refused f = record {
  waits = f.waits;
  unsent = f.unsent;
  unlisted = f.unlisted;
}

pub turn-IsForgotten :
    (i : ℕ) (t : Turn) (s : Server)
    → Orderly s
    → IsForgotten i s
    → Ensures (IsForgotten i) (turn t s)
unfolding turn refuse
turn-IsForgotten i t s o f = Ensures-maybe (IsForgotten i) t.accepted (done s) _ f λ fd.
    let f' = unchanged-IsForgotten i s (fd ∷ s.descriptors) s.refused f in
    let o' = unchanged-Orderly s (fd ∷ s.descriptors) s.refused o in
    Ensures-if (IsForgotten i) t.receive_fails _ _
      (λ _.
        Ensures-bind (λ _. Unit {0}) (IsForgotten i)
          (create_service_unavailable_response t.files new_response) _
          (Ensures-any (create_service_unavailable_response t.files new_response))
          λ response _. unchanged-IsForgotten i s _ _ f)
      λ _. from_queue-IsForgotten i t.send_fails fd s.available_clients _ refl o' f'
