-- ===== src/Http/Server/Lost/Runs.antt =====
-- What other processes do, and whole runs, leave a process waiting that lost its message.
use ivos.Base.{
  Outcome, done, fault, runs_on, ℕ, ◌+◌, ◌≤◌, ◌==◌, ◌≡◌, Bool, true, false, refl, ap, ◌∙◌, subst,
  sym, eq→==, ==→eq, Bool-cases, inl, inr, List, [], ◌∷◌, arith, length, if◌then◌else◌, Ensures,
  Ensures-bind, Ensures-both,
}
use ivos.Http.Server.{
  Process, waiting, gone, handling, Server, Start, Event, turns, receives, serves, element, set,
  receive_from, recv_fd, end_connection, step, run,
}
use ivos.Http.Client.{Client}
use ivos.Http.Worker.{handle_connection}
use ivos.Http.Server.Dispatch.{no_length}
use ivos.Http.Server.Queue.{count}
use ivos.Http.Server.Orderly.{busy, Orderly}
use ivos.Http.Server.Orderly.Processes.{step-Orderly, fewer-snoc, started-positive}
use ivos.Http.Server.Starting.{Reached, Reached-Orderly}
use ivos.Http.Server.Lost.Turns.{turn-IsForgotten}
use ivos.Http.Server.Lost.{IsForgotten}

waits_still :
    (i : ℕ) (arrives : Bool) (j fd : ℕ) (s : Server)
    → (i == j) ≡ false
    → s.processes i ≡ waiting
    → (if arrives then set j (handling fd) s.processes else s.processes) i ≡ waiting
waits_still i true j fd s other waits = rw other waits
waits_still i false j fd s other waits = waits

receive_from-IsForgotten :
    (i : ℕ) (arrives : Bool) (j : ℕ) (pair : List ℕ) (s : Server)
    → s.socket_pairs j ≡ pair
    → IsForgotten i s
    → Ensures (IsForgotten i) (receive_from arrives j pair s)
receive_from-IsForgotten i arrives j [] s next f = tt
receive_from-IsForgotten i arrives j (fd ∷ pair) s next f = elim (Bool-cases (i == j)) [
  | inl here ↦
      absurd (let e = sym f.unsent ∙ ap (λ k. s.socket_pairs k) (==→eq i j here) ∙ next in cc)
  | inr other ↦ record {
    waits = waits_still i arrives j fd s other f.waits;
    unsent = rw other f.unsent;
    unlisted = f.unlisted;
  }
]

recv_fd-IsForgotten :
    (i : ℕ) (arrives : Bool) (j : ℕ) (p : Process) (s : Server)
    → IsForgotten i s
    → Ensures (IsForgotten i) (recv_fd arrives j p s)
recv_fd-IsForgotten i arrives j waiting s f =
    receive_from-IsForgotten i arrives j (s.socket_pairs j) s refl f
recv_fd-IsForgotten i arrives j gone s f = tt
recv_fd-IsForgotten i arrives j (handling fd) s f = tt

-- A process that waits is not one that handles a connection.
waits_other :
    (i j fd : ℕ) (s : Server)
    → s.processes i ≡ waiting
    → s.processes j ≡ handling fd
    → (i == j) ≡ false
waits_other i j fd s waits handles = elim (Bool-cases (i == j)) [
  | inl here ↦ absurd (let e = sym waits ∙ ap (λ k. s.processes k) (==→eq i j here) ∙ handles in cc)
  | inr other ↦ other
]

end_connection-IsForgotten :
    (i : ℕ) (ended : Outcome Client) (j : ℕ) (p : Process) (s : Server)
    → s.processes j ≡ p
    → Orderly s
    → IsForgotten i s
    → Ensures (IsForgotten i) (end_connection ended j p s)
end_connection-IsForgotten i ended j waiting s is o f = tt
end_connection-IsForgotten i ended j gone s is o f = tt
end_connection-IsForgotten i runs_on j (handling fd) s is o f = tt
end_connection-IsForgotten i fault j (handling fd) s is o f =
    let other = waits_other i j fd s f.waits is in
    record { waits = rw other f.waits; unsent = f.unsent; unlisted = f.unlisted }
end_connection-IsForgotten i (done c) j (handling fd) s is o f =
    let other = waits_other i j fd s f.waits is in
    let fewer = fewer-snoc s j i o (started-positive s j fd o is) other in
    record {
      waits = rw other f.waits;
      unsent = f.unsent;
      unlisted = omega (arith, fewer, f.unlisted);
    }

step-IsForgotten :
    (i : ℕ) (e : Event) (s : Server)
    → Orderly s
    → IsForgotten i s
    → Ensures (IsForgotten i) (step e s)
unfolding step
step-IsForgotten i (turns t) s o f = turn-IsForgotten i t s o f
step-IsForgotten i (receives arrives j) s o f = recv_fd-IsForgotten i arrives j (s.processes j) s f
step-IsForgotten i (serves files accepted rounds j) s o f =
    end_connection-IsForgotten i (handle_connection files accepted rounds) j (s.processes j) s refl
      o f

run-IsForgotten :
    (i : ℕ) (es : List Event) (s : Server)
    → Orderly s
    → IsForgotten i s
    → Ensures (IsForgotten i) (run es s)
unfolding run
run-IsForgotten i [] s o f = f
run-IsForgotten i (e ∷ es) s o f =
    Ensures-bind (λ s'. Orderly s' × IsForgotten i s') (IsForgotten i) (step e s) (λ s'. run es s')
      (Ensures-both Orderly (IsForgotten i) (step e s) (step-Orderly e s o)
        (step-IsForgotten i e s o f))
      λ s' (o', f'). run-IsForgotten i es s' o' f'

-- The process has taken the only message.
taken-IsForgotten :
    (i fd : ℕ) (pair : List ℕ) (s : Server)
    → s.processes i ≡ waiting
    → s.socket_pairs i ≡ fd ∷ pair
    → Orderly s
    → IsForgotten i (record s { socket_pairs = set i pair s.socket_pairs })
taken-IsForgotten i fd pair s waits sent o =
    let before =
      subst
        (λ p.
          count (element i s.client_processes) s.available_clients + length p + busy (s.processes i)
          ≤ 1)
        sent (o.once i) in
    record {
      waits = waits;
      unsent = rw (eq→== i i refl) (no_length pair (omega arith));
      unlisted = omega arith;
    }

recv_fd-lost :
    (i fd : ℕ) (pair : List ℕ) (s : Server)
    → s.processes i ≡ waiting
    → s.socket_pairs i ≡ fd ∷ pair
    → step (receives false i) s ≡ done (record s { socket_pairs = set i pair s.socket_pairs })
unfolding step
recv_fd-lost i fd pair s waits sent =
    ap (λ p. recv_fd false i p s) waits ∙ ap (λ p. receive_from false i p s) sent

-- When in a state that the server reaches a waiting process takes a message from its socket that brings
-- no descriptor, then whatever happens later it stays waiting: it is in the queue no more, and no
-- connection is sent to it.
pub lost-IsForgotten :
    (starts : List Start) (es : List Event) (s : Server) (i fd : ℕ) (pair : List ℕ)
    (later : List Event)
    → Reached starts es s
    → s.processes i ≡ waiting
    → s.socket_pairs i ≡ fd ∷ pair
    → (s' : Server) × (step (receives false i) s ≡ done s') × Ensures (IsForgotten i) (run later s')
lost-IsForgotten starts es s i fd pair later r waits sent =
    let s' = record s { socket_pairs = set i pair s.socket_pairs } in
    let o = Reached-Orderly starts es s r in
    let taken = recv_fd-lost i fd pair s waits sent in
    (
      s',
      taken,
      run-IsForgotten i later s'
          (subst (Ensures Orderly) taken (step-Orderly (receives false i) s o))
          (taken-IsForgotten i fd pair s waits sent o),
    )
