-- ===== src/Http/Life/Killed.antt =====
-- The end of a run in which fork failed for a client process.
use ivos.Base.{
  ℕ, ◌+◌, ◌<◌, ◌≤◌, ◌≡◌, ◌≢◌, ◌⊎◌, inl, inr, refl, ap, ◌∙◌, Bool, true, false, List, [], ◌∷◌, none,
  some, arith, ℕ_discrete, eq→==,
}
use ivos.Http.System.{
  one, add, remove, QueueName, logger, available, set_linked, System, nothing, goes_on, killed,
  check, open_queue, bind-goes_on, bind-killed,
}
use ivos.Http.Server
use ivos.Http.Server.Queue.{count}
use ivos.Http.Main.{configured}
use ivos.Http.Life.{
  Forking, Kept, World, create_server, configure_ssl, start_logger, set_up_socket, fork_client,
  start_client, start_clients, serve_connections, stop_process, stop_clients, run_server, launch,
}
use ivos.Http.Life.Working.{pids, start_logger-works, open_queue-works, stop_process-shrinks}
use ivos.Http.Life.Ending.{Works, set_up_socket-works, serve_connections-works}

-- Every socketpair gives a pair, and every fork a process, or fails and gives 0.
abbrev pub AllTried : List Forking → Kept → Type 0
AllTried [] [] = Unit {0}
AllTried [] (k ∷ kept) = ⊥
AllTried (x ∷ xs) [] = ⊥
AllTried (x ∷ xs) ((pid, mine) ∷ kept) =
    ((other : ℕ) × (x.pair ≡ some (mine, other)))
    × (((x.forks ≡ some pid) × (pid ≢ 0)) ⊎ ((x.forks ≡ none) × (pid ≡ 0)))
    × AllTried xs kept

-- For one at least it failed.
abbrev pub HasFailed : Kept → Type 0
HasFailed [] = ⊥
HasFailed ((pid, mine) ∷ kept) = (pid ≡ 0) ⊎ HasFailed kept

-- What is known of the system when the processes are started.
record Grew (kept : Kept) (w w' : System) : Type 0 where
  linked : w'.linked ≡ w.linked
  running : (y : ℕ) → y ≢ 0 → w'.running y ≡ pids kept y + w.running y

client-Grew :
    (x : Forking) (pid mine other : ℕ) (w : System)
    → x.pair ≡ some (mine, other)
    → ((x.forks ≡ some pid) × (pid ≢ 0)) ⊎ ((x.forks ≡ none) × (pid ≡ 0))
    → (w' : System) × (start_client x w ≡ goes_on (pid, mine) w') × Grew ((pid, mine) ∷ []) w w'
unfolding start_client fork_client
client-Grew x pid mine other w p (inl (q, positive)) = (
  record w {
    running = add pid w.running;
    descriptors = remove other (add other (add mine w.descriptors));
  },
  rw (p, q) refl,
  record { linked = refl; running = λ y nz. omega arith },
)
client-Grew x pid mine other w p (inr (q, failed)) = (
  record w { descriptors = add other (add mine w.descriptors) },
  rw (p, q, failed) refl,
  record { linked = refl; running = λ y nz. ground (arith, failed) },
)

clients-Grew :
    (xs : List Forking) (kept : Kept) (w : System)
    → AllTried xs kept
    → (w' : System) × (start_clients xs w ≡ goes_on kept w') × Grew kept w w'
unfolding start_clients
clients-Grew [] [] w all = (w, refl, record { linked = refl; running = λ y nz. omega arith })
clients-Grew [] (k ∷ kept) w all = absurd all
clients-Grew (x ∷ xs) [] w all = absurd all
clients-Grew (x ∷ xs) ((pid, mine) ∷ kept) w ((other, p), tried, all) =
    let (w1, e1, g1) = client-Grew x pid mine other w p tried in
    let (w2, e2, g2) = clients-Grew xs kept w1 all in
    (
      w2,
      bind-goes_on (start_client x) _ w (pid, mine) w1 e1
          ∙ bind-goes_on (start_clients xs) _ w1 kept w2 e2,
      record {
        linked = g2.linked ∙ g1.linked;
        running = λ y nz. omega (arith, g1.running y nz, g2.running y nz);
      },
    )

one_self : (pid : ℕ) → one pid pid ≡ 1
one_self pid = ground arith

both_linked :
    (n : QueueName) → set_linked available true (set_linked logger true (λ _. false)) n ≡ true
both_linked logger = refl
both_linked available = refl

stop_process-killed :
    (stops : ℕ → Bool) (pid : ℕ) (w : System) → pid ≡ 0 → stop_process stops pid w ≡ killed w
unfolding stop_process
stop_process-killed stops pid w e = rw (eq→== pid 0 e) refl

others : (pid : ℕ) (P : Type 0) → (pid ≡ 0) ⊎ P → pid ≢ 0 → P
others pid P (inl e) ne = absurd (ne e)
others pid P (inr p) ne = p

-- The server stops the processes up to the first that it has no number of, and is killed.
stop_clients-killed :
    (stops : ℕ → Bool) (kept : Kept) (w : System)
    → ((pid : ℕ) → stops pid ≡ true)
    → HasFailed kept
    → (w' : System) × (stop_clients stops kept w ≡ killed w')
      × (w'.linked ≡ w.linked)
      × ((y : ℕ) → w.running y ≤ w'.running y + pids kept y)
unfolding stop_clients
stop_clients-killed stops [] w s failed = absurd failed
stop_clients-killed stops ((pid, mine) ∷ kept) w s failed =
    let w1 = record w { descriptors = remove mine w.descriptors } in
    elim (ℕ_discrete pid 0) [
      | yes here ↦ (
        w1,
        bind-killed (stop_process stops pid) _ w1 w1 (stop_process-killed stops pid w1 here),
        refl,
        λ y. omega arith,
      )
      | no positive ↦
          let w2 = record w1 { running = remove pid w1.running } in
          let (w', e, linked, running) =
            stop_clients-killed stops kept w2 s (others pid (HasFailed kept) failed positive) in
          (
            w',
            bind-goes_on (stop_process stops pid) _ w1 tt w2
                  (stop_process-shrinks stops pid w1 positive (s pid))
                ∙ e,
            linked,
            λ y. omega (arith, running y),
          )
    ]

-- When everything works but that fork has failed for some client processes: at its end the server
-- signals its own process group and is killed by that. The process of the logger has not been waited
-- for, and both queues keep their names, so that the next run finds what is left in them.
pub launch-killed :
    (e : World) (kept : Kept) (s : Server.Server) (g : Works e s)
    → AllTried e.clients kept
    → HasFailed kept
    → (w' : System) × (launch e nothing ≡ killed w')
      × (0 < w'.running g.logger_pid.0)
      × ((n : QueueName) → w'.linked n ≡ true)
unfolding launch run_server create_server configured configure_ssl
launch-killed e kept s g tried failed =
    let log = g.message_queue.0 in
    let logger_pid = g.logger_pid.0 in
    let w1 = record nothing {
      descriptors = add log nothing.descriptors;
      linked = set_linked logger true nothing.linked;
    } in
    let w2 = record w1 { tls = true } in
    let w3 = record w2 { running = add logger_pid w2.running } in
    let w4 = record w3 { descriptors = add g.socket.0 w3.descriptors } in
    let w5 = record w4 {
      descriptors = add g.available_queue.0 w4.descriptors;
      linked = set_linked available true w4.linked;
    } in
    let (w6, e6, grew) = clients-Grew e.clients kept w5 tried in
    let w7 = record w6 { descriptors = λ fd. count fd s.descriptors + w6.descriptors fd } in
    let (w8, e8, linked, runs) = stop_clients-killed e.stops kept w7 g.stops failed in
    (
      w8,
      bind-goes_on (create_server e.message_queue) _ nothing log w1
            (open_queue-works logger e.message_queue log nothing g.message_queue.1)
          ∙ bind-goes_on (configure_ssl e.context_works e.certificate_works e.private_key_works) _
              w1 tt w2 (rw (g.context, g.certificate, g.private_key) refl)
          ∙ bind-killed (run_server e) _ w2 w8 (
              bind-goes_on (start_logger e.logger_forks) _ w2 logger_pid w3
                (start_logger-works e.logger_forks logger_pid w2 g.logger_pid.1)
              ∙ bind-goes_on (set_up_socket e.calls) _ w3 g.socket.0 w4
                  (set_up_socket-works e s g w3)
              ∙ bind-goes_on (open_queue available e.available_queue) _ w4 g.available_queue.0 w5 (
                  open_queue-works available e.available_queue g.available_queue.0 w4
                    g.available_queue.1)
              ∙ bind-goes_on (start_clients e.clients) _ w5 kept w6 e6
              ∙ bind-goes_on (check e.sigaction_works) _ w6 tt w6 (rw g.sigaction refl)
              ∙ bind-goes_on (serve_connections e.left e.clients e.events) _ w6 tt w7
                  (serve_connections-works e s g w6)
              ∙ bind-killed (stop_clients e.stops kept) _ w7 w8 e8),
      omega (arith, runs logger_pid, grew.running logger_pid g.logger_pid.2, one_self logger_pid),
      λ n. ap (λ (l : QueueName → Bool). l n) (linked ∙ grew.linked) ∙ both_linked n,
    )
