-- ===== src/Http/Life/Ending.antt =====
-- A run in which every call works.
use ivos.Base.{ℕ, ◌+◌, ◌≡◌, ◌≢◌, refl, ap, ◌∙◌, true, false, List, some, done, arith, map}
use ivos.Http.System.{
  QueueName, logger, available, set_linked, check, one, add, remove, System, nothing, goes_on,
  exits, open_queue, bind-goes_on,
}
use ivos.Http.Server
use ivos.Http.Server.{Event}
use ivos.Http.Server.Queue.{count}
use ivos.Http.Main.{configured}
use ivos.Http.Life.{
  Kept, as_start, after_loop, World, create_server, configure_ssl, start_logger, set_up_socket,
  start_clients, serve_connections, stop_process, stop_clients, run_server, destroy, launch,
  close_queue,
}
use ivos.Http.Life.Working.{
  AllForked, grown, shrunk, holding, start_clients-grows, stop_process-shrinks,
  stop_clients-shrinks, start_logger-works, open_queue-works,
}

-- Every call of the run works but those about the client processes, and the loop comes to its end with
-- the server `s`.
pub record Works (e : World) (s : Server.Server) : Type 0 where
  pub message_queue : (fd : ℕ) × (e.message_queue ≡ some fd)
  pub context : e.context_works ≡ true
  pub certificate : e.certificate_works ≡ true
  pub private_key : e.private_key_works ≡ true
  pub logger_pid : (pid : ℕ) × (e.logger_forks ≡ some pid) × (pid ≢ 0)
  pub socket : (fd : ℕ) × (e.calls.socket ≡ some fd)
  pub reuse : e.calls.reuse_works ≡ true
  pub both_versions : e.calls.both_versions_work ≡ true
  pub bind : e.calls.bind_works ≡ true
  pub listen : e.calls.listen_works ≡ true
  pub available_queue : (fd : ℕ) × (e.available_queue ≡ some fd)
  pub sigaction : e.sigaction_works ≡ true
  pub first : Server.Server
  pub starts : Server.start_client_processes e.left (map as_start e.clients) ≡ some first
  pub loops : Server.run e.events first ≡ done s
  pub stops : (pid : ℕ) → e.stops pid ≡ true

module _ (e : World) (s : Server.Server) (g : Works e s) (w : System) where
  pub set_up_socket-works :
      set_up_socket e.calls w
      ≡ goes_on g.socket.0 (record w { descriptors = add g.socket.0 w.descriptors })
  unfolding set_up_socket
  set_up_socket-works = rw (g.socket.1, g.reuse, g.both_versions, g.bind, g.listen) refl

  pub serve_connections-works :
      serve_connections e.left e.clients e.events w
      ≡ goes_on tt (record w { descriptors = λ fd. count fd s.descriptors + w.descriptors fd })
  unfolding serve_connections
  serve_connections-works = rw g.starts (ap (λ o. after_loop o w) g.loops)

module _ (e : World) (kept : Kept) (s : Server.Server) (g : Works e s)
    (clients : AllForked e.clients kept) (w : System) where
  -- What `run` leaves.
  after_run : System
  after_run = record w {
    descriptors = λ y.
        count y s.descriptors + (one g.available_queue.0 y + (one g.socket.0 y + w.descriptors y));
    linked = set_linked available true w.linked;
  }

  run_server-ends : run_server e w ≡ goes_on (g.socket.0, g.available_queue.0) after_run
  unfolding run_server after_run
  run_server-ends =
      let logger_pid = g.logger_pid.0 in
      let fd = g.socket.0 in
      let queue = g.available_queue.0 in
      let w1 = record w { running = add logger_pid w.running } in
      let w2 = record w1 { descriptors = add fd w1.descriptors } in
      let w3 = record w2 {
        descriptors = add queue w2.descriptors;
        linked = set_linked available true w2.linked;
      } in
      let w4 = grown kept w3 in
      let w5 = record w4 { descriptors = λ y. count y s.descriptors + w4.descriptors y } in
      let w6 = shrunk kept w5 in
      let w7 = record w6 { running = remove logger_pid w6.running } in
      bind-goes_on (start_logger e.logger_forks) _ w logger_pid w1
        (start_logger-works e.logger_forks logger_pid w g.logger_pid.1)
      ∙ bind-goes_on (set_up_socket e.calls) _ w1 fd w2 (set_up_socket-works e s g w1)
      ∙ bind-goes_on (open_queue available e.available_queue) _ w2 queue w3
          (open_queue-works available e.available_queue queue w2 g.available_queue.1)
      ∙ bind-goes_on (start_clients e.clients) _ w3 kept w4
          (start_clients-grows e.clients kept w3 clients)
      ∙ bind-goes_on (check e.sigaction_works) _ w4 tt w4 (rw g.sigaction refl)
      ∙ bind-goes_on (serve_connections e.left e.clients e.events) _ w4 tt w5
          (serve_connections-works e s g w4)
      ∙ bind-goes_on (stop_clients e.stops kept) _ w5 tt w6
          (stop_clients-shrinks e.clients kept e.stops w5 clients g.stops)
      ∙ bind-goes_on (stop_process e.stops logger_pid) _ w6 tt w7
          (stop_process-shrinks e.stops logger_pid w6 g.logger_pid.2 (g.stops logger_pid))
      ∙ holding (fd, queue) w7 _ _ _ _ (λ y. omega arith) (λ y. omega arith)

closed :
    (y : ℕ) (left : List ℕ) (queue socket log : ℕ)
    → remove socket
        (remove log
          (remove queue (λ z. count z left + (one queue z + (one socket z + add log (λ _. 0) z)))))
        y
      ≡ count y left
closed y left queue socket log = omega arith

unlinked :
    (n : QueueName)
    → set_linked logger false
        (set_linked available false
          (set_linked available true (set_linked logger true (λ _. false))))
        n
      ≡ false
unlinked logger = refl
unlinked available = refl

-- When every call of the run works, the loop comes to an end, and every process stops when it is told
-- to: the program exits with 0; no process runs on, no queue keeps its name, and no descriptor is open
-- but those of the connections that the loop has left open.
pub launch-ends :
    (e : World) (kept : Kept) (s : Server.Server)
    → Works e s
    → AllForked e.clients kept
    → launch e nothing ≡ exits 0 (record nothing { descriptors = λ fd. count fd s.descriptors })
unfolding launch after_run create_server configured configure_ssl destroy close_queue
launch-ends e kept s g clients =
    let log = g.message_queue.0 in
    let w1 = record nothing {
      descriptors = add log nothing.descriptors;
      linked = set_linked logger true nothing.linked;
    } in
    let w2 = record w1 { tls = true } in
    let w3 = after_run e kept s g clients w2 in
    bind-goes_on (create_server e.message_queue) _ nothing log w1
      (open_queue-works logger e.message_queue log nothing g.message_queue.1)
    ∙ bind-goes_on (configure_ssl e.context_works e.certificate_works e.private_key_works) _ w1 tt
        w2 (rw (g.context, g.certificate, g.private_key) refl)
    ∙ bind-goes_on (run_server e) _ w2 (g.socket.0, g.available_queue.0) w3
        (run_server-ends e kept s g clients w2)
    ∙ λ i. exits 0 (record nothing {
      descriptors = λ y. closed y s.descriptors g.available_queue.0 g.socket.0 log i;
      linked = λ n. unlinked n i;
    })
