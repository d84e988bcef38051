-- ===== src/Http/Server/Lost.antt =====
-- A client process whose message did not bring a descriptor.
pub mod Turns
pub mod Runs
use ivos.Base.{ℕ, ◌≡◌, [], List}
use ivos.Http.Server.{Server, waiting, element}
use ivos.Http.Server.Queue.{count}

-- The process waits, is not in the queue, and nothing is under way to it.
pub record IsForgotten (i : ℕ) (s : Server) : Type 0 where
  pub waits : s.processes i ≡ waiting
  pub unsent : s.socket_pairs i ≡ []
  pub unlisted : count (element i s.client_processes) s.available_clients ≡ 0
