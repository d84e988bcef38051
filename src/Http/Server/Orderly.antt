-- ===== src/Http/Server/Orderly.antt =====
-- A client process has one connection at a time.
pub mod Turns
pub mod Processes
use ivos.Base.{ℕ, ◌+◌, ◌≤◌, ◌≡◌, ◌≢◌, List, length}
use ivos.Http.Client.{Client}
use ivos.Http.Server.{Process, waiting, gone, Server, element}
use ivos.Http.Server.Queue.{count, IsKnown}

abbrev pub busy : Process → ℕ
busy waiting = 0
busy p = 1

-- What process `i` has to do: how often it is offered in the queue, what is sent to it, what it does.
abbrev pub load : Server → (i : ℕ) → ℕ
load s i =
    count (element i s.client_processes) s.available_clients
    + length (s.socket_pairs i)
    + busy (s.processes i)

abbrev pub Distinct : List ℕ → Type 0
Distinct ps = (i j : ℕ) → element i ps ≢ 0 → element i ps ≡ element j ps → i ≡ j

pub record Orderly (s : Server) : Type 0 where
  pub distinct : Distinct s.client_processes
  pub started : (i : ℕ) → element i s.client_processes ≡ 0 → s.processes i ≡ gone
  pub known : IsKnown s.client_processes s.available_clients
  pub once : (i : ℕ) → load s i ≤ 1

-- Only the other fields differ.
pub unchanged-Orderly :
    (s : Server) (descriptors : List ℕ) (refused : List Client)
    → Orderly s
    → Orderly (record s { descriptors = descriptors; refused = refused })
unchanged-Orderly s descriptors refused o = record {
  distinct = o.distinct;
  started = o.started;
  known = o.known;
  once = o.once;
}
