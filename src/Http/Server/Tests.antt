-- ===== src/Http/Server/Tests.antt =====
-- Two client processes, of which the second could not be started at first.
use ivos.Base.{
  ℕ, ◌==◌, ◌≤◌, ◌≡◌, true, false, refl, arith, List, [], ◌∷◌, some, none, done, fault, length,
  Ensures, codes, same, if◌then◌else◌,
}
use ivos.Http.Response.{Files}
use ivos.Http.Client.{Client}
use ivos.Http.Server.{
  Server, Start, forked, no_process, Turn, turns, receives, waiting, start_client_processes, turn,
  step, run, signalled, element, gone,
}
use ivos.Http.Server.Orderly.{Orderly}
use ivos.Http.Server.Starting.{Reached, Reached-Orderly, Reached-length}
use ivos.Http.Server.Dispatch.{IsIdle, after_send, turn-first, IsRefused, turn-IsRefused}
use ivos.Http.Server.Lost.{IsForgotten}
use ivos.Http.Server.Lost.Runs.{lost-IsForgotten}

abbrev starts : List Start
starts = forked 70 ∷ no_process ∷ forked 71 ∷ []

abbrev begun : Server
begun = record {
  client_processes = 70 ∷ 0 ∷ 71 ∷ [];
  socket_pairs = λ i. [];
  available_clients = 70 ∷ 71 ∷ [];
  processes = λ i. if element i (70 ∷ 0 ∷ 71 ∷ []) == 0 then gone else waiting;
  descriptors = [];
  refused = [];
}

abbrev files : Files
files name = if same name (codes "www/service_unavailable.html") then some (codes "busy") else none

abbrev accepts : Turn
accepts = record {
  accepted = some 9;
  receive_fails = false;
  send_fails = false;
  tls = true;
  files = files;
}

abbrev refuses : Turn
refuses = record {
  accepted = some 9;
  receive_fails = true;
  send_fails = false;
  tls = true;
  files = files;
}

abbrev sent : Server
sent = after_send false 9 70 0 (71 ∷ []) begun

begun_lem : start_client_processes [] starts ≡ some begun
unfolding start_client_processes
begun_lem = refl

sent_lem : run (turns accepts ∷ []) begun ≡ done sent
unfolding run
sent_lem = refl

Reached-begun : Reached starts [] begun
unfolding run
Reached-begun = record { begin = begun; fresh = ground arith; begins = begun_lem; runs = refl }

Reached-sent : Reached starts (turns accepts ∷ []) sent
Reached-sent = record { begin = begun; fresh = ground arith; begins = begun_lem; runs = sent_lem }

-- The second process starts with the number 0, which stands for the whole group when it is signalled.
signalled_group : signalled 50 begun ≡ 70 ∷ 0 ∷ 71 ∷ 50 ∷ []
signalled_group = refl

-- A number left in the queue by an earlier run is of no process.
stale : (s : Server) × (start_client_processes (5 ∷ []) starts ≡ some s) × (turn accepts s ≡ fault)
unfolding start_client_processes turn
stale = (record begun { available_clients = 5 ∷ 70 ∷ 71 ∷ [] }, refl, refl)

Reached-Orderly_example : Orderly sent
Reached-Orderly_example = Reached-Orderly starts (turns accepts ∷ []) sent Reached-sent

Reached-length_example : length sent.available_clients ≤ 3
Reached-length_example = Reached-length starts (turns accepts ∷ []) sent Reached-sent

turn-first_example :
    (i : ℕ) × IsIdle begun 70 i
    × (turn accepts begun ≡ done (after_send false 9 70 i (71 ∷ []) begun))
turn-first_example = turn-first starts [] begun accepts 9 70 (71 ∷ []) Reached-begun refl refl refl

turn-IsRefused_example :
    (c : Client) × IsRefused true (codes "busy") c
    × (turn refuses begun ≡ done (record begun { refused = c ∷ [] }))
turn-IsRefused_example = turn-IsRefused begun refuses 9 (codes "busy") refl refl refl

lost-IsForgotten_example :
    (s' : Server) × (step (receives false 0) sent ≡ done s')
    × Ensures (IsForgotten 0) (run (turns accepts ∷ []) s')
lost-IsForgotten_example =
    lost-IsForgotten starts (turns accepts ∷ []) sent 0 9 [] (turns accepts ∷ []) Reached-sent refl
      refl
