-- ===== src/Http/Life/Refined.antt =====
-- The start of the client processes in detail, against the start that the model of the loop has.
use ivos.Base.{
  ℕ, ◌≡◌, ◌⊎◌, inl, inr, refl, ap, ◌∙◌, true, false, List, [], ◌∷◌, Option, none, some, map,
  if◌then◌else◌, ◌++◌, ◌==◌,
}
use ivos.Http.System.{System, goes_on, exits, bind-goes_on, bind-exits}
use ivos.Http.Server
use ivos.Http.Server.{
  gone, waiting, element, first_available, Start, no_pair, pid_of, pids_of, all_pairs,
  start_client_processes,
}
use ivos.Http.Life.{Forking, Kept, as_start, fork_client, start_client, start_clients}

-- The numbers of the processes.
abbrev pub numbers : Kept → List ℕ
numbers kept = map (λ k. k.0) kept

-- One process: it is started or fork fails, or the program exits for want of a pair.
abbrev Case : Forking → System → Type 0
Case x w =
    ((k : ℕ × ℕ) × (w' : System) × (start_client x w ≡ goes_on k w')
      × ((starts : List Start) → all_pairs (as_start x ∷ starts) ≡ all_pairs starts)
      × (pid_of (as_start x) ≡ k.0))
    ⊎ ((w' : System) × (start_client x w ≡ exits 1 w') × (as_start x ≡ no_pair))

client-cases :
    (pair : Option (ℕ × ℕ)) (forks : Option ℕ) (w : System)
    → Case (record { pair = pair; forks = forks }) w
unfolding start_client fork_client
client-cases none forks w = inr (w, refl, refl)
client-cases (some (mine, other)) none w = inl ((0, mine), _, refl, λ starts. refl, refl)
client-cases (some (mine, other)) (some pid) w = inl ((pid, mine), _, refl, λ starts. refl, refl)

-- All of them.
abbrev Cases : List Forking → System → Type 0
Cases xs w =
    ((kept : Kept) × (w' : System) × (start_clients xs w ≡ goes_on kept w')
      × (all_pairs (map as_start xs) ≡ true)
      × (pids_of (map as_start xs) ≡ numbers kept))
    ⊎ ((w' : System) × (start_clients xs w ≡ exits 1 w') × (all_pairs (map as_start xs) ≡ false))

clients-Cases : (xs : List Forking) (w : System) → Cases xs w
unfolding start_clients
clients-Cases [] w = inl ([], w, refl, refl, refl)
clients-Cases (x ∷ xs) w = elim (client-cases x.pair x.forks w) [
  | inr (w', ends, no_such) ↦ inr (
    w',
    bind-exits (start_client x) _ w 1 w' ends,
    ap (λ t. all_pairs (t ∷ map as_start xs)) no_such,
  )
  | inl (k, w1, goes, pairs, pid) ↦ elim (clients-Cases xs w1) [
    | inl (kept, w2, goes', all, pids) ↦ inl (
      k ∷ kept,
      w2,
      bind-goes_on (start_client x) _ w k w1 goes
          ∙ bind-goes_on (start_clients xs) _ w1 kept w2 goes',
      pairs (map as_start xs) ∙ all,
      rw (pid, pids) refl,
    )
    | inr (w2, ends, not_all) ↦ inr (
      w2,
      bind-goes_on (start_client x) _ w k w1 goes ∙ bind-exits (start_clients xs) _ w1 1 w2 ends,
      pairs (map as_start xs) ∙ not_all,
    )
  ]
]

abbrev pool : (left : List ℕ) → List Start → Server.Server
pool left starts = record {
  client_processes = pids_of starts;
  socket_pairs = λ i. [];
  available_clients = left ++ first_available starts;
  processes = λ i. if element i (pids_of starts) == 0 then gone else waiting;
  descriptors = [];
  refused = [];
}

-- The calls of socketpair and fork, one after the other, do what the model of the pool says of them:
-- either all pairs are there, the start goes on, and the pool has the numbers that fork gave, with 0
-- where it failed; or one pair is missing, and both exit.
start_clients-refines :
    (left : List ℕ) (xs : List Forking) (w : System)
    → ((kept : Kept) × (w' : System) × (s : Server.Server) × (start_clients xs w ≡ goes_on kept w')
        × (start_client_processes left (map as_start xs) ≡ some s)
        × (s.client_processes ≡ numbers kept))
      ⊎ ((w' : System) × (start_clients xs w ≡ exits 1 w')
          × (start_client_processes left (map as_start xs) ≡ none))
unfolding start_client_processes
start_clients-refines left xs w = elim (clients-Cases xs w) [
  | inl (kept, w', goes, all, pids) ↦
      inl (kept, w', pool left (map as_start xs), goes, rw all refl, pids)
  | inr (w', ends, not_all) ↦ inr (w', ends, rw not_all refl)
]
