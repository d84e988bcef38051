-- ===== src/Http/Server/Starting.antt =====
-- The client processes when they have been started, and whatever happens afterwards.
use ivos.Base.{
  ℕ, zero, suc, ◌+◌, ◌≤◌, ◌==◌, ◌≡◌, ◌≢◌, refl, ap, ◌∙◌, subst, sym, eq→==, ==→eq, Bool-cases, inl,
  inr, List, [], ◌∷◌, some, done, arith, length, if◌then◌else◌, Ensures,
}
use ivos.Http.Server.{
  waiting, gone, Server, Start, no_pair, no_process, forked, pids_of, first_available,
  start_client_processes, Event, element, run,
}
use ivos.Http.Server.Queue.{count, IsKnown, length_le}
use ivos.Http.Server.Frame.{run-SameProcesses, length-pids_of}
use ivos.Http.Server.Orderly.{busy, Distinct, Orderly}
use ivos.Http.Server.Orderly.Processes.{run-Orderly}

-- fork gives a number that is not 0 and that no other process has.
abbrev pub AllFresh : List Start → Type 0
AllFresh [] = Unit {0}
AllFresh (forked pid ∷ starts) = (pid ≢ 0) × (count pid (pids_of starts) ≡ 0) × AllFresh starts
AllFresh (start ∷ starts) = AllFresh starts

IsKnown-cons : (x : ℕ) (ps queue : List ℕ) → IsKnown ps queue → IsKnown (x ∷ ps) queue
IsKnown-cons x ps [] known = tt
IsKnown-cons x ps (p ∷ queue) (positive, found, known) =
    (positive, ground arith, IsKnown-cons x ps queue known)

first_available-IsKnown :
    (starts : List Start) → AllFresh starts → IsKnown (pids_of starts) (first_available starts)
first_available-IsKnown [] fresh = tt
first_available-IsKnown (no_pair ∷ starts) fresh =
    IsKnown-cons 0 (pids_of starts) (first_available starts) (first_available-IsKnown starts fresh)
first_available-IsKnown (no_process ∷ starts) fresh =
    IsKnown-cons 0 (pids_of starts) (first_available starts) (first_available-IsKnown starts fresh)
first_available-IsKnown (forked pid ∷ starts) (positive, other, fresh) = (
  positive,
  rw (eq→== pid pid refl) (omega arith),
  IsKnown-cons pid (pids_of starts) (first_available starts) (first_available-IsKnown starts fresh),
)

count-first_available :
    (p : ℕ) (starts : List Start) → count p (first_available starts) ≤ count p (pids_of starts)
count-first_available p [] = omega arith
count-first_available p (no_pair ∷ starts) = omega (arith, count-first_available p starts)
count-first_available p (no_process ∷ starts) = omega (arith, count-first_available p starts)
count-first_available p (forked pid ∷ starts) = omega (arith, count-first_available p starts)

count_zero : (starts : List Start) → AllFresh starts → count 0 (first_available starts) ≡ 0
count_zero [] fresh = refl
count_zero (no_pair ∷ starts) fresh = count_zero starts fresh
count_zero (no_process ∷ starts) fresh = count_zero starts fresh
count_zero (forked pid ∷ starts) (positive, other, fresh) =
    let rest = count_zero starts fresh in ground arith

count-pids_of :
    (p : ℕ) (starts : List Start) → p ≢ 0 → AllFresh starts → count p (pids_of starts) ≤ 1
count-pids_of p [] positive fresh = omega arith
count-pids_of p (no_pair ∷ starts) positive fresh =
    let rest = count-pids_of p starts positive fresh in ground arith
count-pids_of p (no_process ∷ starts) positive fresh =
    let rest = count-pids_of p starts positive fresh in ground arith
count-pids_of p (forked pid ∷ starts) positive (h, other, fresh) =
    let rest = count-pids_of p starts positive fresh in
    elim (Bool-cases (pid == p)) [
      | inl same ↦
          let absent = subst (λ q. count q (pids_of starts) ≡ 0) (==→eq pid p same) other in
          rw same (omega arith)
      | inr differ ↦ rw differ (omega arith)
    ]

count-element : (i : ℕ) (ps : List ℕ) → element i ps ≢ 0 → 1 ≤ count (element i ps) ps
count-element i [] positive = absurd (positive refl)
count-element zero (p ∷ ps) positive = rw (eq→== p p refl) (omega arith)
count-element (suc i) (p ∷ ps) positive = omega (arith, count-element i ps positive)

count-twice : (i p : ℕ) (ps : List ℕ) → p ≢ 0 → p ≡ element i ps → 2 ≤ count p (p ∷ ps)
count-twice i p ps positive e =
    let once = subst (λ q. 1 ≤ count q ps) (sym e) (count-element i ps (λ z. positive (e ∙ z))) in
    rw (eq→== p p refl) (omega arith)

Distinct-count : (ps : List ℕ) → ((p : ℕ) → p ≢ 0 → count p ps ≤ 1) → Distinct ps
Distinct-count [] once i j positive e = absurd (positive refl)
Distinct-count (p ∷ ps) once zero zero positive e = refl
Distinct-count (p ∷ ps) once zero (suc j) positive e =
    absurd (omega (arith, count-twice j p ps positive e, once p positive))
Distinct-count (p ∷ ps) once (suc i) zero positive e = absurd (
    omega
      (arith, count-twice i p ps (λ z. positive (e ∙ z)) (sym e), once p (λ z. positive (e ∙ z))))
Distinct-count (p ∷ ps) once (suc i) (suc j) positive e =
    ap suc (Distinct-count ps (λ q h. omega (arith, once q h)) i j positive e)

started-load :
    (i : ℕ) (starts : List Start)
    → AllFresh starts
    → count (element i (pids_of starts)) (first_available starts)
        + busy (if element i (pids_of starts) == 0 then gone else waiting)
      ≤ 1
started-load i starts fresh = elim (Bool-cases (element i (pids_of starts) == 0)) [
  | inl none_such ↦
      let absent =
        subst (λ p. count p (first_available starts) ≡ 0)
          (sym (==→eq (element i (pids_of starts)) 0 none_such)) (count_zero starts fresh) in
      rw (none_such, absent) (omega arith)
  | inr positive ↦
      let pid = element i (pids_of starts) in
      let once = count-pids_of pid starts (ground arith) fresh in
      let fewer = count-first_available pid starts in rw positive (omega arith)
]

abbrev begun : List Start → Server
begun starts = record {
  client_processes = pids_of starts;
  socket_pairs = λ i. [];
  available_clients = first_available starts;
  processes = λ i. if element i (pids_of starts) == 0 then gone else waiting;
  descriptors = [];
  refused = [];
}

begun-Orderly : (starts : List Start) → AllFresh starts → Orderly (begun starts)
begun-Orderly starts fresh = record {
  distinct = Distinct-count (pids_of starts) (λ p positive. count-pids_of p starts positive fresh);
  started = λ i none_such. rw none_such refl;
  known = first_available-IsKnown starts fresh;
  once = λ i. omega (arith, started-load i starts fresh);
}

-- A state of the server after the events `es`, from processes that were started with an empty queue.
pub record Reached (starts : List Start) (es : List Event) (s : Server) : Type 0 where
  pub begin : Server
  pub fresh : AllFresh starts
  pub begins : start_client_processes [] starts ≡ some begin
  pub runs : run es begin ≡ done s

start_client_processes-begun :
    (starts : List Start) (s : Server)
    → start_client_processes [] starts ≡ some s
    → begun starts ≡ s
unfolding start_client_processes
start_client_processes-begun starts s h = ground arith

-- In every state that the server reaches, with numbers from fork that are fresh and a queue that was
-- empty: the processes that were started have different numbers; the queue holds only
-- numbers of processes; and each process is offered once in the queue, or one connection is under way
-- to it, or it has one or has ended, or none of these, but never two.
pub Reached-Orderly :
    (starts : List Start) (es : List Event) (s : Server) → Reached starts es s → Orderly s
Reached-Orderly starts es s r =
    let from =
      subst Orderly (start_client_processes-begun starts r.begin r.begins)
        (begun-Orderly starts r.fresh) in
    subst (Ensures Orderly) r.runs (run-Orderly es r.begin from)

-- In every state that the server reaches, the queue /available holds no more numbers than processes were
-- to be started, which is the size that it was opened with.
pub Reached-length :
    (starts : List Start) (es : List Event) (s : Server)
    → Reached starts es s
    → length s.available_clients ≤ length starts
Reached-length starts es s r =
    let o = Reached-Orderly starts es s r in
    let size : s.client_processes ≡ pids_of starts =
      subst (Ensures (λ s'. s'.client_processes ≡ r.begin.client_processes)) r.runs
        (run-SameProcesses es r.begin)
      ∙ ap (λ b. b.client_processes) (sym (start_client_processes-begun starts r.begin r.begins)) in
    let fits =
      length_le s.client_processes s.available_clients o.known
        λ i within. omega (arith, o.once i) in
    subst (λ n. length s.available_clients ≤ n) (length-pids_of starts)
      (subst (λ ps. length s.available_clients ≤ length ps) size fits)
