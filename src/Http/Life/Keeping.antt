-- ===== src/Http/Life/Keeping.antt =====
-- Steps that take nothing away.
use ivos.Base.{
  ℕ, ◌≤◌, ◌≡◌, refl, Bool, true, false, List, [], ◌∷◌, Option, none, some, Outcome, done, fault,
  runs_on, arith, map, maybe,
}
use ivos.Http.System.{
  QueueName, logger, available, set_linked, System, Result, goes_on, exits, killed, crashes, waits,
  Action, then_on, ◌>>=◌, pure, check, check_number, opened, open_queue,
}
use ivos.Http.Server
use ivos.Http.Server.{Event}
use ivos.Http.Life.{
  with_pair, Calls, Forking, as_start, after_loop, set_up_socket, start_client, fork_client,
  start_clients, serve_connections,
}

-- All that runs still runs, and all names of queues are there still.
pub record Keeps (v w : System) : Type 0 where
  pub running : (y : ℕ) → v.running y ≤ w.running y
  pub linked : (n : QueueName) → v.linked n ≡ true → w.linked n ≡ true

pub Keeps-refl : (w : System) → Keeps w w
Keeps-refl w = record { running = λ y. omega arith; linked = λ n h. h }

pub Keeps-trans : {u v w : System} → Keeps u v → Keeps v w → Keeps u w
Keeps-trans p q = record {
  running = λ y. omega (arith, p.running y, q.running y);
  linked = λ n h. q.linked n (p.linked n h);
}

-- A step keeps all that there is, and exits with 1 if it does.
abbrev pub KeptBy {ℓ} : {A : Type ℓ} → System → Result A → Type 0
KeptBy v (goes_on a w) = Keeps v w
KeptBy v (exits code w) = (code ≡ 1) × Keeps v w
KeptBy v (killed w) = Keeps v w
KeptBy v crashes = Unit {0}
KeptBy v waits = Unit {0}

KeptBy-trans {ℓ} : {A : Type ℓ} (u v : System) (r : Result A) → Keeps u v → KeptBy v r → KeptBy u r
KeptBy-trans u v (goes_on a w) p q = Keeps-trans p q
KeptBy-trans u v (exits code w) p (c, q) = (c, Keeps-trans p q)
KeptBy-trans u v (killed w) p q = Keeps-trans p q
KeptBy-trans u v crashes p q = tt
KeptBy-trans u v waits p q = tt

follows {ℓ κ} :
    {A : Type ℓ} {B : Type κ} (r : Result A) (f : A → Action B) (v : System)
    → KeptBy v r
    → ((a : A) (w : System) → KeptBy w (f a w))
    → KeptBy v (then_on r f)
follows (goes_on a w) f v p q = KeptBy-trans v w (f a w) p (q a w)
follows (exits code w) f v p q = p
follows (killed w) f v p q = p
follows crashes f v p q = p
follows waits f v p q = p

bind-keeps {ℓ κ} :
    {A : Type ℓ} {B : Type κ} (m : Action A) (f : A → Action B)
    → ((w : System) → KeptBy w (m w))
    → ((a : A) (w : System) → KeptBy w (f a w))
    → (w : System) → KeptBy w ((m >>= f) w)
bind-keeps m f p q w = follows (m w) f w (p w) q

-- Each of the steps.
pub check-keeps : (b : Bool) (w : System) → KeptBy w (check b w)
check-keeps true w = Keeps-refl w
check-keeps false w = (refl, Keeps-refl w)

check_number-keeps : (o : Option ℕ) (w : System) → KeptBy w (check_number o w)
check_number-keeps none w = (refl, Keeps-refl w)
check_number-keeps (some n) w = Keeps-refl w

set_linked-keeps :
    (name n : QueueName) (linked : QueueName → Bool)
    → linked n ≡ true
    → set_linked name true linked n ≡ true
set_linked-keeps logger logger linked h = refl
set_linked-keeps logger available linked h = h
set_linked-keeps available logger linked h = h
set_linked-keeps available available linked h = refl

pub open_queue-keeps :
    (name : QueueName) (o : Option ℕ) (w : System) → KeptBy w (open_queue name o w)
unfolding open_queue
open_queue-keeps name none w = (refl, Keeps-refl w)
open_queue-keeps name (some fd) w = record {
  running = λ y. omega arith;
  linked = λ n h. set_linked-keeps name n w.linked h;
}

pub set_up_socket-keeps : (calls : Calls) (w : System) → KeptBy w (set_up_socket calls w)
unfolding set_up_socket
set_up_socket-keeps calls =
    bind-keeps (check_number calls.socket) _ (check_number-keeps calls.socket) λ fd.
      bind-keeps (opened fd) _ (λ w. record { running = λ y. omega arith; linked = λ n h. h })
        λ _. bind-keeps (check calls.reuse_works) _ (check-keeps calls.reuse_works) λ _.
          bind-keeps (check calls.both_versions_work) _ (check-keeps calls.both_versions_work) λ _.
            bind-keeps (check calls.bind_works) _ (check-keeps calls.bind_works) λ _.
              bind-keeps (check calls.listen_works) (λ _. pure fd) (check-keeps calls.listen_works)
                λ _ w. Keeps-refl w

fork_client-keeps :
    (mine other : ℕ) (forks : Option ℕ) (w : System) → KeptBy w (fork_client (mine, other) forks w)
unfolding fork_client
fork_client-keeps mine other none w = Keeps-refl w
fork_client-keeps mine other (some pid) w = record { running = λ y. omega arith; linked = λ n h. h }

with_pair-keeps :
    (pair : Option (ℕ × ℕ)) (forks : Option ℕ) (w : System) → KeptBy w (with_pair pair forks w)
with_pair-keeps none forks w = (refl, Keeps-refl w)
with_pair-keeps (some (mine, other)) forks w =
    bind-keeps (opened mine) _ (λ v. record { running = λ y. omega arith; linked = λ n h. h })
      (λ _.
        bind-keeps (opened other) _ (λ v. record { running = λ y. omega arith; linked = λ n h. h })
          (λ _. fork_client-keeps mine other forks))
      w

pub start_clients-keeps : (xs : List Forking) (w : System) → KeptBy w (start_clients xs w)
unfolding start_clients start_client
start_clients-keeps [] w = Keeps-refl w
start_clients-keeps (x ∷ xs) w =
    bind-keeps (start_client x) _ (with_pair-keeps x.pair x.forks)
      (λ kept.
        bind-keeps (start_clients xs) (λ rest. pure (kept ∷ rest)) (start_clients-keeps xs)
          (λ rest v. Keeps-refl v))
      w

after_loop-keeps : (o : Outcome Server.Server) (w : System) → KeptBy w (after_loop o w)
after_loop-keeps (done s) w = record { running = λ y. omega arith; linked = λ n h. h }
after_loop-keeps fault w = tt
after_loop-keeps runs_on w = tt

loop-keeps :
    (o : Option Server.Server) (es : List Event) (w : System)
    → KeptBy w (maybe o (exits 1 w) (λ s. after_loop (Server.run es s) w))
loop-keeps none es w = (refl, Keeps-refl w)
loop-keeps (some s) es w = after_loop-keeps (Server.run es s) w

pub serve_connections-keeps :
    (left : List ℕ) (xs : List Forking) (es : List Event) (w : System)
    → KeptBy w (serve_connections left xs es w)
unfolding serve_connections
serve_connections-keeps left xs es w =
    loop-keeps (Server.start_client_processes left (map as_start xs)) es w
