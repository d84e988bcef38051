-- ===== src/Http/Life/Working.antt =====
-- Steps that work.
use ivos.Base.{
  ℕ, ◌+◌, ◌-◌, ◌==◌, ◌≡◌, ◌≢◌, refl, ◌∙◌, Bool, true, false, List, [], ◌∷◌, Option, some, arith,
}
use ivos.Http.System.{
  QueueName, set_linked, Held, one, add, remove, System, goes_on, open_queue, bind-goes_on,
}
use ivos.Http.Life.{
  Forking, Kept, start_logger, start_client, fork_client, start_clients, stop_process, stop_clients,
}

-- Every socketpair gives a pair, and every fork a process.
abbrev pub AllForked : List Forking → Kept → Type 0
AllForked [] [] = Unit {0}
AllForked [] (k ∷ kept) = ⊥
AllForked (x ∷ xs) [] = ⊥
AllForked (x ∷ xs) ((pid, mine) ∷ kept) =
    ((other : ℕ) × (x.pair ≡ some (mine, other)))
    × (x.forks ≡ some pid)
    × (pid ≢ 0)
    × AllForked xs kept

abbrev pub pids : Kept → Held
pids [] y = 0
pids ((pid, mine) ∷ kept) y = one pid y + pids kept y

abbrev pub ends : Kept → Held
ends [] y = 0
ends ((pid, mine) ∷ kept) y = one mine y + ends kept y

abbrev pub grown : Kept → System → System
grown kept w = record w {
  running = λ y. pids kept y + w.running y;
  descriptors = λ y. ends kept y + w.descriptors y;
}

abbrev pub shrunk : Kept → System → System
shrunk kept w = record w {
  running = λ y. w.running y - pids kept y;
  descriptors = λ y. w.descriptors y - ends kept y;
}

≢→== : (a b : ℕ) → a ≢ b → (a == b) ≡ false
≢→== a b ne = ground arith

-- Systems that hold the same.
pub holding {ℓ} :
    {A : Type ℓ} (a : A) (w : System) (r r' d d' : Held)
    → ((y : ℕ) → r y ≡ r' y)
    → ((y : ℕ) → d y ≡ d' y)
    → goes_on a (record w { running = r; descriptors = d })
      ≡ goes_on a (record w { running = r'; descriptors = d' })
holding a w r r' d d' p q =
    λ i. goes_on a (record w { running = λ y. p y i; descriptors = λ y. q y i })

start_client-grows :
    (x : Forking) (pid mine other : ℕ) (w : System)
    → x.pair ≡ some (mine, other)
    → x.forks ≡ some pid
    → start_client x w ≡ goes_on (pid, mine) (grown ((pid, mine) ∷ []) w)
unfolding start_client fork_client
start_client-grows x pid mine other w p q =
    rw (p, q) (holding (pid, mine) w _ _ _ _ (λ y. omega arith) (λ y. omega arith))

pub start_clients-grows :
    (xs : List Forking) (kept : Kept) (w : System)
    → AllForked xs kept
    → start_clients xs w ≡ goes_on kept (grown kept w)
unfolding start_clients
start_clients-grows [] [] w all = holding [] w _ _ _ _ (λ y. omega arith) (λ y. omega arith)
start_clients-grows [] (k ∷ kept) w all = absurd all
start_clients-grows (x ∷ xs) [] w all = absurd all
start_clients-grows (x ∷ xs) ((pid, mine) ∷ kept) w ((other, p), q, positive, all) =
    let w1 = grown ((pid, mine) ∷ []) w in
    bind-goes_on (start_client x) _ w (pid, mine) w1 (start_client-grows x pid mine other w p q)
    ∙ bind-goes_on (start_clients xs) _ w1 kept (grown kept w1) (start_clients-grows xs kept w1 all)
    ∙ holding ((pid, mine) ∷ kept) w _ _ _ _ (λ y. omega arith) (λ y. omega arith)

pub stop_process-shrinks :
    (stops : ℕ → Bool) (pid : ℕ) (w : System)
    → pid ≢ 0
    → stops pid ≡ true
    → stop_process stops pid w ≡ goes_on tt (record w { running = remove pid w.running })
unfolding stop_process
stop_process-shrinks stops pid w positive s = rw (≢→== pid 0 positive, s) refl

pub stop_clients-shrinks :
    (xs : List Forking) (kept : Kept) (stops : ℕ → Bool) (w : System)
    → AllForked xs kept
    → ((pid : ℕ) → stops pid ≡ true)
    → stop_clients stops kept w ≡ goes_on tt (shrunk kept w)
unfolding stop_clients
stop_clients-shrinks [] [] stops w all s =
    holding tt w _ _ _ _ (λ y. omega arith) (λ y. omega arith)
stop_clients-shrinks [] (k ∷ kept) stops w all s = absurd all
stop_clients-shrinks (x ∷ xs) [] stops w all s = absurd all
stop_clients-shrinks (x ∷ xs) ((pid, mine) ∷ kept) stops w ((other, p), q, positive, all) s =
    let w1 = record w { descriptors = remove mine w.descriptors } in
    let w2 = record w1 { running = remove pid w.running } in
    bind-goes_on (stop_process stops pid) _ w1 tt w2
      (stop_process-shrinks stops pid w1 positive (s pid))
    ∙ stop_clients-shrinks xs kept stops w2 all s
    ∙ holding tt w _ _ _ _ (λ y. omega arith) (λ y. omega arith)

pub start_logger-works :
    (forks : Option ℕ) (pid : ℕ) (w : System)
    → forks ≡ some pid
    → start_logger forks w ≡ goes_on pid (record w { running = add pid w.running })
unfolding start_logger
start_logger-works forks pid w e = rw e refl

pub open_queue-works :
    (name : QueueName) (result : Option ℕ) (fd : ℕ) (w : System)
    → result ≡ some fd
    → open_queue name result w
      ≡ goes_on fd
          (record w { descriptors = add fd w.descriptors; linked = set_linked name true w.linked })
unfolding open_queue
open_queue-works name result fd w e = rw e refl
