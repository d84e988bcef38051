-- ===== src/Semaphore/Balance.antt =====
-- Any sequence of waits and posts by any threads, and what the ideal semaphore says of it.
use ivos.Base.{
  ℕ, suc, ◌+◌, ◌<◌, ◌≤◌, ℤ, pos, ◌≡◌, ◌≢◌, refl, sym, ◌∙◌, ap, subst, Outcome, done, List, [], ◌∷◌,
  ◌++◌, none, arith, length, Bool, false, if◌then◌else◌, ltb, ne→==, eq→==, ℕ_discrete,
}
use ivos.Scheduler.Time.{Timeval}
use ivos.Scheduler.Thread.{Gt, ready, blocked, is_state, Kernel, state_of}
use ivos.Queue.{Heap, Allocation, Queue, null, queue_init}
use ivos.Queue.Chain.{Cells, NotIn, IsChain, IsQueue}
use ivos.Semaphore.{Semaphore, sem_wait, sem_post}
use ivos.Semaphore.Ideal.{Ideal, first_ideal, after_wait, after_post, occurs, occurs-append}

abbrev pub waits_in : Kernel → ℕ → Bool
waits_in k j = is_state (state_of k j) blocked

-- From a semaphore of `v` units, with no thread blocked, some waits and posts have been made, each wait
-- by a current thread that is not blocked. In between anything happens that neither blocks a thread
-- nor makes a blocked one ready. `malloc` returns an address that holds no item.
pub data Trace (v : ℕ) : Ideal → Semaphore → Heap → Kernel → Type 0 where
  start :
      (h : Heap) (k : Kernel)
      → ((j : ℕ) → waits_in k j ≡ false)
      → Trace v (first_ideal v) (record { value = pos v; queue = queue_init }) h k
  waited :
      {a : Ideal} {s s' : Semaphore} {h h' : Heap} {k k' : Kernel}
      → Trace v a s h k
      → (m : Allocation) (now : Timeval) → m.address ≢ null
      → h m.address ≡ none
      → k.gt_current < 5
      → waits_in k k.gt_current ≡ false
      → sem_wait m now s h k ≡ done (s', h', k')
      → Trace v (after_wait k.gt_current a) s' h' k'
  posted :
      {a : Ideal} {s s' : Semaphore} {h h' : Heap} {k k' : Kernel}
      → Trace v a s h k
      → (now : Timeval) → sem_post now s h k ≡ done (s', h', k')
      → Trace v (after_post a) s' h' k'
  passed :
      {a : Ideal} {s : Semaphore} {h : Heap} {k : Kernel}
      → Trace v a s h k
      → (k' : Kernel) → ((j : ℕ) → waits_in k' j ≡ waits_in k j)
      → Trace v a s h k'

-- The items hold these threads, which are in the table.
abbrev pub Hold : Cells → List ℕ → Type 0
Hold [] [] = Unit {0}
Hold [] (i ∷ is) = ⊥
Hold (x ∷ xs) [] = ⊥
Hold ((a, z) ∷ xs) (i ∷ is) = ((z ≡ pos i) × (i < 5)) × Hold xs is

-- The value is the units, the queue holds just the threads that wait, in their order, each once, and
-- these are the ones that are blocked. No thread waits while a unit is left, and the units that are
-- left, the waits, the posts and the waiting threads add up.
pub record Implements (v : ℕ) (a : Ideal) (s : Semaphore) (h : Heap) (k : Kernel) : Type 0 where
  pub value : s.value ≡ pos a.units
  pub cells : Cells
  pub queued : IsQueue h s.queue cells
  pub held : Hold cells a.waiting
  pub are_blocked : (j : ℕ) → occurs j a.waiting ≡ (if waits_in k j then 1 else 0)
  pub idle : 0 < a.units → a.waiting ≡ []
  pub balance : a.units + a.waits ≡ v + a.posts + length a.waiting

-- A call of either operation returns; sem_wait by a thread that is not blocked.
pub record Returns (s : Semaphore) (h : Heap) (k : Kernel) : Type 0 where
  pub wait_returns :
      (m : Allocation) (now : Timeval)
      → m.address ≢ null
      → h m.address ≡ none
      → (s' : Semaphore) × (h' : Heap) × (k' : Kernel) × (sem_wait m now s h k ≡ done (s', h', k'))
  pub post_returns :
      (now : Timeval)
      → (s' : Semaphore) × (h' : Heap) × (k' : Kernel) × (sem_post now s h k ≡ done (s', h', k'))

NotIn-of_unused :
    (h : Heap) (a p : ℕ) (z : ℤ) (xs : Cells) (l : ℕ)
    → h a ≡ none
    → IsChain h p z xs l
    → NotIn a ((p, z) ∷ xs)
NotIn-of_unused h a p z [] l e c = ((λ x. ground (arith, ap h x, c.1)), tt)
NotIn-of_unused h a p z ((p', z') ∷ xs) l e c =
    ((λ x. ground (arith, ap h x, c.1)), NotIn-of_unused h a p' z' xs l e c.3)

pub NotIn-queue :
    (h : Heap) (a : ℕ) (q : Queue) (xs : Cells) → h a ≡ none → IsQueue h q xs → NotIn a xs
NotIn-queue h a q [] e is = tt
NotIn-queue h a q ((p, z) ∷ xs) e (f, c) = NotIn-of_unused h a p z xs q.tail e c

pub length-snoc : (xs : List ℕ) (i : ℕ) → length (xs ++ (i ∷ [])) ≡ suc (length xs)
length-snoc [] i = refl
length-snoc (x ∷ xs) i = ap suc (length-snoc xs i)

pub Hold-snoc :
    (xs : Cells) (is : List ℕ) (a i : ℕ)
    → Hold xs is
    → i < 5
    → Hold (xs ++ ((a, pos i) ∷ [])) (is ++ (i ∷ []))
Hold-snoc [] [] a i h l = ((refl, l), tt)
Hold-snoc [] (j ∷ js) a i h l = absurd h
Hold-snoc (x ∷ xs) [] a i h l = absurd h
Hold-snoc ((b, z) ∷ xs) (j ∷ js) a i (here, h) l = (here, Hold-snoc xs js a i h l)

done-eq :
    {x y : Semaphore × Heap × Kernel}
    → ◌≡◌ {A = Outcome (Semaphore × Heap × Kernel)} (done x) (done y)
    → x ≡ y
done-eq e = cc

-- What the run of a call says of its result.
pub of_run :
    {v : ℕ} {a : Ideal} {s s' : Semaphore} {h h' : Heap} {k k' : Kernel}
    → ◌≡◌ {A = Outcome (Semaphore × Heap × Kernel)} (done (s, h, k)) (done (s', h', k'))
    → Implements v a s h k
    → Implements v a s' h' k'
of_run {v} {a} e b = subst (λ x. Implements v a x.0 x.1 x.2) (done-eq e) b

pub no_unit : (n : ℕ) → ¬ (0 < n) → ltb 0 n ≡ false
no_unit n none_left = ground arith

-- The threads of a list are the blocked ones, and each stands there once.
abbrev pub AreBlocked : List ℕ → Kernel → Type 0
AreBlocked is k = (j : ℕ) → occurs j is ≡ (if waits_in k j then 1 else 0)

waits_in-apart :
    (k k' : Kernel) (j : ℕ) → k'.gt_table j ≡ k.gt_table j → waits_in k' j ≡ waits_in k j
waits_in-apart k k' j e = ap (λ (t : Gt). is_state t.state blocked) e

occurs_self : (i : ℕ) (is : List ℕ) → occurs i (i ∷ is) ≡ suc (occurs i is)
occurs_self i is = rw (eq→== i i refl) (omega arith)

occurs-ne : (i j : ℕ) (is : List ℕ) → j ≢ i → occurs j (i ∷ is) ≡ occurs j is
occurs-ne i j is ne = rw (ne→== i j (λ e. ne (sym e))) (omega arith)

pub AreBlocked-wait :
    (i : ℕ) (is : List ℕ) (k k' : Kernel)
    → AreBlocked is k
    → waits_in k i ≡ false
    → state_of k' i ≡ blocked
    → ((j : ℕ) → j ≢ i → k'.gt_table j ≡ k.gt_table j)
    → AreBlocked (is ++ (i ∷ [])) k'
AreBlocked-wait i is k k' all awake shut others j =
    occurs-append j is (i ∷ []) ∙ elim (ℕ_discrete j i) [
      | yes e ↦
          subst (λ j. occurs j is + occurs j (i ∷ []) ≡ (if waits_in k' j then 1 else 0)) (sym e)
            (rw shut (
              omega (arith, occurs_self i [], all i ∙ ap (λ (b : Bool). if b then 1 else 0) awake)))
      | no ne ↦ rw (waits_in-apart k k' j (others j ne)) (omega (arith, all j, occurs-ne i j [] ne))
    ]

pub AreBlocked-post :
    (i : ℕ) (is : List ℕ) (k k' : Kernel)
    → AreBlocked (i ∷ is) k
    → state_of k' i ≡ ready
    → ((j : ℕ) → j ≢ i → k'.gt_table j ≡ k.gt_table j)
    → AreBlocked is k'
AreBlocked-post i is k k' all awake others j = elim (ℕ_discrete j i) [
  | yes e ↦
      subst (λ j. occurs j is ≡ (if waits_in k' j then 1 else 0)) (sym e)
        (rw awake (omega (arith, occurs_self i is, all i, bit (waits_in k i))))
  | no ne ↦ rw (waits_in-apart k k' j (others j ne)) (sym (occurs-ne i j is ne) ∙ all j)
]
  where
    bit : (b : Bool) → (if b then 1 else 0) ≤ 1
    bit b = ground arith
