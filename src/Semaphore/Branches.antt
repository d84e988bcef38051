-- ===== src/Semaphore/Branches.antt =====
-- Each operation on each branch.
use ivos.Base.{
  ◌⊎◌, inl, inr, ℕ, ℤ, pos, ◌≡◌, ◌≢◌, ◌<◌, ◌<ℤ◌, ◌≤ℤ◌, ◌+ℤ◌, ◌-ℤ◌, false, refl, ap, List, [], ◌∷◌,
  ◌++◌, none, done, fault, arith, ◌==◌,
}
use ivos.Scheduler.Time.{Timeval}
use ivos.Scheduler.Thread.{ready, blocked, Kernel, state_of}
use ivos.Scheduler.Account.{update_thread_state}
use ivos.Scheduler.Account.Totals.{update_thread_state-frame}
use ivos.Queue.{Heap, Allocation, null, write, queue_is_empty}
use ivos.Queue.Chain.{Cells, NotIn, IsQueue, IsChain-head}
use ivos.Queue.Fifo.{queue_push-append, queue_pop-first, queue_pop-empty}
use ivos.Semaphore.{Semaphore, block_signals, restore, sem_wait, wake, sem_post, sem_destroy}

-- With a unit left, `sem_wait` takes it, and does nothing else.
pub sem_wait-takes :
    (m : Allocation) (now : Timeval) (s : Semaphore) (h : Heap) (k : Kernel)
    → pos 0 <ℤ s.value
    → sem_wait m now s h k ≡ done (record s { value = s.value -ℤ pos 1 }, h, k)
unfolding sem_wait
sem_wait-takes m now s h k some_left = ground arith

-- What `sem_wait` leaves behind when it finds no unit.
pub record Waits (m : Allocation) (s s' : Semaphore) (h' : Heap) (k k' : Kernel) (xs : Cells)
    : Type 0 where
  pub value : s'.value ≡ s.value
  pub queued : IsQueue h' s'.queue (xs ++ (m.address, pos k.gt_current) ∷ [])
  pub is_blocked : state_of k' k.gt_current ≡ blocked
  pub others : (j : ℕ) → j ≢ k.gt_current → k'.gt_table j ≡ k.gt_table j
  pub control : k' ≡ record k { gt_table = k'.gt_table }

-- Without a unit, `sem_wait` puts the current thread at the end of the queue and marks it blocked, and
-- returns: `gt_current`, the registers and all else but the table are as before, so that the caller
-- goes on.
pub sem_wait-Waits :
    (m : Allocation) (now : Timeval) (s : Semaphore) (h : Heap) (k : Kernel) (xs : Cells)
    → s.value ≤ℤ pos 0
    → m.address ≢ null
    → NotIn m.address xs
    → IsQueue h s.queue xs
    → (s' : Semaphore) × (h' : Heap) × (k' : Kernel) × (sem_wait m now s h k ≡ done (s', h', k'))
      × Waits m s s' h' k k' xs
unfolding sem_wait
sem_wait-Waits m now s h k xs none_left nz out is =
    let (q, g, runs, is', same) = queue_push-append m s.queue (pos k.gt_current) h xs nz out is in
    let guarded = block_signals k in
    let (a, b, c) = update_thread_state-frame now k.gt_current blocked guarded in
    (
      record s { queue = q },
      g,
      restore k.mask (update_thread_state now k.gt_current blocked guarded),
      ground (arith, runs),
      record {
        value = refl;
        queued = is';
        is_blocked = a;
        others = b;
        control = ap (restore k.mask) c;
      },
    )

-- If no thread waits, `sem_post` adds a unit, and does nothing else.
pub sem_post-adds :
    (now : Timeval) (s : Semaphore) (h : Heap) (k : Kernel)
    → IsQueue h s.queue []
    → sem_post now s h k ≡ done (record s { value = s.value +ℤ pos 1 }, h, k)
unfolding sem_post queue_is_empty
sem_post-adds now s h k is = ground arith

-- What `sem_post` leaves behind when the thread `i` has waited longest.
pub record Wakes (i : ℕ) (s s' : Semaphore) (h' : Heap) (k k' : Kernel) (xs : Cells) : Type 0 where
  pub value : s'.value ≡ s.value
  pub queued : IsQueue h' s'.queue xs
  pub is_ready : state_of k' i ≡ ready
  pub others : (j : ℕ) → j ≢ i → k'.gt_table j ≡ k.gt_table j
  pub control : k' ≡ record k { gt_table = k'.gt_table }

-- If threads wait, `sem_post` makes the one that has waited longest ready and takes it off the queue;
-- the value, the other threads and all else but the table stay.
pub sem_post-Wakes :
    (now : Timeval) (s : Semaphore) (h : Heap) (k : Kernel) (p i : ℕ) (xs : Cells)
    → i < 5
    → IsQueue h s.queue ((p, pos i) ∷ xs)
    → (s' : Semaphore) × (h' : Heap) × (k' : Kernel) × (sem_post now s h k ≡ done (s', h', k'))
      × Wakes i s s' h' k k' xs
unfolding sem_post wake queue_is_empty
sem_post-Wakes now s h k p i xs l (first, chain) =
    let (q, runs, is') = queue_pop-first s.queue h p (pos i) xs (first, chain) in
    let guarded = block_signals k in
    let (a, b, c) = update_thread_state-frame now i ready guarded in
    let filled : (s.queue.head == null) ≡ false =
      ground (arith, IsChain-head h p (pos i) xs s.queue.tail chain) in
    (
      record s { queue = q },
      write h p none,
      restore k.mask (update_thread_state now i ready guarded),
      ground (arith, runs, filled),
      record {
        value = refl;
        queued = is';
        is_ready = a;
        others = b;
        control = ap (restore k.mask) c;
      },
    )

sem_destroy-empty :
    (now : Timeval) (clock : List Timeval) (s : Semaphore) (h : Heap) (k : Kernel)
    → IsQueue h s.queue []
    → sem_destroy (now ∷ clock) s h k ≡ fault
unfolding sem_destroy wake queue_is_empty
sem_destroy-empty now clock s h k is = ground (arith, queue_pop-empty s.queue h is)

sem_destroy-waiting :
    (now : Timeval) (clock : List Timeval) (s : Semaphore) (h : Heap) (k : Kernel) (p : ℕ) (v : ℤ)
    (xs : Cells)
    → IsQueue h s.queue ((p, v) ∷ xs)
    → sem_destroy (now ∷ clock) s h k ≡ done (s.queue, h, k)
unfolding sem_destroy queue_is_empty
sem_destroy-waiting now clock s h k p v xs (first, chain) =
    ground (arith, IsChain-head h p v xs s.queue.tail chain)

-- `sem_destroy` makes no thread ready. If none waits, it writes outside the table of threads, which is
-- a fault; if some wait, it returns at once, with all of them still in the queue that is then freed.
pub sem_destroy-wakes_none :
    (now : Timeval) (clock : List Timeval) (s : Semaphore) (h : Heap) (k : Kernel) (xs : Cells)
    → IsQueue h s.queue xs
    → ((xs ≡ []) × (sem_destroy (now ∷ clock) s h k ≡ fault))
      ⊎ ((xs ≢ []) × (sem_destroy (now ∷ clock) s h k ≡ done (s.queue, h, k)))
sem_destroy-wakes_none now clock s h k [] is = inl (refl, sem_destroy-empty now clock s h k is)
sem_destroy-wakes_none now clock s h k ((p, v) ∷ xs) is =
    inr ((λ e. cc), sem_destroy-waiting now clock s h k p v xs is)
