-- ===== src/Semaphore.antt =====
-- The counting semaphore of scheduler/g_semaphore.c.
mod Tests
pub mod Branches
pub mod Balance
pub mod Ideal
pub mod Refined
use ivos.Base.{
  ℕ, ℤ, pos, negsuc, ◌+ℤ◌, ◌-ℤ◌, ltb_ℤ, ltb, Bool, true, Option, none, some, List, [], ◌∷◌, Outcome,
  done, fault, runs_on, ◌>>=◌, if◌then◌else◌,
}
use ivos.Scheduler.Time.{Timeval}
use ivos.Scheduler.Thread.{ready, blocked, max_g_threads, Mask, Kernel}
use ivos.Scheduler.Account.{update_thread_state}
use ivos.Queue.{Heap, Allocation, Queue, queue_init, queue_is_empty, queue_push, queue_pop}

-- `struct semaphore_t`; the queue that its pointer leads to is used by nothing else.
pub record Semaphore : Type 0 where
  pub value : ℤ
  pub queue : Queue

-- `none` is the exit of the program when `malloc` fails.
unfoldable pub sem_init : (allocated : Bool) → ℤ → Option Semaphore
unfolding queue_init
sem_init allocated initial_value =
    if allocated then some (record { value = initial_value; queue = queue_init }) else none

-- sigprocmask(SIG_BLOCK, …) with SIGINT and SIGALRM, and sigprocmask(SIG_SETMASK, &old_mask, NULL).
abbrev pub block_signals : Kernel → Kernel
block_signals k = record k { mask = record { sigint = true; sigalrm = true } }

abbrev pub restore : Mask → Kernel → Kernel
restore old_mask k = record k { mask = old_mask }

unfoldable pub sem_wait :
    Allocation → Timeval → Semaphore → Heap → Kernel → Outcome (Semaphore × Heap × Kernel)
unfolding ◌-ℤ◌ queue_push update_thread_state
sem_wait m now s h k =
    let guarded = block_signals k in
    if ltb_ℤ (pos 0) s.value
    then done (record s { value = s.value -ℤ pos 1 }, h, restore k.mask guarded)
    else do
      (q, h') ← queue_push m s.queue (pos guarded.gt_current) h
      let k' = update_thread_state now guarded.gt_current blocked guarded
      done (record s { queue = q }, h', restore k.mask k')

-- update_thread_state(&gt_table[thread_idx], Ready); outside the table it is a fault.
unfoldable pub wake : Timeval → ℤ → Kernel → Outcome Kernel
unfolding update_thread_state
wake now (pos i) k = if ltb i max_g_threads then done (update_thread_state now i ready k) else fault
wake now (negsuc n) k = fault

unfoldable pub sem_post : Timeval → Semaphore → Heap → Kernel → Outcome (Semaphore × Heap × Kernel)
unfolding ◌+ℤ◌ queue_is_empty queue_pop wake
sem_post now s h k =
    let guarded = block_signals k in
    if queue_is_empty s.queue
    then done (record s { value = s.value +ℤ pos 1 }, h, restore k.mask guarded)
    else do
      (thread_idx, q, h') ← queue_pop s.queue h
      k' ← wake now thread_idx guarded
      done (record s { queue = q }, h', restore k.mask k')

-- The loop of `sem_destroy`, with a reading of the clock for each round; the queue that it ends
-- with is then freed as a whole.
unfoldable pub sem_destroy :
    List Timeval → Semaphore → Heap → Kernel → Outcome (Queue × Heap × Kernel)
unfolding queue_is_empty queue_pop wake
sem_destroy [] s h k = runs_on
sem_destroy (now ∷ clock) s h k =
    if queue_is_empty s.queue
    then (do
      (thread_idx, q, h') ← queue_pop s.queue h
      k' ← wake now thread_idx k
      sem_destroy clock (record s { queue = q }) h' k')
    else done (s.queue, h, k)

-- The caller is not told whether the semaphore was taken.
unfoldable pub sem_try_wait : Semaphore → Kernel → Semaphore × Kernel
unfolding ◌-ℤ◌
sem_try_wait s k =
    let guarded = block_signals k in
    (
      if ltb_ℤ (pos 0) s.value then record s { value = s.value -ℤ pos 1 } else s,
      restore k.mask guarded,
    )
