-- ===== src/Semaphore/Tests.antt =====
-- A mutex that three threads want, as in scheduler/main.c: the first takes it, the others wait, and the
-- first gives it up.
use ivos.Base.{pos, refl, arith, none, [], ◌∷◌, ◌-ℤ◌, ◌+ℤ◌, Outcome, done, fault, runs_on, ℕ}
use ivos.Scheduler.Demo.{time, three}
use ivos.Scheduler.Thread.{running, ready, by_round_robin, Kernel}
use ivos.Scheduler.Account.{update_thread_state, change_state}
use ivos.Queue.{Heap, item, Allocation, queue_init, queue_push, queue_pop, queue_is_empty}
use ivos.Semaphore.{Semaphore, sem_wait, sem_post, wake}
use ivos.Semaphore.Ideal.{Ideal}
use ivos.Semaphore.Balance.{Trace, start, waited, posted, passed, Implements, Returns}
use ivos.Semaphore.Refined.{Trace-Implements}

-- The semaphore, the heap and the kernel.
abbrev Parts : Type 0
Parts = Semaphore × Heap × Kernel

abbrev no_items : Heap
no_items = λ a. none

abbrev mutex : Semaphore
mutex = record { value = pos 1; queue = record { head = 0; tail = 0 } }

abbrev memory : (address : ℕ) → Allocation
memory address = record { address = address; content = item (pos 0) 7 }

abbrev begun : Parts
begun = (mutex, no_items, three by_round_robin running ready ready)

abbrev got : Outcome Parts → Parts
got (done x) = x
got fault = begun
got runs_on = begun

abbrev runs_as : (slot : ℕ) → Parts → Parts
runs_as slot (s, h, k) = (s, h, record k { gt_current = slot })

abbrev taken : Parts
taken = got (sem_wait (memory 32) (time 0 9) begun.0 begun.1 begun.2)

abbrev second_current : Parts
second_current = runs_as 1 taken

abbrev one_waits : Parts
one_waits = got (sem_wait (memory 32) (time 0 9) second_current.0 second_current.1 second_current.2)

abbrev third : Parts
third = runs_as 2 one_waits

abbrev two_wait : Parts
two_wait = got (sem_wait (memory 64) (time 0 9) third.0 third.1 third.2)

abbrev first : Parts
first = runs_as 0 two_wait

abbrev given_up : Parts
given_up = got (sem_post (time 1 0) first.0 first.1 first.2)

-- Thread 1 has been given the mutex, and thread 2 waits.
abbrev ideal : Ideal
ideal = record { units = 0; waiting = 2 ∷ []; waits = 3; posts = 1 }

given_up-Trace : Trace 1 ideal given_up.0 given_up.1 given_up.2
unfolding queue_init queue_push queue_pop queue_is_empty sem_wait sem_post wake ◌-ℤ◌ ◌+ℤ◌
    update_thread_state change_state
given_up-Trace =
    let t0 = start no_items begun.2 (λ j. ground arith) in
    let t1 = waited t0 (memory 32) (time 0 9) (omega arith) refl (omega arith) refl refl in
    let t2 = passed t1 second_current.2 (λ j. refl) in
    let t3 = waited t2 (memory 32) (time 0 9) (omega arith) refl (omega arith) refl refl in
    let t4 = passed t3 third.2 (λ j. refl) in
    let t5 = waited t4 (memory 64) (time 0 9) (omega arith) refl (omega arith) refl refl in
    let t6 = passed t5 first.2 (λ j. refl) in posted t6 (time 1 0) refl

Trace-Implements_example :
    Implements 1 ideal given_up.0 given_up.1 given_up.2 × Returns given_up.0 given_up.1 given_up.2
Trace-Implements_example = Trace-Implements given_up-Trace
