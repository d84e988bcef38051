-- ===== src/Scheduler/Work.antt =====
-- The functions `f` and `g` of scheduler/main.c, and the program while its threads run `f`: the kernel,
-- the semaphore `sem`, and where each thread stands. The two signal handlers of scheduler/gthr.c.
mod Tests
pub mod Totals
pub mod Sound
pub mod Waits
pub mod Posts
pub mod Reaching
pub mod Steps
pub mod Begun
pub mod Invariant
pub mod Exclusion
pub mod Intrusion
pub mod Handing
pub mod Lines
pub mod Printed
use ivos.Base.{ℕ, ◌+◌, Bool, true, false, List, [], ◌∷◌, ◌++◌, Outcome, done, runs_on, ◌>>=◌}
use ivos.Scheduler.Time.{Timeval}
use ivos.Scheduler.Thread.{Kernel, update}
use ivos.Scheduler.Switch.{Inputs, gt_schedule}
use ivos.Scheduler.Report.{Report, gt_print_stats}
use ivos.Scheduler.Sleep.{Timespec, Nap, gt_uninterruptible_nanosleep}
use ivos.Queue.{Heap, Allocation}
use ivos.Semaphore.{Semaphore, sem_wait, sem_post}

-- Where a thread stands: in `main`, or in `f` or `g`, before one of their statements.
pub data Point : Type 0 where
  in_main at_start at_wait at_begin at_first_sleep at_end at_second_sleep at_post : Point

-- A thread's local variables.
pub record Activation : Type 0 where
  pub point : Point
  pub id : ℕ
  pub i : ℕ

-- A line that is printed: id, val, and BEGINNING or END.
pub record Printout : Type 0 where
  pub id : ℕ
  pub val : ℕ
  pub ends : Bool

-- `x` is the static variable of the function that the threads run.
pub record Program : Type 0 where
  pub kernel : Kernel
  pub sem : Semaphore
  pub heap : Heap
  pub x : ℕ
  pub activations : ℕ → Activation
  pub output : List Printout

-- Where the thread in slot `j` stands.
abbrev pub place : Program → ℕ → Point
place p j = (p.activations j).point

abbrev pub set_current : Activation → Program → Program
set_current a p = record p { activations = update p.activations p.kernel.gt_current a }

-- What the environment gives to one statement: what `malloc` returns, the clock, and how the calls of
-- nanosleep go.
pub record Given : Type 0 where
  pub allocation : Allocation
  pub now : Timeval
  pub naps : List Nap

-- id = ++x;
unfoldable pub begin_work : (next : Point) → Program → Program
begin_work next p =
    set_current (record { point = next; id = p.x + 1; i = 0 }) (record p { x = p.x + 1 })

-- printf("… Thread id = %d, val = %d …\n", id, ++i);
unfoldable pub print_line : (ends : Bool) → (next : Point) → Program → Program
print_line ends next p =
    let a = p.activations p.kernel.gt_current in
    set_current (record a { point = next; i = a.i + 1 })
      (record p { output = p.output ++ (record { id = a.id; val = a.i + 1; ends = ends } ∷ []) })

-- The thread goes on with another statement.
abbrev pub go_on : (next : Point) → Program → Program
go_on next p = set_current (record (p.activations p.kernel.gt_current) { point = next }) p

-- gt_uninterruptible_nanosleep(0, 50000000); whose result is not looked at.
unfoldable pub sleep : List Nap → (next : Point) → Program → Outcome Program
unfolding gt_uninterruptible_nanosleep
sleep naps next p = do
  _ ← gt_uninterruptible_nanosleep naps (record { tv_sec = 0; tv_nsec = 50000000 })
  done (go_on next p)

-- sem_wait(&sem); and sem_post(&sem); which leave `gt_current` as it is.
unfoldable pub wait : Given → (next : Point) → Program → Outcome Program
unfolding sem_wait
wait g next p = do
  (s, h, k) ← sem_wait g.allocation g.now p.sem p.heap p.kernel
  done (record (go_on next p) { kernel = k; sem = s; heap = h })

unfoldable pub post : Given → (next : Point) → Program → Outcome Program
unfolding sem_post
post g next p = do
  (s, h, k) ← sem_post g.now p.sem p.heap p.kernel
  done (record (go_on next p) { kernel = k; sem = s; heap = h })

-- One statement of `f`, by the current thread; `runs_on` where it is not in `f`.
unfoldable pub f : Given → Point → Program → Outcome Program
unfolding begin_work print_line sleep wait post
f g in_main p = runs_on
f g at_start p = done (begin_work at_wait p)
f g at_wait p = wait g at_begin p
f g at_begin p = done (print_line false at_first_sleep p)
f g at_first_sleep p = sleep g.naps at_end p
f g at_end p = done (print_line true at_second_sleep p)
f g at_second_sleep p = sleep g.naps at_post p
f g at_post p = post g at_wait p

-- The same of `g`, which has no semaphore.
unfoldable pub g : Given → Point → Program → Outcome Program
unfolding begin_work print_line sleep
g given at_start p = done (begin_work at_begin p)
g given at_begin p = done (print_line false at_first_sleep p)
g given at_first_sleep p = sleep given.naps at_end p
g given at_end p = done (print_line true at_second_sleep p)
g given at_second_sleep p = sleep given.naps at_begin p
g given in_main p = runs_on
g given at_wait p = runs_on
g given at_post p = runs_on

-- The handlers of SIGALRM and of SIGINT.
unfoldable pub gt_alarm_handle : (rounds : ℕ) → Inputs → Kernel → Outcome Kernel
unfolding gt_schedule
gt_alarm_handle rounds x k = do (k', _) ← gt_schedule rounds x k; done k'

unfoldable pub gt_int_handle : Kernel → Report
unfolding gt_print_stats
gt_int_handle k = gt_print_stats k
