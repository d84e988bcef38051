-- ===== src/Scheduler/Work/Reaching.antt =====
-- The states that the program reaches once `main` has started its threads.
use ivos.Base.{ℕ, ◌==◌, ◌≡◌, ◌≢◌, pos, true, none, some, arith, done, ◌+◌, if◌then◌else◌, []}
use ivos.Scheduler.Thread.{blocked, Algorithm, Kernel, boot, state_of}
use ivos.Scheduler.Policy.{set_scheduling_algorithm}
use ivos.Scheduler.Main.{Setting, start_threads}
use ivos.Scheduler.Main.Threads.{HasStacks}
use ivos.Scheduler.Switch.{Inputs}
use ivos.Queue.{Heap, null}
use ivos.Semaphore.{Semaphore, sem_init}
use ivos.Scheduler.Work.{
  Point, in_main, at_start, at_first_sleep, Activation, Program, place, set_current, Given, f,
  gt_alarm_handle,
}
use ivos.Scheduler.Work.Sound.{Sound}

-- Slot 0 is in `main`, the others are about to begin.
abbrev pub first_activation : ℕ → Activation
first_activation j = record { point = if j == 0 then in_main else at_start; id = 0; i = 0 }

abbrev pub with_threads : Kernel → Semaphore → Heap → Program
with_threads k s h = record {
  kernel = k;
  sem = s;
  heap = h;
  x = 0;
  activations = first_activation;
  output = [];
}

-- `malloc` gives an address that holds nothing. A thread that is blocked does not come to the end of its
-- first sleep: the timer, set to 500 microseconds, takes control from it during the 50 milliseconds.
pub record IsGiven (g : Given) (p : Program) : Type 0 where
  pub allocated : g.allocation.address ≢ null
  pub unused : p.heap g.allocation.address ≡ none
  pub timely :
      place p p.kernel.gt_current ≡ at_first_sleep → state_of p.kernel p.kernel.gt_current ≢ blocked

-- The current thread does a statement, or gt_schedule is called: by the handler of the timer at any time
-- between statements, or by `main`, which waits for the other threads.
pub data Reached : Program → Type 0 where
  start :
      (x : Setting) (a : Algorithm) (s : Semaphore) (h : Heap)
      → HasStacks x
      → sem_init true (pos 1) ≡ some s
      → Reached (with_threads (start_threads x (set_scheduling_algorithm a boot)) s h)
  works :
      {p p' : Program}
      → Reached p
      → (g : Given) → IsGiven g p
      → f g (place p p.kernel.gt_current) p ≡ done p'
      → Reached p'
  fires :
      {p : Program}
      → Reached p
      → (rounds : ℕ) (x : Inputs) (k' : Kernel) → gt_alarm_handle rounds x p.kernel ≡ done k'
      → Reached (record p { kernel = k' })

abbrev pub IsSound : Program → Type 0
IsSound p = Sound p.kernel p.sem p.heap (place p)

-- The current thread's variables at another point, and when a line has been printed.
abbrev pub at_point : Point → Program → Activation
at_point next p = record (p.activations p.kernel.gt_current) { point = next }

abbrev pub printed : Point → Program → Activation
printed next p = let a = p.activations p.kernel.gt_current in record a { point = next; i = a.i + 1 }

pub place-here :
    (a : Activation) (p : Program) → place (set_current a p) p.kernel.gt_current ≡ a.point
place-here a p = ground arith

pub place-other :
    (a : Activation) (p : Program) (j : ℕ)
    → j ≢ p.kernel.gt_current
    → place (set_current a p) j ≡ place p j
place-other a p j ne = ground arith
