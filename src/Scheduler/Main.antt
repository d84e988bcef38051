-- ===== src/Scheduler/Main.antt =====
-- `main` of scheduler/main.c. What its threads do stands in Scheduler/Work.
pub mod Started
pub mod Threads
mod Tests
use ivos.Base.{
  ℕ, ◌+◌, ℤ, pos, Bool, Option, none, some, ◌||◌, List, [], ◌∷◌, ◌++◌, Outcome, done, ◌>>=◌,
  if◌then◌else◌, Text, codes, same, maybe,
}
use ivos.Scheduler.Time.{Timeval}
use ivos.Scheduler.Thread.{Algorithm, by_round_robin, by_priority, by_lottery, Kernel}
use ivos.Scheduler.Policy.{set_scheduling_algorithm}
use ivos.Scheduler.Switch.{Inputs, Ending, gt_return}
use ivos.Semaphore.{Semaphore, sem_init}
use ivos.Scheduler.Create.{gt_init, Request, gt_create}

-- What an argument asks for.
pub data Choice : Type 0 where
  chooses : Algorithm → Choice
  asks_help not_known : Choice

abbrev pub choice_of : Text → Choice
choice_of arg =
    if same arg (codes "-rr") || same arg (codes "--round-robin")
    then chooses by_round_robin
    else if same arg (codes "-rrp") || same arg (codes "--round-robin-priority")
    then chooses by_priority
    else if same arg (codes "-lot") || same arg (codes "--lottery")
    then chooses by_lottery
    else if same arg (codes "-h") || same arg (codes "--help")
    then asks_help
    else not_known

-- The program prints its usage and exits with 0, names an argument that it does not know and exits with
-- 1, or goes on.
pub data Begin : Type 0 where
  prints_usage : Begin
  unknown_argument : Text → Begin
  goes_on : Kernel → Begin

-- What becomes of one argument; `next` is the rest of the loop.
abbrev pub after_choice : Choice → (arg : Text) → (next : Algorithm → Begin) → Begin
after_choice (chooses algorithm) arg next = next algorithm
after_choice asks_help arg next = prints_usage
after_choice not_known arg next = unknown_argument arg

unfoldable pub read_options : (args : List Text) → Kernel → Begin
unfolding set_scheduling_algorithm
read_options [] k = goes_on k
read_options (arg ∷ args) k =
    after_choice (choice_of arg) arg
      λ algorithm. read_options args (set_scheduling_algorithm algorithm k)

-- With the arguments behind the program's name.
unfoldable pub begin : (args : List Text) → Kernel → Begin
unfolding read_options
begin [] k = prints_usage
begin (arg ∷ args) k = read_options (arg ∷ args) k

-- The two lines of `print_usage`.
abbrev pub print_usage : (program_name : Text) → List Text
print_usage program_name =
    (codes "Usage: "
      ++ (program_name
          ++ codes
              " [-rr|--round-robin] [-rrp|--round-robin-priority] [-lot|--lottery] [-h|--help]"))
    ∷ codes "Press CTRL+C to display thread statistics"
    ∷ []

-- The lines that `main` prints before the threads, and the code of its `exit`.
abbrev pub exit_of : (program_name : Text) → Begin → Option (List Text × ℕ)
exit_of program_name prints_usage = some (print_usage program_name, 0)
exit_of program_name (unknown_argument arg) =
    some
      ((codes "Unknown argument: " ++ arg) ∷ codes "Use -h or --help for usage information" ∷ [], 1)
exit_of program_name (goes_on k) = none

-- What the environment gives to `main`: two readings of the clock, and for each of the four threads the
-- request without its priority.
pub record Setting : Type 0 where
  pub created : Timeval
  pub changed : Timeval
  pub first : Request
  pub second : Request
  pub third : Request
  pub fourth : Request

abbrev pub create : (priority : ℕ) → Request → Kernel → Kernel
create priority r k = (gt_create (record r { priority = pos priority }) k).0

-- gt_init and the four calls of gt_create, whose results are not looked at.
unfoldable pub start_threads : Setting → Kernel → Kernel
start_threads x k =
    create 6 x.fourth
      (create 10 x.third (create 0 x.second (create 3 x.first (gt_init x.created x.changed k))))

abbrev pub from_begin :
    Begin
    → (sem : Semaphore) → Setting
    → (rounds : ℕ) → Inputs
    → List (Inputs × (Kernel → Kernel))
    → Option (Semaphore × Outcome Ending)
from_begin prints_usage sem x rounds inputs schedule = none
from_begin (unknown_argument arg) sem x rounds inputs schedule = none
from_begin (goes_on k) sem x rounds inputs schedule =
    some (sem, gt_return 1 rounds inputs schedule (start_threads x k))

-- `main` to its end, with whether malloc gives what `sem_init` asks for; an `exit` before the threads
-- are started is `none`.
unfoldable pub main :
    (args : List Text)
    → (allocated : Bool) → Setting
    → (rounds : ℕ) → Inputs
    → List (Inputs × (Kernel → Kernel))
    → Kernel
    → Option (Semaphore × Outcome Ending)
unfolding begin start_threads sem_init
main args allocated x rounds inputs schedule k =
    maybe (sem_init allocated (pos 1)) none
      λ sem. from_begin (begin args k) sem x rounds inputs schedule
