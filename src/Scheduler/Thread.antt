-- ===== src/Scheduler/Thread.antt =====
-- The thread table of scheduler/gthr.h and gthr.c, and the state that the library's functions share.
use ivos.Base.{ℕ, ◌%◌, ◌^◌, Bool, false, Option, none, List, [], ◌==◌, if◌then◌else◌}
use ivos.Scheduler.Time.{Timeval, init_timeval}
use ivos.Scheduler.Stats.{Stats, no_stats}

abbrev pub max_g_threads : ℕ
max_g_threads = 5

abbrev pub stack_size : ℕ
stack_size = 0x400000

-- The numerically greatest priority is the lowest.
abbrev pub min_priority : ℕ
min_priority = 10

abbrev pub max_priority : ℕ
max_priority = 0

-- `enum e_state`
pub data State : Type 0 where
  unused running ready blocked : State

abbrev pub code : State → ℕ
code unused = 0
code running = 1
code ready = 2
code blocked = 3

abbrev pub is_state : State → State → Bool
is_state s t = code s == code t

-- `struct gt_context`
pub record Context : Type 0 where
  pub rsp : ℕ
  pub r15 : ℕ
  pub r14 : ℕ
  pub r13 : ℕ
  pub r12 : ℕ
  pub rbx : ℕ
  pub rbp : ℕ

-- `struct gt`; the fields about run and about wait slices are two `Stats`.
pub record Gt : Type 0 where
  pub ctx : Context
  pub state : State
  pub creation_time : Timeval
  pub total_running : Timeval
  pub total_waiting : Timeval
  pub last_state_change : Timeval
  pub run : Stats
  pub wait : Stats
  pub priority : ℕ
  pub skip_count : ℕ
  pub tickets_lo : ℕ
  pub tickets_hi : ℕ

-- The functions that `get_next_thread` points to.
pub data Algorithm : Type 0 where
  by_round_robin by_priority by_lottery : Algorithm

-- Which of the two signals that the program uses are blocked.
pub record Mask : Type 0 where
  pub sigint : Bool
  pub sigalrm : Bool

-- The globals of gthr.c with the machine: the registers that `gt_switch` swaps, where control is,
-- the memory that holds the stacks, the signal mask, the period of the timer, what `malloc` has
-- returned and what `free` was given.
pub record Kernel : Type 0 where
  pub gt_table : ℕ → Gt
  pub gt_current : ℕ
  pub get_next_thread : Option Algorithm
  pub total_tickets : ℕ
  pub cpu : Context
  pub rip : ℕ
  pub memory : ℕ → ℕ
  pub mask : Mask
  pub timer : Option ℕ
  pub stacks : List ℕ
  pub freed : List ℕ

abbrev pub update {ℓ} : {A : Type ℓ} → (ℕ → A) → ℕ → A → ℕ → A
update f i a j = if j == i then a else f j

abbrev pub set_thread : ℕ → Gt → Kernel → Kernel
set_thread i t k = record k { gt_table = update k.gt_table i t }

abbrev pub state_of : Kernel → ℕ → State
state_of k i = (k.gt_table i).state

-- An address or a counter of 64 bits.
abbrev pub u64 : ℕ → ℕ
u64 n = n % 2 ^ 64

-- Static storage: all fields are zero, and no scheduling algorithm is set.
abbrev pub zero_context : Context
zero_context = record { rsp = 0; r15 = 0; r14 = 0; r13 = 0; r12 = 0; rbx = 0; rbp = 0 }

abbrev pub zero_thread : Gt
zero_thread = record {
  ctx = zero_context;
  state = unused;
  creation_time = init_timeval;
  total_running = init_timeval;
  total_waiting = init_timeval;
  last_state_change = init_timeval;
  run = no_stats;
  wait = no_stats;
  priority = 0;
  skip_count = 0;
  tickets_lo = 0;
  tickets_hi = 0;
}

abbrev pub boot : Kernel
boot = record {
  gt_table = λ _. zero_thread;
  gt_current = 0;
  get_next_thread = none;
  total_tickets = 0;
  cpu = zero_context;
  rip = 0;
  memory = λ _. 0;
  mask = record { sigint = false; sigalrm = false };
  timer = none;
  stacks = [];
  freed = [];
}
