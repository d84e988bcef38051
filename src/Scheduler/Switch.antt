-- ===== src/Scheduler/Switch.antt =====
-- `gt_switch` of scheduler/gthr_switch.S, and `gt_reset_sig`, `gt_schedule` and `gt_return` of
-- scheduler/gthr.c.
mod Tests
pub mod Next
pub mod Running
pub mod Exit
pub mod Registers
pub mod Waiting
use ivos.Base.{
  ℕ, ◌+◌, Bool, true, false, ◌||◌, not, if◌then◌else◌, ◌==◌, List, [], ◌∷◌, some, Outcome, done,
  fault, runs_on, ◌>>=◌,
}
use ivos.Scheduler.Time.{Timeval}
use ivos.Scheduler.Thread.{
  unused, running, ready, blocked, is_state, Context, Kernel, set_thread, state_of, u64,
}
use ivos.Scheduler.Account.{update_thread_state}
use ivos.Scheduler.Policy.{call_next_thread}

-- mov %…, place(%rdi), for the places of the fields of `struct gt_context`.
abbrev pub with_word : (place value : ℕ) → Context → Context
with_word place value c =
    if place == 0x00
    then record c { rsp = value }
    else if place == 0x08
    then record c { r15 = value }
    else if place == 0x10
    then record c { r14 = value }
    else if place == 0x18
    then record c { r13 = value }
    else if place == 0x20
    then record c { r12 = value }
    else if place == 0x28
    then record c { rbx = value }
    else if place == 0x30
    then record c { rbp = value }
    else c

-- mov place(%rsi), %…
abbrev pub word_at : (place : ℕ) → Context → ℕ
word_at place c =
    if place == 0x00
    then c.rsp
    else if place == 0x08
    then c.r15
    else if place == 0x10
    then c.r14
    else if place == 0x18
    then c.r13
    else if place == 0x20
    then c.r12
    else if place == 0x28
    then c.rbx
    else if place == 0x30
    then c.rbp
    else 0

-- The seven stores.
abbrev pub save : (registers : Context) → Context → Context
save registers c = with_word 0x30 registers.rbp (
    with_word 0x28 registers.rbx (
      with_word 0x20 registers.r12 (
        with_word 0x18 registers.r13 (
          with_word 0x10 registers.r14
            (with_word 0x08 registers.r15 (with_word 0x00 registers.rsp c))))))

-- The seven loads.
abbrev pub restored : Context → Context
restored c = record {
  rsp = word_at 0x00 c;
  r15 = word_at 0x08 c;
  r14 = word_at 0x10 c;
  r13 = word_at 0x18 c;
  r12 = word_at 0x20 c;
  rbx = word_at 0x28 c;
  rbp = word_at 0x30 c;
}

-- The routine, with slots for the two contexts; `ret` takes the address on top of the new stack.
-- `cpu` is the registers at the entry of the routine.
unfoldable pub gt_switch : (old new : ℕ) → Kernel → Kernel
gt_switch old new k =
    let t = k.gt_table old in
    let saved = set_thread old (record t { ctx = save k.cpu t.ctx }) k in
    let loaded = restored (saved.gt_table new).ctx in
    record saved {
      cpu = record loaded { rsp = u64 (loaded.rsp + 8) };
      rip = saved.memory loaded.rsp;
    }

-- gt_reset_sig(SIGALRM): the pending alarm is cleared, SIGALRM unblocked, and the timer set to
-- 500 microseconds.
unfoldable pub gt_reset_sig : Kernel → Kernel
gt_reset_sig k = record k { mask = record k.mask { sigalrm = false }; timer = some 500 }

-- What the environment gives to one call of `gt_schedule`: the result of `rand`, and the clock at
-- the two changes of state.
pub record Inputs : Type 0 where
  pub random : ℕ
  pub ready_at : Timeval
  pub running_at : Timeval

-- The current thread becomes ready, unless it has ended or is blocked.
unfoldable pub yield_current : Timeval → Kernel → Kernel
yield_current now k =
    let old = state_of k k.gt_current in
    if is_state old unused || is_state old blocked
    then k
    else update_thread_state now k.gt_current ready k

-- The changes of state and the switch, once the next thread `p` is found.
unfoldable pub switch_to : Inputs → ℕ → Kernel → Kernel
switch_to x p k =
    let old = k.gt_current in
    let started = update_thread_state x.running_at p running (yield_current x.ready_at k) in
    gt_switch old p (record started { gt_current = p })

unfoldable pub gt_schedule : ℕ → Inputs → Kernel → Outcome (Kernel × Bool)
gt_schedule rounds x k = do
  let start = gt_reset_sig k
  (k', p, found) ← call_next_thread start.get_next_thread rounds x.random start start.gt_current
  if not found then done (k', false) else done (switch_to x p k', true)

-- The first lines of `gt_return` for a thread other than the initial one: its slot is marked, and
-- `free` is given an address that is computed from the stack pointer of its last switch.
unfoldable pub discard_current : Kernel → Kernel
discard_current k =
    let t = k.gt_table k.gt_current in
    record (set_thread k.gt_current (record t { state = unused }) k) {
      freed = u64 (t.ctx.rsp + 16) ∷ k.freed;
    }

-- while (gt_schedule()); as the initial thread meets it: after a call that switches away, `others`
-- is what the other threads do until control is back. `done` is that the loop ends.
unfoldable pub wait_for_others : ℕ → List (Inputs × (Kernel → Kernel)) → Kernel → Outcome Kernel
wait_for_others rounds [] k = runs_on
wait_for_others rounds ((x, others) ∷ rest) k = do
  (k', more) ← gt_schedule rounds x k
  let again = wait_for_others rounds rest (others k')
  if more then again else done k'

-- How `gt_return` ends: the process exits with the given code, or another thread has control. A
-- thread that comes back from its last `gt_schedule` meets the failing assertion.
pub data Ending : Type 0 where
  exits : ℕ → Ending
  switched : Kernel → Ending

unfoldable pub gt_return :
    ℕ → ℕ → Inputs → List (Inputs × (Kernel → Kernel)) → Kernel → Outcome Ending
gt_return ret rounds x schedule k =
    if not (k.gt_current == 0)
    then (do
      (k', _) ← gt_schedule rounds x (discard_current k)
      if k'.gt_current == k.gt_current then fault else done (switched k'))
    else do _ ← wait_for_others rounds schedule k; done (exits ret)

unfoldable pub gt_stop : ℕ → Inputs → List (Inputs × (Kernel → Kernel)) → Kernel → Outcome Ending
gt_stop rounds x schedule k = gt_return 0 rounds x schedule k
