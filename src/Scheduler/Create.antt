-- ===== src/Scheduler/Create.antt =====
-- `gt_init` and `gt_create` of scheduler/gthr.c.
mod Tests
pub mod Result
pub mod Tickets
pub mod FirstRun
use ivos.Base.{
  ℕ, zero, suc, ◌+◌, ◌-◌, ◌<◌, ℤ, pos, negsuc, pos_part, ltb_ℤ, Option, none, some, ◌∷◌,
  if◌then◌else◌, ◌==◌,
}
use ivos.Scheduler.Time.{Timeval}
use ivos.Scheduler.Thread.{
  unused, running, ready, is_state, max_g_threads, stack_size, min_priority, max_priority, Gt,
  Kernel, set_thread, state_of, update, u64,
}
use ivos.Scheduler.Account.{init_thread_stats, update_thread_state}

-- The initial thread is slot 0. The calls of `srand` and `signal` are left out.
unfoldable pub gt_init : (created changed : Timeval) → Kernel → Kernel
unfolding init_thread_stats
gt_init created changed k =
    let t = record (k.gt_table 0) {
      state = running;
      priority = max_priority;
      tickets_lo = max_priority;
      tickets_hi = min_priority;
      skip_count = 0;
    } in
    record (set_thread 0 (init_thread_stats created changed t) k) {
      gt_current = 0;
      total_tickets = k.total_tickets + (min_priority + 1);
    }

-- The `for` loop of `gt_create` from slot `p`, with the number of slots that are left.
unfoldable pub find_unused : ℕ → Kernel → ℕ → Option ℕ
find_unused zero k p = none
find_unused (suc left) k p =
    let rest = find_unused left k (p + 1) in if is_state (state_of k p) unused then some p else rest

unfoldable pub clamp : ℤ → ℕ
clamp priority =
    if ltb_ℤ priority (pos max_priority)
    then max_priority
    else if ltb_ℤ (pos min_priority) priority
    then min_priority
    else pos_part priority

-- What the caller and the environment give to `gt_create`: the addresses of `gt_stop` and of the
-- thread's function, the result of `malloc` (0 is NULL), and three readings of the clock.
pub record Request : Type 0 where
  pub stop : ℕ
  pub function : ℕ
  pub priority : ℤ
  pub stack : ℕ
  pub created : Timeval
  pub changed : Timeval
  pub ready_at : Timeval

-- The new thread in its slot, before its change of state.
unfoldable pub new_thread : Request → ℕ → Gt → Gt
unfolding clamp init_thread_stats
new_thread r total t =
    let priority = clamp r.priority in
    init_thread_stats r.created r.changed (record t {
      ctx = record t.ctx { rsp = u64 (r.stack + (stack_size - 16)) };
      priority = priority;
      skip_count = 0;
      tickets_lo = total;
      tickets_hi = total + (min_priority - priority);
    })

-- The two words at the top of the stack.
unfoldable pub push_start : Request → (ℕ → ℕ) → ℕ → ℕ
push_start r memory =
    update (update memory (u64 (r.stack + (stack_size - 8))) r.stop)
      (u64 (r.stack + (stack_size - 16))) r.function

unfoldable pub fill_slot : Request → ℕ → Kernel → Kernel
unfolding new_thread push_start update_thread_state
fill_slot r p k =
    let t = new_thread r k.total_tickets (k.gt_table p) in
    update_thread_state r.ready_at p ready (record (set_thread p t k) {
      memory = push_start r k.memory;
      stacks = r.stack ∷ k.stacks;
      total_tickets = k.total_tickets + (min_priority - t.priority + 1);
    })

unfoldable pub gt_create : Request → Kernel → Kernel × ℤ
unfolding find_unused fill_slot
gt_create r k = elim (find_unused max_g_threads k 0) [
  | none ↦ (k, negsuc 0)
  | some p ↦ if r.stack == 0 then (k, negsuc 0) else (fill_slot r p k, pos 0)
]
