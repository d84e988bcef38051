-- ===== src/Scheduler/Account.antt =====
-- `update_thread_state` and `init_thread_stats` of scheduler/gthr.c. What `gettimeofday` returns is
-- an argument.
mod Tests
pub mod Totals
pub mod Fixed
use ivos.Base.{ℕ, true, if◌then◌else◌}
use ivos.Scheduler.Time.{Timeval, init_timeval, timeval_subtract, timeval_add}
use ivos.Scheduler.Stats.{no_stats, record_period}
use ivos.Scheduler.Thread.{State, unused, running, ready, blocked, is_state, Gt, Kernel, set_thread}

-- The two readings of the clock are one after the other.
unfoldable pub init_thread_stats : (created changed : Timeval) → Gt → Gt
init_thread_stats created changed t = record t {
  creation_time = created;
  last_state_change = changed;
  total_running = init_timeval;
  total_waiting = init_timeval;
  run = no_stats;
  wait = no_stats;
}

-- The `if` on the old state: a running period, a waiting period (ready or blocked), or none.
unfoldable pub account : State → Timeval → Gt → Gt
account running elapsed t = record t {
  total_running = timeval_add t.total_running elapsed;
  run = record_period elapsed t.run;
}
account ready elapsed t = record t {
  total_waiting = timeval_add t.total_waiting elapsed;
  wait = record_period elapsed t.wait;
}
account blocked elapsed t = record t {
  total_waiting = timeval_add t.total_waiting elapsed;
  wait = record_period elapsed t.wait;
}
account unused elapsed t = t

unfoldable pub change_state : Timeval → State → Gt → Gt
unfolding account
change_state now new t =
    if is_state t.state new
    then t
    else record (account t.state (timeval_subtract now t.last_state_change) t) {
      state = new;
      last_state_change = now;
    }

-- SIGINT, whose handler prints the statistics, is blocked meanwhile.
unfoldable pub update_thread_state : Timeval → ℕ → State → Kernel → Kernel
unfolding change_state
update_thread_state now i new k =
    let old_mask = k.mask in
    let guarded = record k { mask = record k.mask { sigint = true } } in
    let updated = set_thread i (change_state now new (guarded.gt_table i)) guarded in
    record updated { mask = old_mask }
