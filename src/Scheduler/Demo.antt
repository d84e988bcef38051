-- ===== src/Scheduler/Demo.antt =====
-- Kernels and times for the tests of the scheduler.
use ivos.Base.{ℕ, pos, some, arith}
use ivos.Scheduler.Create.{Request}
use ivos.Scheduler.Main.{Setting}
use ivos.Scheduler.Main.Threads.{HasStacks}
use ivos.Scheduler.Time.{Timeval}
use ivos.Scheduler.Thread.{State, Gt, zero_thread, Algorithm, Kernel, boot, update}

abbrev pub time : ℕ → ℕ → Timeval
time s us = record { tv_sec = pos s; tv_usec = pos us }

abbrev pub thread : State → (priority skips : ℕ) → Gt
thread s p n = record zero_thread { state = s; priority = p; skip_count = n }

abbrev pub with_tickets : Gt → (lo hi : ℕ) → Gt
with_tickets t lo hi = record t { tickets_lo = lo; tickets_hi = hi }

-- Three slots in use: the initial thread, and two more with priorities 3 and 10.
abbrev pub three : Algorithm → (first second third : State) → Kernel
three algorithm a b c = record boot {
  get_next_thread = some algorithm;
  total_tickets = 20;
  gt_table =
      update
        (update (update boot.gt_table 2 (with_tickets (thread c 10 0) 19 19)) 1
          (with_tickets (thread b 3 1) 11 18))
        0 (with_tickets (thread a 0 0) 0 10);
}

-- What `main` of scheduler/main.c is given.
abbrev request : (stack : ℕ) → Request
request stack = record {
  stop = 77;
  function = 99;
  priority = pos 0;
  stack = stack;
  created = time 0 1;
  changed = time 0 2;
  ready_at = time 0 3;
}

abbrev pub setting : Setting
setting = record {
  created = time 0 0;
  changed = time 0 0;
  first = request 4096;
  second = request 8192;
  third = request 12288;
  fourth = request 16384;
}

pub setting-HasStacks : HasStacks setting
setting-HasStacks = record {
  first = λ e. ground arith;
  second = λ e. ground arith;
  third = λ e. ground arith;
  fourth = λ e. ground arith;
}
