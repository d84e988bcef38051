-- ===== src/Scheduler/Report.antt =====
-- `gt_print_stats` of scheduler/gthr.c: the two tables that are printed, as the values in their
-- columns. Colours, rules and the printing of numbers are left out.
pub mod Rows
use ivos.Base.{
  ℕ, zero, suc, ◌+◌, ◌-◌, ◌==◌, ltb, Bool, not, ◌&&◌, Option, none, some, List, [], ◌∷◌,
  if◌then◌else◌, pos,
}
use ivos.Scheduler.Time.{Timeval}
use ivos.Scheduler.Thread.{
  State, unused, is_state, max_g_threads, Gt, Algorithm, by_round_robin, by_priority, by_lottery,
  Kernel,
}
use ivos.Scheduler.Stats.{Double, of_int, of_unsigned, div, sqrt, Stats, timeval_to_microseconds}

-- The fourth column, which depends on the algorithm.
pub data Detail : Type 0 where
  no_detail : Detail
  shows_priority : ℕ → Detail
  shows_tickets : (lo hi : ℕ) → Detail

pub record Row : Type 0 where
  pub id : ℕ
  pub state : State
  pub count : ℕ
  pub detail : Detail
  pub total_ms : Double
  pub avg_us : Double
  pub min_us : Double
  pub max_us : Double
  pub std_dev : Double

abbrev pub detail_of : Option Algorithm → Gt → Detail
detail_of (some by_priority) t = shows_priority t.priority
detail_of (some by_lottery) t = shows_tickets t.tickets_lo t.tickets_hi
detail_of algorithm t = no_detail

abbrev pub std_dev_of : Stats → Double
std_dev_of s =
    if ltb 1 s.count then sqrt (div s.var_us (of_unsigned (s.count - 1))) else of_int (pos 0)

-- An unused thread without a period of the kind is passed over.
abbrev pub has_row : Gt → Stats → Bool
has_row t s = not (is_state t.state unused && (s.count == 0))

-- The row of thread `i`, from the statistics and the total of one kind.
unfoldable pub row_of : Option Algorithm → (i : ℕ) → Gt → Stats → (total : Timeval) → Row
unfolding timeval_to_microseconds
row_of algorithm i t s total = record {
  id = i;
  state = t.state;
  count = s.count;
  detail = detail_of algorithm t;
  total_ms = div (timeval_to_microseconds total) (of_int (pos 1000));
  avg_us = s.avg_us;
  min_us = timeval_to_microseconds s.min_time;
  max_us = timeval_to_microseconds s.max_time;
  std_dev = std_dev_of s;
}

-- The loop over the slots from `i`, with the number that are left, for one kind of statistics.
unfoldable pub table_rows :
    (stats : Gt → Stats) → (total : Gt → Timeval) → (left : ℕ) → Kernel → (i : ℕ) → List Row
unfolding row_of
table_rows stats total zero k i = []
table_rows stats total (suc left) k i =
    let rest = table_rows stats total left k (i + 1) in
    let t = k.gt_table i in
    if has_row t (stats t) then row_of k.get_next_thread i t (stats t) (total t) ∷ rest else rest

-- The name in the heading; any other pointer is taken for `lottery`.
abbrev pub heading : Option Algorithm → Algorithm
heading (some by_round_robin) = by_round_robin
heading (some by_priority) = by_priority
heading algorithm = by_lottery

pub record Report : Type 0 where
  pub algorithm : Algorithm
  pub run_table : List Row
  pub wait_table : List Row

unfoldable pub gt_print_stats : Kernel → Report
unfolding table_rows
gt_print_stats k = record {
  algorithm = heading k.get_next_thread;
  run_table = table_rows (λ t. t.run) (λ t. t.total_running) max_g_threads k 0;
  wait_table = table_rows (λ t. t.wait) (λ t. t.total_waiting) max_g_threads k 0;
}
